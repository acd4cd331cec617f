-- ===== src/Examples/Values.antt =====
-- Examples of the pure functions of frontend/src/mockApi.ts, App.tsx and the components.
use mathlib.Core.List.{Perm}
use cloud_file.Base.{
  ℕ, ◌+◌, ◌==◌, ◌*◌, ◌%◌, ◌≤◌, ◌<◌, ◌≡◌, ◌↔◌, ◌⊎◌, ◌≢◌, refl, arith, List, [], ◌∷◌, length, none,
  some, true, false, String, All, map, keep,
}
use cloud_file.Ratio.{Ratio}
use cloud_file.Types.{FileItem, UploadStatus, Chunk, ChunkStatus}
use cloud_file.Api.{chunk_count_of, slice_of}
use cloud_file.Api.Slices.{slices_from, slices_from-eq-bytes, length-slice_of}
use cloud_file.Api.Hash.{hex_text-injective}
use cloud_file.App.State.{find_task}
use cloud_file.App.Patches.{
  next_chunk, set_status, mark_chunk, make_chunks, make_chunks_from, new_task, chunk_sent,
}
use cloud_file.App.Patch.{reconcile, reset_sending}
use cloud_file.App.Chunks.{Numbered}
use cloud_file.App.Chunks.Marking.{IsQuiet, IsUploaded}
use cloud_file.App.Chunks.Resuming.{
  is_listed, Some, next_chunk-reconcile, next_chunk-reconcile-none, reconcile-IsUploaded,
  next_chunk-retry,
}
use cloud_file.Format.{format_bytes, minutes, seconds, whole_seconds, format_time}
use cloud_file.Format.Bytes.{format_bytes-rounds_up}
use cloud_file.Format.Time.{minutes-seconds}
use cloud_file.Stats.{success_rate, success_rate_bounds}
use cloud_file.FileView.{
  size_asc, filtered, matching, sort, insert, goes_before, matches_query, matches_type,
  matches_status, includes,
}
use cloud_file.Text.{decimal}
use cloud_file.Card.{status_value}
use cloud_file.FileView.Order.{IsOrdered, filtered-IsOrdered}
use cloud_file.FileView.Wanted.{matches, matches_iff}
use cloud_file.App.Progress.{chunk_sent-progress}
use cloud_file.FileView.Stability.{compared, filtered-ties}
use cloud_file.Examples.{picked, half}

slices_from-eq-bytes_example :
    slices_from 2 (1 ∷ 2 ∷ 3 ∷ []) 0 (chunk_count_of 2 3) ≡ 1 ∷ 2 ∷ 3 ∷ []
slices_from-eq-bytes_example = slices_from-eq-bytes 2 (1 ∷ 2 ∷ 3 ∷ []) (omega arith)

length-slice_of_example : length (slice_of 2 3 (1 ∷ 2 ∷ 3 ∷ []) 0) ≡ 2
unfolding chunk_count_of
length-slice_of_example = length-slice_of 2 (1 ∷ 2 ∷ 3 ∷ []) 0 (omega arith) (omega arith)

hex_text-injective_example : ◌≡◌ {A = List ℕ} (0 ∷ 171 ∷ []) (0 ∷ 171 ∷ [])
hex_text-injective_example =
    hex_text-injective (0 ∷ 171 ∷ []) (0 ∷ 171 ∷ []) (omega arith, (omega arith, tt))
      (omega arith, (omega arith, tt)) refl

-- the second of two chunks is there already, the first was on its way
abbrev chunks : List Chunk
chunks =
    record { index = 0; status = ChunkStatus.uploading }
    ∷ record { index = 1; status = ChunkStatus.pending }
    ∷ []

abbrev first : Chunk
first = record { index = 0; status = ChunkStatus.pending }

first_next : next_chunk (reconcile (1 ∷ []) chunks) ≡ some first
unfolding next_chunk reconcile
first_next = refl

next_chunk-reconcile_example :
    (is_listed (1 ∷ []) first ≡ false)
    × Some (λ d. (d.index ≡ 0) × (d.status ≢ ChunkStatus.uploaded)) chunks
next_chunk-reconcile_example = next_chunk-reconcile (1 ∷ []) chunks first first_next

next_chunk-reconcile-none_example :
    (next_chunk (reconcile (1 ∷ 0 ∷ []) chunks) ≡ none)
    ↔ All (λ c. (is_listed (1 ∷ 0 ∷ []) c ≡ true) ⊎ IsUploaded c) chunks
next_chunk-reconcile-none_example = next_chunk-reconcile-none (1 ∷ 0 ∷ []) chunks

nothing_left : next_chunk (reconcile (1 ∷ 0 ∷ []) chunks) ≡ none
unfolding next_chunk reconcile
nothing_left = refl

reconcile-IsUploaded_example : All IsUploaded (reconcile (1 ∷ 0 ∷ []) chunks)
reconcile-IsUploaded_example = reconcile-IsUploaded (1 ∷ 0 ∷ []) chunks nothing_left

pending_next : next_chunk (make_chunks 2) ≡ some first
unfolding next_chunk make_chunks make_chunks_from
pending_next = refl

pending-IsQuiet : Numbered 0 (make_chunks 2) × All IsQuiet (make_chunks 2)
unfolding make_chunks make_chunks_from
pending-IsQuiet = ((refl, (refl, tt)), (ground arith, (ground arith, tt)))

next_chunk-retry_example :
    next_chunk (map reset_sending (mark_chunk 0 ChunkStatus.failed (make_chunks 2)))
    ≡ some (set_status ChunkStatus.failed first)
next_chunk-retry_example =
    next_chunk-retry 0 (make_chunks 2) first pending-IsQuiet.0 pending-IsQuiet.1 pending_next

picked_found : find_task "t1" (picked ∷ []) ≡ some picked
unfolding find_task new_task
picked_found = refl

format_bytes-rounds_up_example : format_bytes 1048500 ≡ "1024 KB"
format_bytes-rounds_up_example = format_bytes-rounds_up 1048500 (omega arith) (omega arith)

-- almost two minutes
abbrev almost : Ratio
almost = record { num = 1199; den = 10 }

minutes-seconds_example :
    (60 * minutes almost + seconds almost ≡ whole_seconds almost)
    × (seconds almost ≤ 60)
    × ((seconds almost ≡ 60) ↔ (59 * almost.den < almost.num % (60 * almost.den)))
minutes-seconds_example = minutes-seconds almost (omega arith)

sixty_seconds : format_time almost ≡ "1m 60s"
unfolding format_time minutes seconds decimal
sixty_seconds = refl

success_rate_bounds_example :
    (success_rate 3 (3 + 2) ≤ 100) × (success_rate 3 3 ≡ 100) × (success_rate 0 3 ≡ 0)
success_rate_bounds_example = success_rate_bounds 3 2

abbrev listed : String → ℕ → FileItem
listed name size = record {
  id = name;
  name = name;
  file_type = "text/plain";
  size = size;
  status = UploadStatus.success;
  uploaded_at = 0;
  link = "";
  task_id = name;
}

abbrev shelf : List FileItem
shelf = listed "b.txt" 9 ∷ listed "a.md" 5 ∷ listed "a.txt" 2 ∷ []

filtered-IsOrdered_example :
    IsOrdered size_asc (filtered (λ s. s) "txt" "all" "all" size_asc shelf)
    × Perm
        (filtered (λ s. s) "txt" "all" "all" size_asc shelf)
        (keep (matches (λ s. s) "txt" "all" "all") shelf)
filtered-IsOrdered_example =
    filtered-IsOrdered (λ s. s) "txt" "all" "all" size_asc shelf
      (matches (λ s. s) "txt" "all" "all") (matches_iff (λ s. s) "txt" "all" "all")

two_texts :
    filtered (λ s. s) "txt" "all" "all" size_asc shelf ≡ listed "a.txt" 2 ∷ listed "b.txt" 9 ∷ []
unfolding filtered sort insert goes_before matching matches_query matches_type matches_status
    includes status_value
two_texts = refl

chunk_sent-progress_example :
    let progress = (chunk_sent 0 half picked).progress in
    (10 * progress.den ≤ progress.num) × (progress.num ≤ 92 * progress.den)
unfolding new_task chunk_count_of
chunk_sent-progress_example = chunk_sent-progress 0 half picked (omega arith)

filtered-ties_example :
    keep (λ f. compared size_asc f == 2) (filtered (λ s. s) "txt" "all" "all" size_asc shelf)
    ≡ keep (λ f. compared size_asc f == 2) (keep (matches (λ s. s) "txt" "all" "all") shelf)
filtered-ties_example =
    filtered-ties (λ s. s) "txt" "all" "all" size_asc shelf 2 (matches (λ s. s) "txt" "all" "all")
      (matches_iff (λ s. s) "txt" "all" "all")
