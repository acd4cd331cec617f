-- ===== src/Examples/Uploads.antt =====
-- Examples of an upload in frontend/src/App.tsx that goes through.
use cloud_file.Base.{◌+◌, ◌≡◌, refl, arith, [], ◌∷◌, ◌++◌, none, some, true, All, length}
use cloud_file.Types.{UploadTask, ChunkStatus}
use cloud_file.Wire.{accepted, rejected, request, error, throws, ok}
use cloud_file.App.State.{init, find_task, await, start_uploading, awaiting_files, awaiting_merge}
use cloud_file.App.Patches.{
  new_task, hashed, open_transfer, make_chunks, make_chunks_from, next_chunk,
}
use cloud_file.Api.{
  chunk_count_of, init_upload, calculate_file_hash, hex_text, given_id, content_type_of,
  upload_chunk, query_upload_status,
}
use cloud_file.Text.{to_hex, pad_start, decimal}
use cloud_file.App.Patch.{
  apply, patch_tasks, update_task, starts_merge, reconcile, reconcile_chunk, pause,
}
use cloud_file.App.Step.{run, step, settle, take_job, continue_job, commit, end_timer}
use cloud_file.App.Upload.{handle_files, after_hash, after_init}
use cloud_file.App.Chunks.{Numbered}
use cloud_file.App.Chunks.Marking.{open_count, IsQuiet, IsUploaded}
use cloud_file.App.WellFormed.{IsWellFormed, IsInRange, run-IsWellFormed}
use cloud_file.App.Invariant.{Everywhere}
use cloud_file.App.Transfer.{IsSending}
use cloud_file.App.Transfer.Completion.{IsMerging, transfer, transfer-IsMerging}
use cloud_file.App.Transfer.Opening.{opening, picks-IsMerging}
use cloud_file.App.Transfer.Retry.{failed_round, retry-IsMerging}
use cloud_file.App.Transfer.Pause.{pause_and_resume, resume-IsMerging}
use cloud_file.App.Patch
use cloud_file.Examples.{
  notes, to_send, to_send_result, platform, half, opened, opened_console, hashing_events,
}

opened-IsSending : IsSending opened_console "t1" opened
unfolding run step settle take_job continue_job commit end_timer handle_files after_hash after_init
    init await update_task patch_tasks apply find_task start_uploading new_task hashed open_transfer
    make_chunks make_chunks_from chunk_count_of init_upload request calculate_file_hash hex_text
    given_id to_hex pad_start decimal content_type_of
opened-IsSending = record {
  found = refl;
  committed = refl;
  armed = refl;
  status = refl;
  has_id = ("7", refl);
}

opened-IsQuiet : All IsQuiet opened.chunks
unfolding open_transfer make_chunks make_chunks_from
opened-IsQuiet = (ground arith, (ground arith, tt))

opened-Numbered : Numbered 0 opened.chunks
unfolding open_transfer make_chunks make_chunks_from
opened-Numbered = (refl, (refl, tt))

run-IsWellFormed_example : Everywhere IsWellFormed IsInRange (run platform init hashing_events)
run-IsWellFormed_example = run-IsWellFormed platform hashing_events

transfer-IsMerging_example :
    (u : UploadTask) × IsMerging opened_console "t1" opened u (
      run platform opened_console
        (transfer (open_count opened.chunks) "t1" (length opened_console.jobs) half))
transfer-IsMerging_example =
    transfer-IsMerging platform opened_console "t1" opened half opened-IsSending opened-Numbered
      opened-IsQuiet

opened_next : next_chunk opened.chunks ≡ some (record { index = 0; status = ChunkStatus.pending })
unfolding open_transfer make_chunks make_chunks_from next_chunk
opened_next = refl

picks-IsMerging_example :
    let s =
      run platform init (opening "t1" notes 1000 1 (accepted to_send) ++ transfer 2 "t1" 1 half) in
    (u : UploadTask) × (s.jobs ≡ awaiting_files none ∷ awaiting_merge u ∷ [])
    × (find_task "t1" s.tasks ≡ some (apply starts_merge u))
    × All IsUploaded u.chunks
    × (u.uploaded_chunks ≡ 2)
unfolding init init_upload request decimal given_id
picks-IsMerging_example =
    picks-IsMerging platform init "t1" notes 1000 (accepted to_send) to_send_result "7" half refl
      refl refl refl

opened_online : (opened_console.mounted_online ≡ true) × (opened_console.network_online ≡ true)
unfolding run step settle take_job continue_job commit end_timer handle_files after_hash after_init
    init await update_task patch_tasks apply find_task start_uploading new_task hashed open_transfer
    make_chunks make_chunks_from chunk_count_of init_upload request calculate_file_hash hex_text
    given_id to_hex pad_start decimal content_type_of
opened_online = (refl, refl)

opened_fails :
    upload_chunk opened (rejected (error "Failed to fetch")) ≡ throws (error "Failed to fetch")
unfolding upload_chunk request given_id open_transfer hashed new_task
opened_fails = refl

retry-IsMerging_example :
    (u : UploadTask) × IsMerging opened_console "t1" opened u (
      run platform opened_console (
        failed_round "t1" (length opened_console.jobs) (rejected (error "Failed to fetch")) half
        ++ transfer (open_count opened.chunks) "t1" (length opened_console.jobs) half))
unfolding open_transfer hashed new_task
retry-IsMerging_example =
    retry-IsMerging platform opened_console opened
      (record { index = 0; status = ChunkStatus.pending }) half (rejected (error "Failed to fetch"))
      (error "Failed to fetch") opened-IsSending opened-Numbered opened-IsQuiet opened_online.0
      opened_next opened_fails

opened_answer :
    query_upload_status (apply Patch.pauses opened) (accepted (some (0 ∷ []))) ≡ ok (0 ∷ [])
unfolding query_upload_status request given_id apply pause open_transfer hashed new_task
opened_answer = refl

resume-IsMerging_example :
    let k = length opened_console.jobs in
    let todo = open_count (reconcile (0 ∷ []) opened.chunks) in
    let s =
      run platform opened_console
        (pause_and_resume "t1" k (accepted (some (0 ∷ []))) ++ transfer todo "t1" k half) in
    (u : UploadTask) × (s.jobs ≡ opened_console.jobs ++ awaiting_merge u ∷ [])
    × (find_task "t1" s.tasks ≡ some (apply starts_merge u))
    × All IsUploaded u.chunks
    × (u.uploaded_chunks ≡ 1 + todo)
unfolding open_transfer hashed new_task
resume-IsMerging_example =
    resume-IsMerging platform opened_console opened half (accepted (some (0 ∷ []))) (0 ∷ [])
      opened-IsSending opened-Numbered opened_online.1 opened_answer

one_left : open_count (reconcile (0 ∷ []) opened.chunks) ≡ 1
unfolding open_count reconcile reconcile_chunk open_transfer make_chunks make_chunks_from
one_left = refl
