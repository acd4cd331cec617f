-- ===== src/Server/Compensate.antt =====
-- backend/internal/service/service.go: `Compensate`, and `objectHash`.
use cloud_file.Base.{
  ℕ, ◌+◌, ◌-◌, ◌==◌, Bool, true, false, ◌&&◌, String, List, str_eq, ltb, leb, keep, if◌then◌else◌,
}
use cloud_file.Server.Model.{UploadStatus, MediaTaskStatus, UploadTask, MediaTask, is_merging}
use cloud_file.Server.Action.{
  Outcome, done, fails, Action, pure, reads, attempt, ◌>>=◌, ◌>>◌, ignore, fold_each,
}
use cloud_file.Server.Storage.{ObjectStore}
use cloud_file.Server.World.{
  Config, Tables, World, find_rows, change, stored, is_stored, publish_media_task, publish_dead,
  change_rows,
}
use cloud_file.Server.Keys.{final_object_key}
use cloud_file.Server.Merge.{or_zero, is_that}

-- `processing` or `failed`
abbrev pub is_stuck : MediaTaskStatus → Bool
is_stuck MediaTaskStatus.processing = true
is_stuck MediaTaskStatus.failed = true
is_stuck _ = false

abbrev pub is_pending : MediaTaskStatus → Bool
is_pending MediaTaskStatus.pending = true
is_pending _ = false

-- the answer: `repaired_uploads`, `retried_media_tasks`, `dead_media_tasks`
pub record Counts : Type 0 where
  pub repaired_uploads : ℕ
  pub retried_media : ℕ
  pub dead_media : ℕ

-- the updates of an upload and of a media task
abbrev pub set_upload : ℕ → (UploadTask → UploadTask) → ℕ → Tables → Unit {0} × Tables
set_upload id f now t = (
  tt,
  record t {
    uploads = change_rows (λ u. u.id == id) (λ u. record (f u) { updated_at = now }) t.uploads;
  },
)

abbrev pub set_media : ℕ → (MediaTask → MediaTask) → ℕ → Tables → Unit {0} × Tables
set_media id f now t = (
  tt,
  record t {
    media_tasks =
        change_rows (λ m. m.id == id) (λ m. record (f m) { updated_at = now }) t.media_tasks;
  },
)

abbrev pub set_repaired : String → UploadTask → UploadTask
set_repaired key u = record u { status = UploadStatus.success; object_key = key; error_msg = "" }

abbrev pub done_media : MediaTask → MediaTask
done_media m = record m { status = MediaTaskStatus.success; error_msg = "" }

abbrev pub dead_media_row : MediaTask → MediaTask
dead_media_row m = record m { status = MediaTaskStatus.dead }

abbrev pub pending_media : MediaTask → MediaTask
pending_media m = record m { status = MediaTaskStatus.pending }

abbrev pub map_outcome : {A B : Type 0} → (A → B) → Outcome A → Outcome B
map_outcome f (done a) = done (f a)
map_outcome f (fails e) = fails e

-- an upload whose object is not there: back to its chunks, or given up
abbrev pub set_reset : UploadTask → UploadTask → UploadTask
set_reset upload u =
    if upload.uploaded_count == upload.chunk_count
    then record u { status = UploadStatus.uploading; error_msg = "reset for merge retry" }
    else record u { status = UploadStatus.failed; error_msg = "stale merge could not be repaired" }

abbrev pub repair_key : UploadTask → String
repair_key upload =
    if str_eq upload.object_key "" then final_object_key upload else upload.object_key

abbrev pub is_stale_upload : ℕ → UploadTask → Bool
is_stale_upload before u = is_merging u.status && ltb u.updated_at before

abbrev pub is_stale_media : ℕ → MediaTask → Bool
is_stale_media before m = is_stuck m.status && ltb m.updated_at before

module _ {S : ObjectStore} (c : Config) (sha256_hex : List ℕ → String) where
  -- `objectHash`, with the empty text where it fails
  unfoldable pub object_hash : String → Action (World S) String
  unfolding stored
  object_hash key = do
    bytes ← attempt (stored {S = S} (S.get_object key))
    pure (or_zero "" (map_outcome sha256_hex bytes))

  -- whether the object of an upload is there, whole
  unfoldable pub is_composed : UploadTask → Action (World S) Bool
  unfolding is_stored stored final_object_key object_hash
  is_composed upload = do
    there ← is_stored (repair_key upload)
    (if there
        then (do
          size ← attempt (stored {S = S} (S.stat_object (repair_key upload)))
          (if is_that (λ n. n == upload.file_size) size
              then (object_hash (repair_key upload) >>= λ hash. pure (str_eq hash upload.file_hash))
              else pure false))
        else pure false)

  unfoldable pub repair_upload : UploadTask → Counts → Action (World S) Counts
  unfolding is_composed change final_object_key
  repair_upload upload counts = do
    now ← reads (λ w. w.now)
    whole ← is_composed upload
    ignore (
        change (
          set_upload upload.id
            (if whole then set_repaired (repair_key upload) else set_reset upload) now))
    pure (record counts { repaired_uploads = counts.repaired_uploads + 1 })

  -- the three ends of a media task
  unfoldable pub retry_media : MediaTask → Counts → Action (World S) Counts
  unfolding is_stored change publish_media_task
  retry_media task counts = do
    now ← reads (λ w. w.now)
    there ← is_stored task.output_object_key
    (if there
        then (ignore (change (set_media task.id done_media now)) >> pure counts)
        else if leb task.max_retry task.retry_count
        then (ignore (change (set_media task.id dead_media_row now))
            >> ignore (publish_dead task.id)
            >> pure (record counts { dead_media = counts.dead_media + 1 }))
        else (ignore (change (set_media task.id pending_media now))
            >> ignore (publish_media_task task.id)
            >> pure (record counts { retried_media = counts.retried_media + 1 })))

  unfoldable pub publish_pending : MediaTask → Counts → Action (World S) Counts
  unfolding publish_media_task
  publish_pending task counts =
      ignore (publish_media_task task.id)
      >> pure (record counts { retried_media = counts.retried_media + 1 })

  unfoldable pub compensate : Action (World S) Counts
  unfolding find_rows repair_upload retry_media publish_pending
  compensate = do
    now ← reads (λ w. w.now)
    uploads ← find_rows (λ t. keep (is_stale_upload (now - c.processing_timeout)) t.uploads)
    repaired ←
        fold_each uploads repair_upload
          (record { repaired_uploads = 0; retried_media = 0; dead_media = 0 })
    stuck ← find_rows (λ t. keep (is_stale_media (now - c.processing_timeout)) t.media_tasks)
    retried ← fold_each stuck retry_media repaired
    pending ← find_rows (λ t. keep (λ m. is_pending m.status) t.media_tasks)
    fold_each pending publish_pending retried
