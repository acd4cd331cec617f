-- ===== src/Server/Merge.antt =====
-- backend/internal/service/service.go: `MergeUpload`.
pub mod Rows
pub mod Whole
pub mod Found
pub mod Served
use text.Mathlib.Text.{starts_with}
use cloud_file.Base.{
  ℕ, suc, ◌+◌, ◌==◌, Bool, true, false, not, ◌&&◌, ◌||◌, String, List, [], ◌∷◌, ◌++◌, map, Option,
  none, some, str_eq, keep, find, length, if◌then◌else◌,
}
use cloud_file.Server.Model.{
  UploadStatus, FileStatus, MediaTaskStatus, MediaTaskType, UploadTask, UploadChunk, FileMeta,
  UserFile, MediaTask, no_upload, no_meta, is_success, is_uploading,
}
use cloud_file.Server.Action.{
  Failure, not_found, failure, Outcome, done, fails, Action, pure, raise, reads, attempt, after,
  ◌>>=◌, ◌>>◌, ignore, raise_if, for_each,
}
use cloud_file.Server.Storage.{ObjectStore}
use cloud_file.Server.World.{
  Config, Tables, World, find_rows, first_row, change, transaction, stored, acquire, release,
  publish_media_task, change_rows,
}
use cloud_file.Server.Keys.{final_object_key, temp_prefix, merge_lock_key, output_key}
use cloud_file.Server.Rows.{is_upload_of, uploaded_chunks, create_user_file, is_same_file}
use cloud_file.Server.Uploads.{upload_for_user}
use cloud_file.Server.Merge.Rows.{
  start_merge, fail_upload, finish_merge, create_meta, media_types, media_tasks_of,
  create_media_tasks,
}

-- `(task, meta, userFile, tasks)` of a merge that returns
pub record Merged : Type 0 where
  pub task : UploadTask
  pub meta : FileMeta
  pub user_file : Option UserFile
  pub media_tasks : List MediaTask

abbrev pub or_zero : {A : Type 0} → A → Outcome A → A
or_zero zero (done a) = a
or_zero zero (fails e) = zero

abbrev pub error_text : Failure → String
error_text not_found = "record not found"
error_text (failure e) = e

abbrev pub is_that : {A : Type 0} → (A → Bool) → Outcome A → Bool
is_that test (done a) = test a
is_that test (fails e) = false

module _ {S : ObjectStore} (c : Config) (sha256_hex : List ℕ → String) where
  -- `task, _ = s.uploadForUser(…)`
  unfoldable pub reload_upload : ℕ → String → Action (World S) UploadTask
  unfolding upload_for_user
  reload_upload upload_id user_id =
      attempt (upload_for_user upload_id user_id) >>= λ r. pure (or_zero no_upload r)

  -- `markUploadFailed`
  unfoldable pub mark_upload_failed : {A : Type 0} → UploadTask → Failure → Action (World S) A
  unfolding change
  mark_upload_failed task e = do
    now ← reads (λ w. w.now)
    ignore (change (fail_upload task.id (error_text e) now))
    raise e

  -- a call whose error fails the upload
  unfoldable pub passed : {A : Type 0} → UploadTask → Outcome A → Action (World S) A
  unfolding mark_upload_failed
  passed task (done a) = pure a
  passed task (fails e) = mark_upload_failed task e

  unfoldable pub or_failed : {A : Type 0} → UploadTask → Action (World S) A → Action (World S) A
  unfolding passed
  or_failed task m = attempt m >>= passed task

  -- a test that fails the upload, also where what it tests is not there
  unfoldable pub fail_unless : UploadTask → Failure → Bool → Action (World S) (Unit {0})
  unfolding mark_upload_failed
  fail_unless task e b = if b then pure tt else mark_upload_failed task e

  -- the composed object: composed, measured and hashed
  unfoldable pub compose_parts : UploadTask → List String → Action (World S) (Unit {0})
  unfolding stored or_failed fail_unless
  compose_parts task keys = do
    or_failed task (stored {S = S} (S.compose_object (final_object_key task) keys))
    size ← attempt (stored {S = S} (S.stat_object (final_object_key task)))
    fail_unless task (failure "merged file size mismatch") (is_that (λ n. n == task.file_size) size)
    bytes ← attempt (stored {S = S} (S.get_object (final_object_key task)))
    fail_unless task (failure "merged file hash mismatch")
        (is_that (λ b. str_eq (sha256_hex b) task.file_hash) bytes)

  -- the file of that hash and size, which may be there already
  unfoldable pub known_meta : UploadTask → Outcome FileMeta → Action (World S) FileMeta
  unfolding change mark_upload_failed or_failed
  known_meta task (done meta) = pure meta
  known_meta task (fails not_found) =
      or_failed task (change (create_meta task (final_object_key task) S.bucket))
  known_meta task (fails (failure e)) = mark_upload_failed task (failure e)

  unfoldable pub merged_meta : UploadTask → Action (World S) FileMeta
  unfolding first_row known_meta
  merged_meta task = do
    known ← attempt (first_row (λ t. find (is_same_file task.file_hash task.file_size) t.metas))
    known_meta task known

  -- the media tasks of a file, if there are any to create
  unfoldable pub create_tasks :
      FileMeta → ℕ → List MediaTaskType → Action (World S) (List MediaTask)
  unfolding change media_tasks_of
  create_tasks meta now [] = pure []
  create_tasks meta now (task_type ∷ types) =
      change (create_media_tasks meta c.max_media_retry now (task_type ∷ types))

  -- the transaction that ends a merge
  unfoldable pub record_merge :
      UploadTask → String → FileMeta → ℕ → Action (World S) (UserFile × List MediaTask)
  unfolding change create_tasks
  record_merge task user_id meta now = do
    user_file ← change (create_user_file user_id meta.id task.file_name none now)
    media_tasks ← create_tasks meta now (media_types meta.content_type)
    change (finish_merge task.id (final_object_key task) now)
    pure (user_file, media_tasks)

  -- the merge once its object and its file are there
  unfoldable pub finish_merged : ℕ → String → ℕ → UploadTask → FileMeta → Action (World S) Merged
  unfolding reload_upload or_failed record_merge transaction stored publish_media_task temp_prefix
  finish_merged upload_id user_id now task meta = do
    created ← or_failed task (transaction (record_merge task user_id meta now))
    ignore (stored {S = S} (S.remove_prefix (temp_prefix upload_id)))
    for_each created.1 (λ m. ignore (publish_media_task m.id))
    latest ← reload_upload upload_id user_id
    pure
        (record { task = latest; meta = meta; user_file = some created.0; media_tasks = created.1 })

  -- what the holder of the lock does
  unfoldable pub merge_locked : ℕ → String → Action (World S) Merged
  unfolding change reload_upload or_failed fail_unless find_rows uploaded_chunks compose_parts
      merged_meta finish_merged
  merge_locked upload_id user_id = do
    now ← reads (λ w. w.now)
    started ← change (start_merge upload_id user_id now)
    raise_if (not (started == 1)) (failure "upload cannot be merged")
    task ← reload_upload upload_id user_id
    rows ← or_failed task (find_rows (uploaded_chunks upload_id))
    fail_unless task (failure "uploaded chunk count mismatch") (length rows == task.chunk_count)
    compose_parts task (map (λ r. r.object_key) rows)
    meta ← merged_meta task
    finish_merged upload_id user_id now task meta

  -- `defer s.locker.Release(…)`
  abbrev pub then_release : {A : Type 0} → String → String → Action (World S) A → Action (World S) A
  then_release key value m w = let (r, w') = m w in (r, (release key value w').1)

  -- a merge that was done before
  unfoldable pub merged_before : UploadTask → Action (World S) Merged
  unfolding first_row
  merged_before task = do
    known ← attempt (first_row (λ t. find (λ m. str_eq m.object_key task.object_key) t.metas))
    pure (record { task = task; meta = or_zero no_meta known; user_file = none; media_tasks = [] })

  -- what the request does with the lock, or without it
  unfoldable pub merge_held : ℕ → String → Option String → Action (World S) Merged
  unfolding release merge_locked
  merge_held upload_id user_id none = raise (failure "merge is already running")
  merge_held upload_id user_id (some value) =
      then_release (merge_lock_key upload_id) value (merge_locked upload_id user_id)

  unfoldable pub merge_upload : ℕ → String → Action (World S) Merged
  unfolding upload_for_user merged_before acquire merge_held
  merge_upload upload_id user_id = do
    task ← upload_for_user upload_id user_id
    (if is_success task.status
        then merged_before task
        else (acquire c (merge_lock_key upload_id) >>= merge_held upload_id user_id))
