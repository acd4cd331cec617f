-- ===== src/Server/Uploads.antt =====
-- backend/internal/service/service.go: `InitUpload`, `UploadStatus`, `UploadChunk`.
use Prim.Native.String.{◌++◌ as str_append}
use cloud_file.Base.{
  ℕ, suc, ◌==◌, Bool, true, false, not, ◌&&◌, ◌||◌, String, List, map, Option, none, some, str_eq,
  ltb, find, length, if◌then◌else◌,
}
use cloud_file.Server.Model.{
  UploadTask, UploadChunk, FileMeta, is_success, is_uploading, is_init, is_uploaded, is_available,
}
use cloud_file.Server.Action.{
  not_found, failure, Outcome, done, fails, Action, pure, raise, lift, reads, attempt, ◌>>=◌, ◌>>◌,
  raise_if,
}
use cloud_file.Server.Storage.{ObjectStore}
use cloud_file.Server.World.{World, find_rows, first_row, change, statement, transaction, stored}
use cloud_file.Server.Keys.{part_key}
use cloud_file.Base.Int.{ℤ}
use cloud_file.Server.Rows.{
  InitRequest, InitAnswer, is_upload_of, is_chunk_of, uploaded_chunks, create_upload,
  create_user_file, new_chunk, create_chunk, save_chunk, count_chunk, status_text, in_range,
  is_same_file, instant, to_upload,
}

module _ {S : ObjectStore} where
  unfoldable pub upload_for_user : ℕ → String → Action (World S) UploadTask
  unfolding first_row
  upload_for_user upload_id user_id =
      first_row (λ t. find (is_upload_of upload_id user_id) t.uploads)

  -- `InitUpload`, by what the query for the file says
  unfoldable pub init_known : InitRequest → ℕ → Outcome FileMeta → Action (World S) InitAnswer
  unfolding change
  init_known req now (done meta) = do
    row ← change (create_user_file req.user_id meta.id req.file_name req.parent_id now)
    pure (instant meta.id row.id)
  init_known req now (fails not_found) = do id ← change (create_upload req now); pure (to_upload id)
  init_known req now (fails (failure e)) = raise (failure e)

  unfoldable pub init_upload : InitRequest → Action (World S) InitAnswer
  unfolding first_row init_known
  init_upload req = do
    now ← reads (λ w. w.now)
    known ← attempt (
        first_row (λ t.
          find (λ m. is_same_file req.file_hash req.file_size m && is_available m.status) t.metas))
    init_known req now known

  -- `UploadStatus`, of which the indexes are read
  unfoldable pub upload_status : ℕ → String → Action (World S) (List ℕ)
  unfolding upload_for_user find_rows uploaded_chunks
  upload_status upload_id user_id = do
    task ← upload_for_user upload_id user_id
    rows ← find_rows (uploaded_chunks upload_id)
    pure (map (λ r. r.chunk_index) rows)

  -- the transaction of `UploadChunk`, by what its query for the chunk says
  unfoldable pub record_known : UploadChunk → ℕ → Outcome UploadChunk → Action (World S) (Unit {0})
  unfolding change statement
  record_known row now (done old) =
      if is_uploaded old.status
      then pure tt
      else change (save_chunk row) >> change (count_chunk row.upload_id now)
  record_known row now (fails not_found) =
      statement (create_chunk row) >> change (count_chunk row.upload_id now)
  record_known row now (fails (failure e)) = raise (failure e)

  unfoldable pub record_chunk : UploadChunk → ℕ → Action (World S) (Unit {0})
  unfolding first_row record_known
  record_chunk row now = do
    known ← attempt (first_row (λ t. find (is_chunk_of row.upload_id row.chunk_index) t.chunks))
    record_known row now known

  -- `UploadChunk` from the reading of the file on, for an index in range
  unfoldable pub receive_chunk :
      (List ℕ → String)
      → UploadTask
      → String
      → ℕ
      → String
      → Outcome (List ℕ)
      → Action (World S) (UploadTask × Bool)
  unfolding upload_for_user record_chunk transaction stored part_key
  receive_chunk sha256_hex task user_id index chunk_hash file = do
    bytes ← lift file
    raise_if (length bytes == 0) (failure "empty chunk")
    raise_if
        (ltb task.chunk_size (length bytes)
          || (not (suc index == task.chunk_count) && not (length bytes == task.chunk_size)))
        (failure "invalid chunk size")
    raise_if (not (str_eq chunk_hash "") && not (str_eq (sha256_hex bytes) chunk_hash))
        (failure "chunk_hash mismatch")
    stored {S = S} (S.put_object (part_key task.id index) bytes)
    now ← reads (λ w. w.now)
    transaction (record_chunk (new_chunk task.id index chunk_hash (length bytes)) now)
    latest ← upload_for_user task.id user_id
    pure (latest, false)

  -- `UploadChunk`, by what its first query for the chunk says
  unfoldable pub admit_known :
      (List ℕ → String)
      → UploadTask
      → String
      → ℕ
      → String
      → Outcome (List ℕ)
      → Outcome UploadChunk
      → Action (World S) (UploadTask × Bool)
  unfolding receive_chunk
  admit_known sha256_hex task user_id index chunk_hash file (done old) =
      if is_uploaded old.status
      then pure (task, true)
      else receive_chunk sha256_hex task user_id index chunk_hash file
  admit_known sha256_hex task user_id index chunk_hash file (fails not_found) =
      receive_chunk sha256_hex task user_id index chunk_hash file
  admit_known sha256_hex task user_id index chunk_hash file (fails (failure e)) = raise (failure e)

  -- `UploadChunk` from the test of the index on
  unfoldable pub admit_index :
      (List ℕ → String)
      → UploadTask
      → String
      → Option ℕ
      → String
      → Outcome (List ℕ)
      → Action (World S) (UploadTask × Bool)
  unfolding first_row admit_known
  admit_index sha256_hex task user_id none chunk_hash file =
      raise (failure "chunk_index out of range")
  admit_index sha256_hex task user_id (some index) chunk_hash file = do
    known ← attempt (first_row (λ t. find (is_chunk_of task.id index) t.chunks))
    admit_known sha256_hex task user_id index chunk_hash file known

  -- `UploadChunk` once the task is known
  unfoldable pub admit_chunk :
      (List ℕ → String)
      → UploadTask
      → String
      → ℤ
      → String
      → Outcome (List ℕ)
      → Action (World S) (UploadTask × Bool)
  unfolding admit_index
  admit_chunk sha256_hex task user_id chunk_index chunk_hash file =
      if is_success task.status
      then pure (task, true)
      else if not (is_uploading task.status) && not (is_init task.status)
      then raise (failure (str_append "upload status is " (status_text task.status)))
      else admit_index sha256_hex task user_id (in_range chunk_index task.chunk_count) chunk_hash
          file

  -- `UploadChunk`. The file is what `header.Open` and `io.ReadAll` gave.
  unfoldable pub upload_chunk :
      (List ℕ → String)
      → ℕ
      → String
      → ℤ
      → String
      → Outcome (List ℕ)
      → Action (World S) (UploadTask × Bool)
  unfolding upload_for_user admit_chunk
  upload_chunk sha256_hex upload_id user_id chunk_index chunk_hash file = do
    task ← upload_for_user upload_id user_id
    admit_chunk sha256_hex task user_id chunk_index chunk_hash file
