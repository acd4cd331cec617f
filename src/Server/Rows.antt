-- ===== src/Server/Rows.antt =====
-- backend/internal/service/service.go: the queries and changes of rows of `InitUpload`, `UploadStatus` and
-- `UploadChunk`.
use cloud_file.Base.{
  ℕ, ◌+◌, ◌==◌, Bool, ◌&&◌, String, List, [], ◌∷◌, ◌++◌, Option, none, some, str_eq, ltb, leb, keep,
  any, if◌then◌else◌,
}
use cloud_file.Server.Model.{
  UploadStatus, ChunkStatus, UploadTask, UploadChunk, FileMeta, UserFile, is_uploaded,
}
use cloud_file.Server.Action.{failure, Outcome, done, fails}
use cloud_file.Server.World.{Tables, change_rows}
use cloud_file.Server.Keys.{part_key}
use cloud_file.Base.Int.{ℤ, pos, negsuc}

-- the JSON body of `InitUpload`
pub record InitRequest : Type 0 where
  pub user_id : String
  pub file_name : String
  pub file_hash : String
  pub file_size : ℕ
  pub chunk_size : ℕ
  pub chunk_count : ℕ
  pub content_type : String
  pub parent_id : Option ℕ

-- the answer of `InitUpload`, without the fields that repeat the request or never change
pub data InitAnswer : Type 0 where
  instant : ℕ → ℕ → InitAnswer
  to_upload : ℕ → InitAnswer

abbrev pub is_upload_of : ℕ → String → UploadTask → Bool
is_upload_of upload_id user_id t = t.id == upload_id && str_eq t.user_id user_id

abbrev pub is_chunk_of : ℕ → ℕ → UploadChunk → Bool
is_chunk_of upload_id index r = r.upload_id == upload_id && r.chunk_index == index

abbrev pub is_uploaded_of : ℕ → UploadChunk → Bool
is_uploaded_of upload_id r = r.upload_id == upload_id && is_uploaded r.status

-- `ORDER BY chunk_index ASC`
unfoldable pub insert_chunk : UploadChunk → List UploadChunk → List UploadChunk
insert_chunk r [] = r ∷ []
insert_chunk r (s ∷ rows) =
    let rest = insert_chunk r rows in
    if leb r.chunk_index s.chunk_index then r ∷ s ∷ rows else s ∷ rest

unfoldable pub sort_chunks : List UploadChunk → List UploadChunk
unfolding insert_chunk
sort_chunks [] = []
sort_chunks (r ∷ rows) = insert_chunk r (sort_chunks rows)

-- the uploaded chunks of an upload, in their order
unfoldable pub uploaded_chunks : ℕ → Tables → List UploadChunk
unfolding sort_chunks
uploaded_chunks upload_id t = sort_chunks (keep (is_uploaded_of upload_id) t.chunks)

-- the new rows of `InitUpload`
abbrev pub new_upload : InitRequest → ℕ → ℕ → UploadTask
new_upload req id now = record {
  id = id;
  user_id = req.user_id;
  file_name = req.file_name;
  file_hash = req.file_hash;
  file_size = req.file_size;
  chunk_size = req.chunk_size;
  chunk_count = req.chunk_count;
  uploaded_count = 0;
  content_type = req.content_type;
  status = UploadStatus.uploading;
  object_key = "";
  error_msg = "";
  updated_at = now;
}

abbrev pub create_upload : InitRequest → ℕ → Tables → ℕ × Tables
create_upload req now t = (
  t.next_id,
  record t { uploads = t.uploads ++ new_upload req t.next_id now ∷ []; next_id = t.next_id + 1 },
)

abbrev pub create_user_file : String → ℕ → String → Option ℕ → ℕ → Tables → UserFile × Tables
create_user_file user_id file_id file_name parent_id now t =
    let row : UserFile = record {
      id = t.next_id;
      user_id = user_id;
      file_id = file_id;
      file_name = file_name;
      parent_id = parent_id;
      created_at = now;
    } in
    (row, record t { user_files = t.user_files ++ row ∷ []; next_id = t.next_id + 1 })

abbrev pub is_same_file : String → ℕ → FileMeta → Bool
is_same_file hash size m = str_eq m.file_hash hash && m.file_size == size

-- the chunk's row, where it is created and where one that is not uploaded is saved over
abbrev pub new_chunk : ℕ → ℕ → String → ℕ → UploadChunk
new_chunk upload_id index hash size = record {
  upload_id = upload_id;
  chunk_index = index;
  chunk_hash = hash;
  chunk_size = size;
  object_key = part_key upload_id index;
  status = ChunkStatus.uploaded;
}

-- `tx.Create(&chunk)`, which the unique index on upload and chunk index may refuse
abbrev pub create_chunk : UploadChunk → Tables → Outcome (Unit {0}) × Tables
create_chunk row t =
    if any (is_chunk_of row.upload_id row.chunk_index) t.chunks
    then (fails (failure "duplicate key"), t)
    else (done tt, record t { chunks = t.chunks ++ row ∷ [] })

abbrev pub save_chunk : UploadChunk → Tables → Unit {0} × Tables
save_chunk row t = (
  tt,
  record t { chunks = change_rows (is_chunk_of row.upload_id row.chunk_index) (λ _. row) t.chunks },
)

-- `uploaded_count + 1`
abbrev pub counted_one : ℕ → UploadTask → UploadTask
counted_one now u = record u {
  uploaded_count = u.uploaded_count + 1;
  status = UploadStatus.uploading;
  updated_at = now;
}

abbrev pub count_chunk : ℕ → ℕ → Tables → Unit {0} × Tables
count_chunk upload_id now t =
    (tt, record t { uploads = change_rows (λ u. u.id == upload_id) (counted_one now) t.uploads })

abbrev pub status_text : UploadStatus → String
status_text UploadStatus.init = "INIT"
status_text UploadStatus.uploading = "UPLOADING"
status_text UploadStatus.merging = "MERGING"
status_text UploadStatus.success = "SUCCESS"
status_text UploadStatus.failed = "FAILED"
status_text UploadStatus.canceled = "CANCELED"

-- the index, unless it is negative or `chunk_count` or more
abbrev pub in_range : ℤ → ℕ → Option ℕ
in_range (negsuc n) count = none
in_range (pos n) count = if ltb n count then some n else none
