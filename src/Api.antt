-- ===== src/Api.antt =====
-- frontend/src/mockApi.ts: the calls of the backend. For each call: the request that it sends, and
-- what it returns for the reply.
pub mod Slices
pub mod Hash
use Prim.Native.String.{◌++◌ as str_append}
use cloud_file.Base.{
  ℕ, ◌+◌, ◌-◌, ◌*◌, ◌/◌, min, max, Bool, String, List, [], ◌∷◌, map, Option, none, some, str_eq,
  ltb, if◌then◌else◌, take, drop,
}
use cloud_file.Text.{decimal, to_hex, pad_start}
use cloud_file.Wire.{
  Platform, Result, ok, throws, error, or_text, Reply, request, get, post, delete, no_body, json,
  form, Request, InitReply, ListedFile,
}
use cloud_file.Types.{
  File, file_size, UploadTask, FileItem, InitUploadResult, UploadStatus, success, failed,
}

infixr 66 ◌&◌
abbrev ◌&◌ : String → String → String
s & t = str_append s t

abbrev pub user_id : String
user_id = "user_10001"

abbrev pub chunk_size : ℕ
chunk_size = 10 * 1024 * 1024

-- `Math.max(1, Math.ceil(size / CHUNK_SIZE))`, for any positive chunk size
unfoldable pub chunk_count_of : ℕ → ℕ → ℕ
chunk_count_of chunk size = max 1 ((size + chunk - 1) / chunk)

-- `file.slice(start, end)` of `uploadChunk`, for any chunk size
unfoldable pub slice_of : ℕ → ℕ → List ℕ → ℕ → List ℕ
slice_of chunk size bytes index =
    let start = index * chunk in
    let end = min (start + chunk) size in take (end - start) (drop start bytes)

abbrev concat_texts : List String → String
concat_texts [] = ""
concat_texts (s ∷ ss) = s & concat_texts ss

-- the `map` and `join` of `calculateFileHash`
unfoldable pub hex_text : List ℕ → String
unfolding to_hex pad_start
hex_text digest = concat_texts (map (λ byte. pad_start (to_hex byte)) digest)

-- `file.type || "application/octet-stream"`
unfoldable pub content_type_of : String → String
content_type_of t = if str_eq t "" then "application/octet-stream" else t

-- `upload_id == null ? undefined : String(upload_id)`
abbrev id_text : Option ℕ → Option String
id_text none = none
id_text (some n) = some (decimal n)

abbrev or_empty : Option (List ℕ) → List ℕ
or_empty none = []
or_empty (some xs) = xs

-- what `initUpload` makes of its reply
unfoldable pub init_upload : Reply InitReply → Result InitUploadResult
unfolding request
init_upload reply = elim (request reply) [
  | throws e ↦ throws e
  | ok result ↦ ok (record {
    instant = result.instant;
    upload_id = id_text result.upload_id;
    uploaded_chunks = or_empty result.uploaded_chunks;
    chunk_size = result.chunk_size;
    chunk_count = result.chunk_count;
    file_id = id_text result.file_id;
  })
]

-- `if (!task.uploadId)`: the text is missing or empty
abbrev pub given_id : Option String → Option String
given_id none = none
given_id (some s) = if str_eq s "" then none else some s

abbrev needs_id {ℓ} : {A : Type ℓ} → Option String → Result A → Result A
needs_id none r = throws (error "upload id is missing")
needs_id (some id) r = r

-- `uploadChunk`, `mergeChunks`: without an upload id they throw and send nothing
unfoldable pub upload_chunk : UploadTask → Reply (Unit {0}) → Result (Unit {0})
unfolding request
upload_chunk task reply = needs_id (given_id task.upload_id) (request reply)

unfoldable pub merge_chunks : UploadTask → Reply (Unit {0}) → Result (Unit {0})
unfolding request
merge_chunks task reply = needs_id (given_id task.upload_id) (request reply)

abbrev listed_indexes : Result (Option (List ℕ)) → Result (List ℕ)
listed_indexes (ok chunks) = ok (or_empty chunks)
listed_indexes (throws e) = throws e

-- `queryUploadStatus`: without an upload id the answer is `[]`, with no request
unfoldable pub query_upload_status : UploadTask → Reply (Option (List ℕ)) → Result (List ℕ)
unfolding request
query_upload_status task reply = elim (given_id task.upload_id) [
  | none ↦ ok []
  | some id ↦ listed_indexes (request reply)
]

unfoldable pub delete_user_file_ref : Reply (Unit {0}) → Result (Unit {0})
unfolding request
delete_user_file_ref reply = request reply

-- `recoverUnfinishedTasks`
abbrev pub recover_unfinished_tasks : ℕ
recover_unfinished_tasks = 0

module _ (p : Platform) where
  open p use {vite_api_base, encode_uri_component, sha256}

  unfoldable pub api_base : String
  api_base = or_text vite_api_base "http://127.0.0.1:8000"

  abbrev user_query : String
  user_query = "?user_id=" & encode_uri_component user_id

  unfoldable pub calculate_file_hash : File → String
  unfolding hex_text
  calculate_file_hash file = hex_text (sha256 file.bytes)

  pub init_upload_request : File → String → Request
  unfolding api_base chunk_count_of content_type_of
  init_upload_request file hash = record {
    url = api_base & "/api/uploads/init";
    method = post;
    body = json (record {
      user_id = user_id;
      file_name = file.name;
      file_hash = hash;
      file_size = file_size file;
      chunk_size = chunk_size;
      chunk_count = chunk_count_of chunk_size (file_size file);
      content_type = content_type_of file.file_type;
    });
  }

  abbrev upload_url : String → String → String
  upload_url id rest = api_base & "/api/uploads/" & id & rest

  unfoldable pub upload_chunk_request : UploadTask → ℕ → Option Request
  unfolding api_base slice_of
  upload_chunk_request task index = elim (given_id task.upload_id) [
    | none ↦ none
    | some id ↦ some (record {
      url = upload_url id ("/chunks/" & decimal index);
      method = post;
      body =
          form user_id (slice_of chunk_size (file_size task.file) task.file.bytes index)
            task.file_name;
    })
  ]

  unfoldable pub query_upload_status_request : UploadTask → Option Request
  unfolding api_base
  query_upload_status_request task = elim (given_id task.upload_id) [
    | none ↦ none
    | some id ↦
        some (record { url = upload_url id ("/status" & user_query); method = get; body = no_body })
  ]

  unfoldable pub merge_chunks_request : UploadTask → Option Request
  unfolding api_base
  merge_chunks_request task = elim (given_id task.upload_id) [
    | none ↦ none
    | some id ↦
        some (record { url = upload_url id ("/merge" & user_query); method = post; body = no_body })
  ]

  unfoldable pub delete_request : String → Request
  unfolding api_base
  delete_request file_id = record {
    url = api_base & "/api/files/" & file_id & user_query;
    method = delete;
    body = no_body;
  }

  unfoldable pub list_files_request : Request
  unfolding api_base
  list_files_request = record {
    url = api_base & "/api/files" & user_query;
    method = get;
    body = no_body;
  }

  -- the `map` of `listFiles`
  unfoldable pub file_item : ListedFile → FileItem
  unfolding api_base content_type_of
  file_item item = record {
    id = decimal item.id;
    name = item.file_name;
    file_type = content_type_of item.content_type;
    size = item.file_size;
    status = if item.is_success then success else failed;
    uploaded_at = item.created_at;
    link = api_base & "/api/files/" & decimal item.id & "/download" & user_query;
    task_id = "file-" & decimal item.id;
  }

  unfoldable pub list_files : Reply (List ListedFile) → Result (List FileItem)
  unfolding request
  list_files reply = elim (request reply) [
    | throws e ↦ throws e
    | ok files ↦ ok (map file_item files)
  ]
