-- ===== src/Server/Model.antt =====
-- backend/internal/model/models.go: the rows of the database. A row keeps `updated_at` and `created_at`
-- where the service reads them; the join `File` of a user's file and of a media task is looked up by id.
use cloud_file.Base.{ℕ, String, Option, Bool, true, false}

pub data UploadStatus : Type 0 where
  init uploading merging success failed canceled : UploadStatus

pub data ChunkStatus : Type 0 where
  pending uploaded failed : ChunkStatus

pub data FileStatus : Type 0 where
  success failed : FileStatus

pub data MediaTaskStatus : Type 0 where
  pending processing success failed dead : MediaTaskStatus

pub data MediaTaskType : Type 0 where
  image_compress video_transcode video_thumbnail media_metadata : MediaTaskType

pub record UploadTask : Type 0 where
  pub id : ℕ
  pub user_id : String
  pub file_name : String
  pub file_hash : String
  pub file_size : ℕ
  pub chunk_size : ℕ
  pub chunk_count : ℕ
  pub uploaded_count : ℕ
  pub content_type : String
  pub status : UploadStatus
  pub object_key : String
  pub error_msg : String
  pub updated_at : ℕ

pub record UploadChunk : Type 0 where
  pub upload_id : ℕ
  pub chunk_index : ℕ
  pub chunk_hash : String
  pub chunk_size : ℕ
  pub object_key : String
  pub status : ChunkStatus

pub record FileMeta : Type 0 where
  pub id : ℕ
  pub file_hash : String
  pub file_size : ℕ
  pub object_key : String
  pub content_type : String
  pub storage_bucket : String
  pub status : FileStatus

pub record UserFile : Type 0 where
  pub id : ℕ
  pub user_id : String
  pub file_id : ℕ
  pub file_name : String
  pub parent_id : Option ℕ
  pub created_at : ℕ

pub record MediaTask : Type 0 where
  pub id : ℕ
  pub file_id : ℕ
  pub task_type : MediaTaskType
  pub input_object_key : String
  pub output_object_key : String
  pub status : MediaTaskStatus
  pub retry_count : ℕ
  pub max_retry : ℕ
  pub error_msg : String
  pub updated_at : ℕ

-- the value of `var task model.UploadTask`, which a failed query leaves
abbrev pub no_upload : UploadTask
no_upload = record {
  id = 0;
  user_id = "";
  file_name = "";
  file_hash = "";
  file_size = 0;
  chunk_size = 0;
  chunk_count = 0;
  uploaded_count = 0;
  content_type = "";
  status = UploadStatus.init;
  object_key = "";
  error_msg = "";
  updated_at = 0;
}

abbrev pub no_meta : FileMeta
no_meta = record {
  id = 0;
  file_hash = "";
  file_size = 0;
  object_key = "";
  content_type = "";
  storage_bucket = "";
  status = FileStatus.failed;
}

-- `==` of two statuses
abbrev pub is_success : UploadStatus → Bool
is_success UploadStatus.success = true
is_success _ = false

abbrev pub is_uploading : UploadStatus → Bool
is_uploading UploadStatus.uploading = true
is_uploading _ = false

abbrev pub is_init : UploadStatus → Bool
is_init UploadStatus.init = true
is_init _ = false

abbrev pub is_merging : UploadStatus → Bool
is_merging UploadStatus.merging = true
is_merging _ = false

abbrev pub is_uploaded : ChunkStatus → Bool
is_uploaded ChunkStatus.uploaded = true
is_uploaded _ = false

abbrev pub is_available : FileStatus → Bool
is_available FileStatus.success = true
is_available _ = false
