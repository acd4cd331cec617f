-- ===== src/Types.antt =====
-- frontend/src/types.ts: the data of the upload console. A browser `File` is the record of the
-- three things that the source reads of it: its name, its type and its bytes (`size` is their number).
use cloud_file.Base.{ℕ, Bool, String, List, Option, length}
use cloud_file.Ratio.{Ratio}

pub data UploadKind : Type 0 where
  general image video archive batch instant resume : UploadKind

pub data UploadStatus : Type 0 where
  idle hashing instant_success uploading paused offline : UploadStatus
  merging success media_processing media_success failed canceled : UploadStatus

pub UploadStatus-discrete : Discrete UploadStatus
UploadStatus-discrete = hlevel

pub data ChunkStatus : Type 0 where
  uploaded uploading pending failed : ChunkStatus

pub record UploadAction : Type 0 where
  pub kind : UploadKind
  pub label : String
  pub hint : String
  pub accept : Option String

pub record Chunk : Type 0 where
  pub index : ℕ
  pub status : ChunkStatus

pub record File : Type 0 where
  pub name : String
  pub file_type : String
  pub bytes : List ℕ

abbrev pub file_size : File → ℕ
file_size f = length f.bytes

pub record UploadTask : Type 0 where
  pub id : String
  pub upload_id : Option String
  pub file : File
  pub file_name : String
  pub file_type : String
  pub size : ℕ
  pub hash : Option String
  pub kind : UploadKind
  pub status : UploadStatus
  pub progress : Ratio
  pub uploaded_chunks : ℕ
  pub chunk_count : ℕ
  pub chunks : List Chunk
  pub speed : Ratio
  pub remaining_seconds : Ratio
  pub message : String
  pub created_at : ℕ
  pub link : Option String
  pub media_text : Option String

pub record FileItem : Type 0 where
  pub id : String
  pub name : String
  pub file_type : String
  pub size : ℕ
  pub status : UploadStatus
  pub uploaded_at : ℕ
  pub link : String
  pub task_id : String

pub record InitUploadResult : Type 0 where
  pub instant : Bool
  pub upload_id : Option String
  pub uploaded_chunks : List ℕ
  pub chunk_size : ℕ
  pub chunk_count : ℕ
  pub file_id : Option String

pub record UploadStats : Type 0 where
  pub today_uploads : ℕ
  pub success_rate : ℕ
  pub instant_hits : ℕ
  pub uploading_tasks : ℕ
  pub media_processing_tasks : ℕ
  pub failed_tasks : ℕ
