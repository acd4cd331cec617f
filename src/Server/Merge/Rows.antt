-- ===== src/Server/Merge/Rows.antt =====
-- backend/internal/service/service.go: the changes of rows of `MergeUpload`, and `createMediaTasks`.
use text.Mathlib.Text.{starts_with}
use cloud_file.Base.{
  ℕ, ◌+◌, ◌==◌, Bool, ◌&&◌, String, List, [], ◌∷◌, ◌++◌, str_eq, keep, length, if◌then◌else◌,
}
use cloud_file.Server.Model.{
  UploadStatus, FileStatus, MediaTaskStatus, MediaTaskType, UploadTask, FileMeta, MediaTask,
  is_uploading,
}
use cloud_file.Server.World.{Tables, change_rows}
use cloud_file.Server.Keys.{output_key}

-- the update that lets one request merge, with the number of rows that it found
abbrev pub can_merge : ℕ → String → UploadTask → Bool
can_merge upload_id user_id u =
    u.id == upload_id
    && str_eq u.user_id user_id
    && is_uploading u.status
    && u.uploaded_count == u.chunk_count

abbrev pub start_merge : ℕ → String → ℕ → Tables → ℕ × Tables
start_merge upload_id user_id now t = (
  length (keep (can_merge upload_id user_id) t.uploads),
  record t {
    uploads =
        change_rows (can_merge upload_id user_id)
          (λ u. record u { status = UploadStatus.merging; updated_at = now }) t.uploads;
  },
)

abbrev pub fail_upload : ℕ → String → ℕ → Tables → Unit {0} × Tables
fail_upload id e now t = (
  tt,
  record t {
    uploads =
        change_rows (λ u. u.id == id)
          (λ u. record u { status = UploadStatus.failed; error_msg = e; updated_at = now })
          t.uploads;
  },
)

abbrev pub finish_merge : ℕ → String → ℕ → Tables → Unit {0} × Tables
finish_merge id key now t = (
  tt,
  record t {
    uploads =
        change_rows (λ u. u.id == id)
          (λ u. record u { status = UploadStatus.success; object_key = key; updated_at = now })
          t.uploads;
  },
)

abbrev pub create_meta : UploadTask → String → String → Tables → FileMeta × Tables
create_meta task key bucket t =
    let row : FileMeta = record {
      id = t.next_id;
      file_hash = task.file_hash;
      file_size = task.file_size;
      object_key = key;
      content_type = task.content_type;
      storage_bucket = bucket;
      status = FileStatus.success;
    } in
    (row, record t { metas = t.metas ++ row ∷ []; next_id = t.next_id + 1 })

-- `createMediaTasks`; the ids are given when the rows are created
abbrev pub media_types : String → List MediaTaskType
media_types content_type =
    if starts_with content_type "image/"
    then MediaTaskType.image_compress ∷ MediaTaskType.media_metadata ∷ []
    else if starts_with content_type "video/"
    then MediaTaskType.video_transcode ∷ MediaTaskType.video_thumbnail
      ∷ MediaTaskType.media_metadata ∷ []
    else []

unfoldable pub media_tasks_of : FileMeta → ℕ → ℕ → ℕ → List MediaTaskType → List MediaTask
unfolding output_key
media_tasks_of meta max_retry id now [] = []
media_tasks_of meta max_retry id now (task_type ∷ types) =
    record {
      id = id;
      file_id = meta.id;
      task_type = task_type;
      input_object_key = meta.object_key;
      output_object_key = output_key meta.id task_type;
      status = MediaTaskStatus.pending;
      retry_count = 0;
      max_retry = max_retry;
      error_msg = "";
      updated_at = now;
    }
    ∷ media_tasks_of meta max_retry (id + 1) now types

abbrev pub create_media_tasks :
    FileMeta → ℕ → ℕ → List MediaTaskType → Tables → List MediaTask × Tables
create_media_tasks meta max_retry now types t =
    let rows = media_tasks_of meta max_retry t.next_id now types in
    (rows, record t { media_tasks = t.media_tasks ++ rows; next_id = t.next_id + length rows })
