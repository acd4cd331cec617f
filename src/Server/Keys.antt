-- ===== src/Server/Keys.antt =====
-- backend/internal/service/service.go: the keys of objects.
pub mod Apart
use Prim.Native.String.{◌++◌ as str_append}
use cloud_file.Base.{ℕ, String}
use cloud_file.Text.{decimal}
use cloud_file.Server.FileName.{safe_file_name}
use cloud_file.Server.Model.{
  UploadTask, MediaTaskType, image_compress, video_transcode, video_thumbnail, media_metadata,
}

-- `temp/%d` and `temp/%d/%d.part`
unfoldable pub temp_prefix : ℕ → String
unfolding decimal
temp_prefix upload_id = str_append "temp/" (decimal upload_id)

unfoldable pub part_key : ℕ → ℕ → String
unfolding temp_prefix decimal
part_key upload_id index =
    str_append (temp_prefix upload_id) (str_append "/" (str_append (decimal index) ".part"))

-- `finalObjectKey`
unfoldable pub final_object_key : UploadTask → String
unfolding safe_file_name
final_object_key task =
    str_append "files/" (str_append task.file_hash (str_append "/" (safe_file_name task.file_name)))

-- `strings.ToLower(string(taskType))`
abbrev type_name : MediaTaskType → String
type_name image_compress = "image_compress"
type_name video_transcode = "video_transcode"
type_name video_thumbnail = "video_thumbnail"
type_name media_metadata = "media_metadata"

unfoldable pub output_key : ℕ → MediaTaskType → String
unfolding decimal
output_key file_id task_type =
    str_append "processed/" (str_append (decimal file_id) (str_append "/" (type_name task_type)))

abbrev pub merge_lock_key : ℕ → String
merge_lock_key upload_id = str_append "merge_lock:" (decimal upload_id)
