-- ===== src/Card.antt =====
-- components/UploadTaskCard.tsx, components/ChunkDrawer.tsx and `statusText` of components/FileList.tsx:
-- the labels of statuses, the flags of a card, and the buttons that it shows.
use cloud_file.Base.{Bool, true, false, not, String, List, [], ◌∷◌, ◌++◌, if◌then◌else◌}
use cloud_file.Types.{
  UploadStatus, idle, hashing, instant_success, uploading, paused, offline, merging, success,
  media_processing, media_success, failed, canceled, ChunkStatus,
}

unfoldable pub status_label : UploadStatus → String
status_label idle = "等待上传"
status_label hashing = "计算 Hash 中"
status_label instant_success = "秒传成功"
status_label uploading = "上传中"
status_label paused = "已暂停"
status_label offline = "网络已断开"
status_label merging = "合并中"
status_label success = "上传完成"
status_label media_processing = "媒体处理中"
status_label media_success = "处理完成"
status_label failed = "失败"
status_label canceled = "已取消"

-- the value of a status, as the source spells it
unfoldable pub status_value : UploadStatus → String
status_value idle = "IDLE"
status_value hashing = "HASHING"
status_value instant_success = "INSTANT_SUCCESS"
status_value uploading = "UPLOADING"
status_value paused = "PAUSED"
status_value offline = "OFFLINE"
status_value merging = "MERGING"
status_value success = "SUCCESS"
status_value media_processing = "MEDIA_PROCESSING"
status_value media_success = "MEDIA_SUCCESS"
status_value failed = "FAILED"
status_value canceled = "CANCELED"

-- `statusText` of the file list
unfoldable pub status_text : UploadStatus → String
unfolding status_value
status_text media_success = "处理完成"
status_text instant_success = "秒传成功"
status_text success = "上传完成"
status_text status = status_value status

-- `chunkLabel` of the drawer
unfoldable pub chunk_label : ChunkStatus → String
chunk_label ChunkStatus.uploaded = "已上传"
chunk_label ChunkStatus.uploading = "上传中"
chunk_label ChunkStatus.pending = "待上传"
chunk_label ChunkStatus.failed = "失败"

-- `active` of the card, and `activeStatuses` of App.tsx
unfoldable pub is_active : UploadStatus → Bool
is_active hashing = true
is_active uploading = true
is_active merging = true
is_active media_processing = true
is_active _ = false

unfoldable pub is_terminal : UploadStatus → Bool
is_terminal instant_success = true
is_terminal success = true
is_terminal media_success = true
is_terminal canceled = true
is_terminal _ = false

pub data Button : Type 0 where
  pause_button resume_button retry_button cancel_button view_button delete_button : Button

abbrev shown : Bool → Button → List Button
shown b button = if b then button ∷ [] else []

abbrev can_pause : UploadStatus → Bool
can_pause uploading = true
can_pause _ = false

abbrev can_resume : UploadStatus → Bool
can_resume paused = true
can_resume offline = true
can_resume _ = false

abbrev can_retry : UploadStatus → Bool
can_retry failed = true
can_retry _ = false

-- the buttons of a card, in their order
unfoldable pub buttons : UploadStatus → List Button
unfolding is_terminal
buttons status =
    shown (can_pause status) pause_button
    ++ (shown (can_resume status) resume_button
        ++ (shown (can_retry status) retry_button
            ++ (shown (not (is_terminal status)) cancel_button
                ++ view_button ∷ delete_button ∷ [])))
