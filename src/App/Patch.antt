-- ===== src/App/Patch.antt =====
-- frontend/src/App.tsx, what the buttons make of one task, and all patches of `updateTask` together.
use cloud_file.Base.{ℕ, Bool, String, str_eq, List, map, Option, if◌then◌else◌, ◌==◌, any, length}
use cloud_file.Ratio.{Ratio, whole, max_ratio, progress_of}
use cloud_file.Types.{
  uploading, paused, offline, canceled, ChunkStatus, Chunk, UploadTask, InitUploadResult,
}
use cloud_file.Wire.{Thrown}
use cloud_file.App.State.{Console, spread}
use cloud_file.App.Patches.{
  set_status, hashed, init_failed, open_transfer, merge_started, go_offline, chunk_started,
  chunk_sent, chunk_failed, media_started,
}

-- the patches of `pauseTask`, `cancelTask`, and of `resumeTask` while the network is down
unfoldable pub pause : UploadTask → UploadTask
pause t = record t { status = paused; speed = whole 0; message = "上传已暂停，分片状态已保存" }

unfoldable pub cancel : UploadTask → UploadTask
cancel t = record t { status = canceled; speed = whole 0; message = "任务已取消" }

unfoldable pub stay_offline : UploadTask → UploadTask
stay_offline t = record t { status = offline; message = "网络已断开，进度已保存" }

abbrev pub reset_sending : Chunk → Chunk
reset_sending c = elim c.status [ ChunkStatus.uploading ↦ set_status ChunkStatus.pending c | _ ↦ c ]

-- a chunk, and the chunks, after the backend has said which indexes it has
unfoldable pub reconcile_chunk : List ℕ → Chunk → Chunk
reconcile_chunk indexes c =
    if any (λ i. i == c.index) indexes then set_status ChunkStatus.uploaded c else reset_sending c

unfoldable pub reconcile : List ℕ → List Chunk → List Chunk
unfolding reconcile_chunk
reconcile indexes chunks = map (reconcile_chunk indexes) chunks

unfoldable pub resumed : List ℕ → UploadTask → UploadTask
unfolding reconcile
resumed indexes t = record t {
  status = uploading;
  uploaded_chunks = length indexes;
  progress = max_ratio t.progress (progress_of (length indexes) t.chunk_count);
  message = "网络恢复，已查询服务端分片状态，只继续上传缺失分片";
  chunks = reconcile indexes t.chunks;
}

unfoldable pub retried : UploadTask → UploadTask
retried t = record t {
  status = uploading;
  message = "正在重试失败分片";
  chunks = map reset_sending t.chunks;
}

-- the patches that the program hands to `updateTask`
pub data Patch : Type 0 where
  hashes : String → Patch
  fails_init : Thrown → Patch
  is_instant : Option String → UploadTask → Patch
  opens : String → InitUploadResult → Bool → Patch
  starts_merge stays_offline goes_offline pauses cancels retries : Patch
  starts_chunk : ℕ → Patch
  sends_chunk : ℕ → Ratio → Patch
  fails_chunk : ℕ → Thrown → Patch
  starts_media : String → Patch
  finishes : UploadTask → Patch
  resumes : List ℕ → Patch

-- `{ ...task, ...patch }`; the `uploadId` of an instant upload is there even if it is undefined
unfoldable pub apply : Patch → UploadTask → UploadTask
unfolding hashed init_failed open_transfer merge_started stay_offline go_offline pause cancel
    retried chunk_started chunk_sent chunk_failed media_started spread resumed
apply (hashes hash) t = hashed hash t
apply (fails_init e) t = init_failed e t
apply (is_instant upload_id next) t = record (spread t next) { upload_id = upload_id }
apply (opens hash result online) t = open_transfer hash result online t
apply starts_merge t = merge_started t
apply stays_offline t = stay_offline t
apply goes_offline t = go_offline t
apply pauses t = pause t
apply cancels t = cancel t
apply retries t = retried t
apply (starts_chunk index) t = chunk_started index t
apply (sends_chunk index random) t = chunk_sent index random t
apply (fails_chunk index e) t = chunk_failed index e t
apply (starts_media text) t = media_started text t
apply (finishes done) t = spread t done
apply (resumes indexes) t = resumed indexes t

-- `updateTask`
unfoldable pub patch_tasks : String → Patch → List UploadTask → List UploadTask
unfolding apply
patch_tasks id patch tasks = map (λ t. if str_eq t.id id then apply patch t else t) tasks

unfoldable pub update_task : String → Patch → Console → Console
unfolding patch_tasks
update_task id patch s = record s { tasks = patch_tasks id patch s.tasks }
