-- ===== src/App/Patches.antt =====
-- frontend/src/App.tsx, what the functions on the way of a file make of one task: the new task, the
-- patches that they hand to `updateTask`, and the tests that they make of it.
use Prim.Native.String.{◌++◌ as str_append}
use text.Mathlib.Text.{starts_with}
use cloud_file.Base.{
  ℕ, zero, suc, ◌+◌, ◌-◌, ◌*◌, Bool, true, false, ◌||◌, String, List, [], ◌∷◌, map, Option, none,
  some, if◌then◌else◌, ◌==◌, find,
}
use cloud_file.Text.{decimal}
use cloud_file.Ratio.{Ratio, whole, min_ratio, progress_of}
use cloud_file.Types.{
  UploadKind, UploadStatus, merging, media_processing, hashing, instant_success, uploading, offline,
  failed, canceled, ChunkStatus, Chunk, File, file_size, UploadTask, InitUploadResult,
}
use cloud_file.Wire.{Platform, Thrown, message_of}
use cloud_file.Api.{chunk_size, chunk_count_of, content_type_of}
use cloud_file.App.State.{cdn_link}

-- `makeChunks`
unfoldable pub make_chunks_from : ℕ → ℕ → List Chunk
make_chunks_from index zero = []
make_chunks_from index (suc count) =
    record { index = index; status = ChunkStatus.pending } ∷ make_chunks_from (suc index) count

unfoldable pub make_chunks : ℕ → List Chunk
unfolding make_chunks_from
make_chunks count = make_chunks_from 0 count

abbrev pub set_status : ChunkStatus → Chunk → Chunk
set_status status c = record c { status = status }

-- `chunks.map((chunk) => chunk.index === index ? { ...chunk, status } : chunk)`
unfoldable pub mark_chunk : ℕ → ChunkStatus → List Chunk → List Chunk
mark_chunk index status chunks =
    map (λ c. if c.index == index then set_status status c else c) chunks

-- `isMedia` and `mediaText`
abbrev is_video : UploadTask → Bool
is_video task = starts_with task.file_type "video/"

abbrev is_image : UploadTask → Bool
is_image task = starts_with task.file_type "image/"

unfoldable pub is_media : UploadTask → Bool
is_media task = is_image task || is_video task

unfoldable pub media_text_of : UploadTask → String
media_text_of task =
    if is_video task then "正在视频转码 / 正在生成缩略图" else if is_image task then "正在生成缩略图 / 正在图片压缩" else ""

-- the task that `handleFiles` makes of a file
unfoldable pub new_task : String → File → UploadKind → ℕ → UploadTask
unfolding make_chunks chunk_count_of content_type_of
new_task id file kind now =
    let count = chunk_count_of chunk_size (file_size file) in
    record {
      id = id;
      upload_id = none;
      file = file;
      file_name = file.name;
      file_type = content_type_of file.file_type;
      size = file_size file;
      hash = none;
      kind = kind;
      status = hashing;
      progress = whole 4;
      uploaded_chunks = 0;
      chunk_count = count;
      chunks = make_chunks count;
      speed = whole 0;
      remaining_seconds = whole 0;
      message = "正在计算文件 Hash，用于秒传校验";
      created_at = now;
      link = none;
      media_text = none;
    }

-- the patch of `prepareUpload` once the hash is there, and of its `catch`
unfoldable pub hashed : String → UploadTask → UploadTask
hashed hash t = record t { hash = some hash; progress = whole 8; message = "Hash 计算完成，正在初始化上传任务" }

unfoldable pub init_failed : Thrown → UploadTask → UploadTask
init_failed e t = record t { status = failed; message = message_of e "初始化失败" }

-- the `nextTask` of a file that the backend has already
unfoldable pub instant_task : Platform → UploadTask → String → InitUploadResult → UploadTask
unfolding make_chunks cdn_link
instant_task p task hash result = record task {
  hash = some hash;
  upload_id = result.upload_id;
  status = instant_success;
  progress = whole 100;
  uploaded_chunks = result.chunk_count;
  chunk_count = result.chunk_count;
  chunks = map (set_status ChunkStatus.uploaded) (make_chunks result.chunk_count);
  speed = whole 0;
  remaining_seconds = whole 0;
  message = "该文件已上传，已为你秒传完成";
  link = some (cdn_link p hash task.file_name);
}

-- the patch that opens the transfer
unfoldable pub open_transfer : String → InitUploadResult → Bool → UploadTask → UploadTask
unfolding make_chunks
open_transfer hash result online t = record t {
  hash = some hash;
  upload_id = result.upload_id;
  status = if online then uploading else offline;
  progress = whole 10;
  chunk_count = result.chunk_count;
  chunks = make_chunks result.chunk_count;
  message = if online then "上传链路已建立，正在上传分片" else "网络已断开，进度已保存";
}

-- the first patch of `finishUpload`
unfoldable pub merge_started : UploadTask → UploadTask
merge_started t = record t {
  status = merging;
  progress = whole 96;
  speed = whole 0;
  remaining_seconds = whole 0;
  message = "分片上传完成，服务端正在合并文件";
}

abbrev pub is_open : ChunkStatus → Bool
is_open ChunkStatus.pending = true
is_open ChunkStatus.failed = true
is_open _ = false

-- the `nextChunk` of the timer
unfoldable pub next_chunk : List Chunk → Option Chunk
next_chunk chunks = find (λ c. is_open c.status) chunks

abbrev pub is_uploading : UploadStatus → Bool
is_uploading uploading = true
is_uploading _ = false

-- the patch of `网络已断开，进度已保存` with its speed
unfoldable pub go_offline : UploadTask → UploadTask
go_offline t = record t { status = offline; speed = whole 0; message = "网络已断开，进度已保存" }

-- the patch of the timer before it sends a chunk
unfoldable pub chunk_started : ℕ → UploadTask → UploadTask
unfolding mark_chunk decimal
chunk_started index t = record t {
  chunks = mark_chunk index ChunkStatus.uploading t.chunks;
  message =
      str_append "正在上传分片 "
        (str_append (decimal (index + 1)) (str_append " / " (decimal t.chunk_count)));
}

-- `3_000_000 + Math.random() * 9_000_000`
abbrev pub speed_of : Ratio → Ratio
speed_of random = record { num = 3000000 * random.den + 9000000 * random.num; den = random.den }

-- `current.size * (1 - progress / 100) / speed`, of a progress that is at most 100
abbrev pub remaining_of : ℕ → Ratio → Ratio → Ratio
remaining_of size progress speed = record {
  num = size * (100 * progress.den - progress.num) * speed.den;
  den = 100 * progress.den * speed.num;
}

-- the patches of a chunk that went through, and of one that did not
unfoldable pub chunk_sent : ℕ → Ratio → UploadTask → UploadTask
unfolding mark_chunk
chunk_sent index random t =
    let uploaded = t.uploaded_chunks + 1 in
    let progress = min_ratio (whole 92) (progress_of uploaded t.chunk_count) in
    record t {
      uploaded_chunks = uploaded;
      progress = progress;
      speed = speed_of random;
      remaining_seconds = remaining_of t.size progress (speed_of random);
      chunks = mark_chunk index ChunkStatus.uploaded t.chunks;
    }

unfoldable pub chunk_failed : ℕ → Thrown → UploadTask → UploadTask
unfolding mark_chunk
chunk_failed index e t = record t {
  status = failed;
  speed = whole 0;
  message = message_of e "分片上传失败";
  chunks = mark_chunk index ChunkStatus.failed t.chunks;
}

abbrev pub is_canceled : UploadStatus → Bool
is_canceled canceled = true
is_canceled _ = false

-- `{ ...latest, status, progress: 100, message }`
unfoldable pub finished : UploadTask → UploadStatus → String → UploadTask
finished latest status message = record latest {
  status = status;
  progress = whole 100;
  message = message;
}

-- the patch of `finishUpload` before `processMedia`
unfoldable pub media_started : String → UploadTask → UploadTask
media_started text t = record t {
  status = media_processing;
  progress = whole 98;
  media_text = some text;
  message = text;
}
