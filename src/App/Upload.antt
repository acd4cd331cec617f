-- ===== src/App/Upload.antt =====
-- frontend/src/App.tsx, the way of a file: `handleFiles`, `prepareUpload`, the timer of
-- `startUploading`, `finishUpload`. Each function is cut at its `await`s: `after_init` is the rest of
-- `prepareUpload` once `initUpload` has settled, and so on.
use cloud_file.Base.{ℕ, Bool, String, List, [], ◌∷◌, none, some, if◌then◌else◌}
use cloud_file.Ratio.{Ratio}
use cloud_file.Types.{success, media_success, File, UploadTask, InitUploadResult}
use cloud_file.Wire.{Platform, Result, ok, throws}
use cloud_file.App.State.{
  Console, awaiting_hash, awaiting_init, awaiting_files, awaiting_chunk, awaiting_merge,
  awaiting_media, await, find_task, start_uploading,
}
use cloud_file.App.Patches.{
  is_media, media_text_of, new_task, instant_task, next_chunk, is_uploading, is_canceled, finished,
}
use cloud_file.App.Patch.{
  hashes, fails_init, is_instant, opens, starts_merge, goes_offline, starts_chunk, sends_chunk,
  fails_chunk, starts_media, finishes, update_task,
}

-- `handleFiles`: each file with the `crypto.randomUUID()` of its task
unfoldable pub handle_files : List (String × File) → ℕ → Console → Console
unfolding new_task await
handle_files [] now s = s
handle_files ((id, file) ∷ incoming) now s =
    let task = new_task id file s.mounted_kind now in
    handle_files incoming now
      (await (awaiting_hash task s.mounted_online) (record s { tasks = task ∷ s.tasks }))

unfoldable pub after_hash : UploadTask → Bool → Result String → Console → Console
unfolding update_task await
after_hash task online (throws e) s = update_task task.id (fails_init e) s
after_hash task online (ok hash) s =
    await (awaiting_init task hash online) (update_task task.id (hashes hash) s)

unfoldable pub after_init :
    Platform → UploadTask → String → Bool → Result InitUploadResult → Console → Console
unfolding update_task await instant_task start_uploading
after_init p task hash online (throws e) s = update_task task.id (fails_init e) s
after_init p task hash online (ok result) s =
    if result.instant
    then await (awaiting_files (some "秒传成功：该文件已上传，已为你秒传完成"))
        (update_task task.id (is_instant result.upload_id (instant_task p task hash result)) s)
    else let opened = update_task task.id (opens hash result online) s in
      if online then start_uploading task.id online opened else opened

-- `finishUpload` up to its `await mergeChunks`
unfoldable pub finish_upload : UploadTask → Console → Console
unfolding update_task await
finish_upload task s = await (awaiting_merge task) (update_task task.id starts_merge s)

unfoldable pub send_chunk : UploadTask → ℕ → Bool → Console → Console
unfolding update_task await
send_chunk task index online s =
    await (awaiting_chunk task index online) (update_task task.id (starts_chunk index) s)

-- the timer's function, once the task is known to be uploading
unfoldable pub upload_next : UploadTask → Bool → Console → Console
unfolding update_task finish_upload send_chunk next_chunk
upload_next task online s =
    if online
    then elim (next_chunk task.chunks) [
      | none ↦ finish_upload task s
      | some c ↦ send_chunk task c.index online s
    ]
    else update_task task.id goes_offline s

unfoldable pub timer_fires : String → Bool → Console → Console
unfolding upload_next find_task
timer_fires id online s = elim (find_task id s.tasks_ref) [
  | none ↦ s
  | some task ↦ if is_uploading task.status then upload_next task online s else s
]

unfoldable pub after_chunk : UploadTask → ℕ → Bool → Ratio → Result (Unit {0}) → Console → Console
unfolding update_task start_uploading
after_chunk task index online random (ok _) s =
    start_uploading task.id online (update_task task.id (sends_chunk index random) s)
after_chunk task index online random (throws e) s = update_task task.id (fails_chunk index e) s

unfoldable pub merged : UploadTask → Console → Console
unfolding update_task await finished is_media media_text_of
merged latest s =
    if is_media latest
    then await (awaiting_media latest)
        (update_task latest.id (starts_media (media_text_of latest)) s)
    else await (awaiting_files (some "上传完成，服务端合并成功"))
        (update_task latest.id (finishes (finished latest success "上传完成，文件已写入用户文件列表")) s)

-- A merge that throws leaves everything as it is: nothing catches it.
unfoldable pub after_merge : UploadTask → Result (Unit {0}) → Console → Console
unfolding merged find_task
after_merge task (throws e) s = s
after_merge task (ok _) s = elim (find_task task.id s.tasks_ref) [
  | none ↦ s
  | some latest ↦ if is_canceled latest.status then s else merged latest s
]

-- `processMedia` answers at once, so that a browser runs no other event before this one
unfoldable pub after_media : UploadTask → Console → Console
unfolding update_task await finished
after_media latest s =
    await (awaiting_files (some "媒体处理完成，文件已可用"))
      (update_task latest.id (finishes (finished latest media_success "媒体处理完成")) s)
