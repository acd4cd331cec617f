-- ===== src/App/Controls.antt =====
-- frontend/src/App.tsx, the buttons: pause, resume, retry, cancel, delete, recover, the network
-- switch, and the panel that chooses an upload action (components/UploadPanel.tsx).
use Prim.Native.String.{◌++◌ as str_append}
use cloud_file.Base.{
  ℕ, Bool, true, false, not, ◌&&◌, String, List, [], ◌∷◌, Option, none, some, str_eq, if◌then◌else◌,
  keep,
}
use cloud_file.Text.{decimal}
use cloud_file.Types.{
  UploadKind, resume, UploadStatus, paused, offline, failed, UploadTask, FileItem,
}
use cloud_file.Wire.{Result, ok, throws, message_of}
use cloud_file.Api.{recover_unfinished_tasks}
use cloud_file.App.State.{
  Tone, info, warning, Console, ConfirmState, delete_task, delete_file, awaiting_files,
  awaiting_status, awaiting_recovery, awaiting_delete, await, toast, find_task, start_uploading,
}
use cloud_file.App.Patches.{is_uploading}
use cloud_file.App.Patch.{
  pauses, cancels, retries, stays_offline, goes_offline, resumes, update_task,
}

-- `refreshFiles` once `listFiles` has settled, and the toast that its caller makes after it
unfoldable pub after_files : Option String → Result (List FileItem) → String → Console → Console
unfolding toast
after_files none (ok files) id s = record s { files = files }
after_files (some message) (ok files) id s =
    toast id message Tone.success (record s { files = files })
after_files none (throws e) id s = toast id (message_of e "加载文件列表失败") warning s
after_files (some message) (throws e) id s =
    toast id message Tone.success (toast id (message_of e "加载文件列表失败") warning s)

unfoldable pub pause_task : String → Console → Console
unfolding update_task
pause_task id = update_task id pauses

-- `resumeTask` up to its `await queryUploadStatus`, in a closure that captured `online`
unfoldable pub resume_task : String → Bool → Bool → Console → Console
unfolding find_task update_task await
resume_task id force_online online s = elim (find_task id s.tasks_ref) [
  | none ↦ s
  | some task ↦
      if not online && not force_online
      then update_task id stays_offline s
      else await (awaiting_status task online) s
]

-- A status query that throws leaves everything as it is: nothing catches it.
unfoldable pub after_status : UploadTask → Bool → Result (List ℕ) → Console → Console
unfolding update_task start_uploading
after_status task online (throws e) s = s
after_status task online (ok indexes) s =
    start_uploading task.id online (update_task task.id (resumes indexes) s)

unfoldable pub retry_task : String → Bool → Console → Console
unfolding update_task start_uploading
retry_task id online s = start_uploading id online (update_task id retries s)

unfoldable pub cancel_task : String → Console → Console
unfolding update_task
cancel_task id = update_task id cancels

unfoldable pub request_delete : ConfirmState → Console → Console
request_delete what s = record s { confirm_state = some what }

abbrev pub deselect : String → Option String → Option String
deselect id none = none
deselect id (some current) = if str_eq current id then none else some current

-- `onConfirm`, by what was asked; the toast of a file's deletion comes after its promises
unfoldable pub on_confirm : ConfirmState → String → Console → Console
unfolding toast await
on_confirm (delete_task id) uuid s = toast uuid "已删除当前上传任务记录" Tone.success (record s {
  tasks = keep (λ t. not (str_eq t.id id)) s.tasks;
  files = keep (λ file. not (str_eq file.task_id id)) s.files;
  selected_task_id = deselect id s.selected_task_id;
})
on_confirm (delete_file file_id) uuid s = await (awaiting_delete file_id) s

-- the button of the dialog
unfoldable pub confirm : String → Console → Console
unfolding on_confirm
confirm uuid s = elim s.confirm_state [
  | none ↦ s
  | some what ↦ record (on_confirm what uuid s) { confirm_state = none }
]

unfoldable pub after_delete : Result (Unit {0}) → Console → Console
unfolding await
after_delete (ok _) s = await (awaiting_files (some "物理文件已删除")) s
after_delete (throws e) s = s

abbrev pub is_recoverable : UploadStatus → Bool
is_recoverable paused = true
is_recoverable offline = true
is_recoverable failed = true
is_recoverable _ = false

abbrev is_offline : UploadStatus → Bool
is_offline offline = true
is_offline _ = false

-- `.filter(…).forEach((task) => resumeTask(task.id, forceOnline))` over a copy of the list
unfoldable pub resume_all :
    (UploadStatus → Bool) → Bool → Bool → List UploadTask → Console → Console
unfolding resume_task
resume_all test force_online online [] s = s
resume_all test force_online online (t ∷ tasks) s =
    resume_all test force_online online tasks
      (if test t.status then resume_task t.id force_online online s else s)

unfoldable pub recover_tasks : Console → Console
unfolding await
recover_tasks s = await (awaiting_recovery s.mounted_online) s

unfoldable pub after_recovery : Bool → String → Console → Console
unfolding toast resume_all decimal
after_recovery online uuid s = resume_all is_recoverable false online s.tasks_ref (
    toast uuid
      (str_append "已扫描未完成任务，发现 " (str_append (decimal recover_unfinished_tasks) " 个可恢复分片任务")) info
      s)

unfoldable pub offline_all : List UploadTask → Console → Console
unfolding update_task
offline_all [] s = s
offline_all (t ∷ tasks) s =
    offline_all tasks (if is_uploading t.status then update_task t.id goes_offline s else s)

-- `toggleNetwork`: `online` inside its updater is the state, and `resumeTask` is the one of the
-- render that the button stands in
unfoldable pub toggle_network : String → Console → Console
unfolding offline_all resume_all toast
toggle_network uuid s =
    if s.network_online
    then record (toast uuid "网络已断开，上传进度保持在当前分片状态" warning (offline_all s.tasks_ref s)) {
      network_online = false;
    }
    else record (resume_all is_offline true s.mounted_online s.tasks_ref
        (toast uuid "网络已恢复，正在查询已上传分片" Tone.success s)) { network_online = true }

-- `handleClick` of an action in the panel
unfoldable pub select_action : UploadKind → Console → Console
unfolding recover_tasks
select_action resume s = recover_tasks (record s { selected_kind = resume })
select_action kind s = record s { selected_kind = kind }
