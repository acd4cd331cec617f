-- ===== src/App/State.antt =====
-- frontend/src/App.tsx, the hooks: the state of the console, what its asynchronous functions wait
-- for, and the helpers `toast`, `updateTask`, `addFileFromTask`.
--
-- `mounted_online` and `mounted_kind` are `networkOnline` and `selectedKind` as the closures of the
-- last render captured them, and `tasks_ref` is `tasksRef.current`: all three follow the state only
-- when React commits. An asynchronous function keeps the `networkOnline` of the render that it was
-- called from: each job and each timer carries it as `online`.
use Prim.Native.String.{◌++◌ as str_append}
use cloud_file.Base.{
  ℕ, Bool, true, false, not, String, List, [], ◌∷◌, ◌++◌, Option, none, some, str_eq, if◌then◌else◌,
  keep, find, any,
}
use cloud_file.Types.{UploadKind, UploadStatus, UploadTask, FileItem}
use cloud_file.Wire.{Platform, or_text}

pub data Tone : Type 0 where
  success info warning : Tone

pub record Toast : Type 0 where
  pub id : String
  pub message : String
  pub tone : Tone

-- `confirmState`, by what its `onConfirm` does
pub data ConfirmState : Type 0 where
  delete_task : String → ConfirmState
  delete_file : String → ConfirmState

-- The promises that are awaited, each with what its function still holds.
pub data Job : Type 0 where
  awaiting_hash : UploadTask → Bool → Job
  awaiting_init : UploadTask → String → Bool → Job
  awaiting_files : Option String → Job
  awaiting_chunk : UploadTask → ℕ → Bool → Job
  awaiting_merge : UploadTask → Job
  awaiting_media : UploadTask → Job
  awaiting_status : UploadTask → Bool → Job
  awaiting_recovery : Bool → Job
  awaiting_delete : String → Job

pub record Timer : Type 0 where
  pub task_id : String
  pub online : Bool

pub record Console : Type 0 where
  pub selected_kind : UploadKind
  pub tasks : List UploadTask
  pub files : List FileItem
  pub network_online : Bool
  pub drag_active : Bool
  pub selected_task_id : Option String
  pub toasts : List Toast
  pub confirm_state : Option ConfirmState
  pub tasks_ref : List UploadTask
  pub mounted_online : Bool
  pub mounted_kind : UploadKind
  pub timers : List Timer
  pub jobs : List Job

-- the first render, with the `refreshFiles` of its effect under way
unfoldable pub init : Console
init = record {
  selected_kind = UploadKind.general;
  tasks = [];
  files = [];
  network_online = true;
  drag_active = false;
  selected_task_id = none;
  toasts = [];
  confirm_state = none;
  tasks_ref = [];
  mounted_online = true;
  mounted_kind = UploadKind.general;
  timers = [];
  jobs = awaiting_files none ∷ [];
}

unfoldable pub await : Job → Console → Console
await job s = record s { jobs = s.jobs ++ job ∷ [] }

-- `toast`; the id is the `crypto.randomUUID()` of the call
unfoldable pub toast : String → String → Tone → Console → Console
toast id message tone s = record s {
  toasts = s.toasts ++ record { id = id; message = message; tone = tone } ∷ [];
}

unfoldable pub expire_toast : String → Console → Console
expire_toast id s = record s { toasts = keep (λ item. not (str_eq item.id id)) s.toasts }

unfoldable pub find_task : String → List UploadTask → Option UploadTask
find_task id tasks = find (λ t. str_eq t.id id) tasks

abbrev or_else : Option String → Option String → Option String
or_else none b = b
or_else (some a) b = some a

-- `{ ...current, ...snapshot }`: what is missing in the snapshot stays
unfoldable pub spread : UploadTask → UploadTask → UploadTask
spread current snapshot = record snapshot {
  upload_id = or_else snapshot.upload_id current.upload_id;
  hash = or_else snapshot.hash current.hash;
  link = or_else snapshot.link current.link;
  media_text = or_else snapshot.media_text current.media_text;
}

unfoldable pub cdn_link : Platform → String → String → String
cdn_link p key name =
    str_append "https://cdn.cloudfile.local/"
      (str_append key (str_append "/" (p.encode_uri_component name)))

unfoldable pub add_file_from_task :
    Platform → String → ℕ → UploadTask → UploadStatus → Console → Console
unfolding cdn_link
add_file_from_task p id now task final_status s =
    let link = or_text task.link (cdn_link p (or_text task.hash task.id) task.file_name) in
    let item : FileItem = record {
      id = id;
      name = task.file_name;
      file_type = task.file_type;
      size = task.size;
      status = final_status;
      uploaded_at = now;
      link = link;
      task_id = task.id;
    } in
    record s {
      files = if any (λ file. str_eq file.task_id task.id) s.files then s.files else item ∷ s.files;
    }

-- `startUploading`: the timer of a task replaces the one that it had
unfoldable pub start_uploading : String → Bool → Console → Console
start_uploading id online s = record s {
  timers =
      record { task_id = id; online = online } ∷ keep (λ t. not (str_eq t.task_id id)) s.timers;
}
