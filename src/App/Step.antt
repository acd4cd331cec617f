-- ===== src/App/Step.antt =====
-- frontend/src/App.tsx as a state machine: one event is one click, one timer, one promise that
-- settles, or one commit of React. Events come in any order. The environment supplies with an event
-- what the browser gives: fresh ids (`crypto.randomUUID()`), the clock, random numbers, replies.
use cloud_file.Base.{
  ℕ, zero, suc, Bool, false, String, List, [], ◌∷◌, Option, none, some, str_eq, not, keep, find,
}
use cloud_file.Ratio.{Ratio}
use cloud_file.Types.{UploadKind, File}
use cloud_file.Wire.{Platform, Result, ok, throws, Reply, InitReply, ListedFile}
use cloud_file.Api.{
  calculate_file_hash, init_upload, upload_chunk, merge_chunks, query_upload_status, list_files,
  delete_user_file_ref,
}
use cloud_file.App.State.{
  ConfirmState, Job, awaiting_hash, awaiting_init, awaiting_files, awaiting_chunk, awaiting_merge,
  awaiting_media, awaiting_status, awaiting_recovery, awaiting_delete, Console, expire_toast,
}
use cloud_file.App.Upload.{
  handle_files, after_hash, after_init, timer_fires, after_chunk, after_merge, after_media,
}
use cloud_file.App.Controls.{
  after_files, pause_task, resume_task, after_status, retry_task, cancel_task, request_delete,
  confirm, after_delete, after_recovery, toggle_network, select_action,
}

-- how an awaited promise settled
pub data Outcome : Type 0 where
  bytes_read : Result (Unit {0}) → Outcome
  init_replied : Reply InitReply → Outcome
  files_replied : Reply (List ListedFile) → String → Outcome
  chunk_replied : Reply (Unit {0}) → Ratio → Outcome
  merge_replied : Reply (Unit {0}) → Outcome
  media_done : Outcome
  status_replied : Reply (Option (List ℕ)) → Outcome
  recovery_done : String → Outcome
  delete_replied : Reply (Unit {0}) → Outcome

pub data Event : Type 0 where
  commits : Event
  timer_ends : String → Event
  settles : ℕ → Outcome → Event
  picks : List (String × File) → ℕ → Event
  pauses resumes retries cancels : String → Event
  asks : ConfirmState → Event
  confirms : String → Event
  dismisses : Event
  toggles : String → Event
  selects : UploadKind → Event
  views : Option String → Event
  drags : Bool → Event
  toast_ends : String → Event
  unmounts : Event

-- the job at a position, and the jobs without it
unfoldable pub take_job : ℕ → List Job → Option (Job × List Job)
take_job n [] = none
take_job zero (j ∷ jobs) = some (j, jobs)
take_job (suc n) (j ∷ jobs) = elim (take_job n jobs) [
  | none ↦ none
  | some (found, rest) ↦ some (found, j ∷ rest)
]

-- `await calculateFileHash(file)`
abbrev pub hash_result : Platform → File → Result (Unit {0}) → Result String
hash_result p file (ok _) = ok (calculate_file_hash p file)
hash_result p file (throws e) = throws e

-- An awaited promise goes on with the outcome of its kind; another outcome is none of its own.
unfoldable pub continue_job : Platform → Job → Outcome → Console → Option Console
continue_job p (awaiting_hash task online) (bytes_read r) s =
    some (after_hash task online (hash_result p task.file r) s)
continue_job p (awaiting_init task hash online) (init_replied r) s =
    some (after_init p task hash online (init_upload r) s)
continue_job p (awaiting_files after) (files_replied r uuid) s =
    some (after_files after (list_files p r) uuid s)
continue_job p (awaiting_chunk task index online) (chunk_replied r random) s =
    some (after_chunk task index online random (upload_chunk task r) s)
continue_job p (awaiting_merge task) (merge_replied r) s =
    some (after_merge task (merge_chunks task r) s)
continue_job p (awaiting_media latest) media_done s = some (after_media latest s)
continue_job p (awaiting_status task online) (status_replied r) s =
    some (after_status task online (query_upload_status task r) s)
continue_job p (awaiting_recovery online) (recovery_done uuid) s =
    some (after_recovery online uuid s)
continue_job p (awaiting_delete file_id) (delete_replied r) s =
    some (after_delete (delete_user_file_ref r) s)
continue_job _ _ _ s = none

unfoldable pub settle : Platform → ℕ → Outcome → Console → Console
unfolding take_job continue_job
settle p n o s = elim (take_job n s.jobs) [
  | none ↦ s
  | some (job, rest) ↦ elim (continue_job p job o (record s { jobs = rest })) [
    | none ↦ s
    | some t ↦ t
  ]
]

-- the timer of a task, which is no more once it has fired
unfoldable pub end_timer : String → Console → Console
end_timer id s = elim (find (λ t. str_eq t.task_id id) s.timers) [
  | none ↦ s
  | some timer ↦
      timer_fires id timer.online
        (record s { timers = keep (λ t. not (str_eq t.task_id id)) s.timers })
]

-- React commits: the effect on `tasks` runs, and the new closures capture the new state.
unfoldable pub commit : Console → Console
commit s = record s {
  tasks_ref = s.tasks;
  mounted_online = s.network_online;
  mounted_kind = s.selected_kind;
}

unfoldable pub step : Platform → Console → Event → Console
unfolding commit end_timer settle
step p s commits = commit s
step p s (timer_ends id) = end_timer id s
step p s (settles n o) = settle p n o s
step p s (picks files now) = handle_files files now s
step p s (pauses id) = pause_task id s
step p s (resumes id) = resume_task id false s.mounted_online s
step p s (retries id) = retry_task id s.mounted_online s
step p s (cancels id) = cancel_task id s
step p s (asks what) = request_delete what s
step p s (confirms uuid) = confirm uuid s
step p s dismisses = record s { confirm_state = none }
step p s (toggles uuid) = toggle_network uuid s
step p s (selects kind) = select_action kind s
step p s (views id) = record s { selected_task_id = id }
step p s (drags active) = record s { drag_active = active }
step p s (toast_ends id) = expire_toast id s
step p s unmounts = record s { timers = [] }

unfoldable pub run : Platform → Console → List Event → Console
run p s [] = s
run p s (e ∷ events) = run p (step p s e) events
