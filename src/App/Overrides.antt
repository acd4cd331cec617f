-- ===== src/App/Overrides.antt =====
-- A reply that arrives after a click on the task's buttons: which of the two has the last word.
use cloud_file.Base.{
  ℕ, ◌≡◌, refl, ap, ◌⊎◌, ◌∙◌, Bool, true, false, String, List, [], ◌∷◌, some, if◌then◌else◌, inl,
  inr,
}
use cloud_file.Ratio.{Ratio}
use cloud_file.Types.{uploading, offline, failed, UploadTask, InitUploadResult}
use cloud_file.Wire.{Platform, Reply, ok, throws, Thrown, InitReply}
use cloud_file.Api.{init_upload, upload_chunk}
use cloud_file.App.State.{Console, Job, awaiting_init, awaiting_chunk, find_task, start_uploading}
use cloud_file.App.Patches.{open_transfer, chunk_failed}
use cloud_file.App.Patch.{
  Patch, apply, patch_tasks, update_task, opens, cancels, pauses, fails_chunk,
}
use cloud_file.App.Upload.{after_init, after_chunk}
use cloud_file.App.Controls.{cancel_task, pause_task}
use cloud_file.App.Step.{
  Event, step, run, settle, take_job, continue_job, settles, init_replied, chunk_replied,
}
use cloud_file.App.Jobs.{settle_lem}
use cloud_file.App.Lookup.{find_task-patch_self, CarriesId}

after_init-opens :
    (p : Platform) (t : UploadTask) (hash : String) (online : Bool) (r : InitUploadResult)
    (s : Console)
    → r.instant ≡ false
    → (after_init p t hash online (ok r) s).tasks ≡ patch_tasks t.id (opens hash r online) s.tasks
unfolding after_init update_task start_uploading
after_init-opens p t hash true r s h = rw h
after_init-opens p t hash false r s h = rw h

-- A task that is canceled while `initUpload` is under way comes back: when the reply says that the file
-- has to be sent, the task is uploading, or offline if its closure saw no network, and no more canceled.
pub cancel_lost :
    (p : Platform) (s : Console) (n : ℕ) (t u : UploadTask) (hash : String) (online : Bool)
    (rest : List Job) (reply : Reply InitReply) (r : InitUploadResult)
    → take_job n s.jobs ≡ some (awaiting_init t hash online, rest)
    → find_task t.id s.tasks ≡ some u
    → init_upload reply ≡ ok r
    → r.instant ≡ false
    → let s' = run p s (Event.cancels t.id ∷ settles n (init_replied reply) ∷ []) in
      (find_task t.id s'.tasks ≡ some (apply (opens hash r online) (apply cancels u)))
      × ((apply (opens hash r online) (apply cancels u)).status
          ≡ (if online then uploading else offline))
unfolding run step cancel_task update_task apply open_transfer
cancel_lost p s n t u hash online rest reply r e f given not_instant =
    let tasks = patch_tasks t.id cancels s.tasks in
    let found : find_task t.id tasks ≡ some (apply cancels u) =
      find_task-patch_self t.id cancels s.tasks tt f in
    let s' : Console = record s { tasks = tasks } in
    let rest' : Console = record s' { jobs = rest } in
    let settled =
      settle_lem p n (init_replied reply) s' {t = after_init p t hash online (ok r) rest'} e
        (unfold continue_job in rw given) in
    (
      ap (λ x. find_task t.id x.tasks) settled
          ∙ ap (find_task t.id) (after_init-opens p t hash online r rest' not_instant)
          ∙ find_task-patch_self t.id (opens hash r online) tasks tt found,
      refl,
    )

-- a chunk request that fails, in a console where the task has been patched
fails_after :
    (p : Platform) (s : Console) (q : Patch) (n : ℕ) (t u : UploadTask) (index : ℕ) (online : Bool)
    (rest : List Job) (reply : Reply (Unit {0})) (random : Ratio) (thrown : Thrown)
    → CarriesId t.id q
    → take_job n s.jobs ≡ some (awaiting_chunk t index online, rest)
    → find_task t.id s.tasks ≡ some u
    → upload_chunk t reply ≡ throws thrown
    → let s' = settle p n (chunk_replied reply random) (update_task t.id q s) in
      (find_task t.id s'.tasks ≡ some (apply (fails_chunk index thrown) (apply q u)))
      × (s'.timers ≡ s.timers)
unfolding update_task
fails_after p s q n t u index online rest reply random thrown carried e f given =
    let tasks = patch_tasks t.id q s.tasks in
    let found : find_task t.id tasks ≡ some (apply q u) =
      find_task-patch_self t.id q s.tasks carried f in
    let s' : Console = record s { tasks = tasks } in
    let settled =
      settle_lem p n (chunk_replied reply random) s'
        {t = after_chunk t index online random (throws thrown) (record s' { jobs = rest })} e
        (unfold continue_job in rw given) in
    let failing = find_task-patch_self t.id (fails_chunk index thrown) tasks tt found in
    (
      ap (λ x. find_task t.id x.tasks) settled ∙ unfold after_chunk in failing,
      ap (λ x. x.timers) settled ∙ unfold after_chunk in refl,
    )

-- A chunk request that fails after the task was canceled or paused makes the task failed: it is no
-- more canceled or paused, and no timer is armed.
pub late_failure :
    (p : Platform) (s : Console) (n : ℕ) (t u : UploadTask) (index : ℕ) (online : Bool)
    (rest : List Job) (reply : Reply (Unit {0})) (random : Ratio) (thrown : Thrown) (click : Event)
    → (click ≡ Event.cancels t.id) ⊎ (click ≡ Event.pauses t.id)
    → take_job n s.jobs ≡ some (awaiting_chunk t index online, rest)
    → find_task t.id s.tasks ≡ some u
    → upload_chunk t reply ≡ throws thrown
    → let s' = run p s (click ∷ settles n (chunk_replied reply random) ∷ []) in
      (v : UploadTask) × (find_task t.id s'.tasks ≡ some v)
      × (v.status ≡ failed)
      × (s'.timers ≡ s.timers)
unfolding run step cancel_task pause_task apply chunk_failed
late_failure p s n t u index online rest reply random thrown click (inl c) e f given =
    let ends = fails_after p s cancels n t u index online rest reply random thrown tt e f given in
    rw c (apply (fails_chunk index thrown) (apply cancels u), ends.0, refl, ends.1)
late_failure p s n t u index online rest reply random thrown click (inr c) e f given =
    let ends = fails_after p s pauses n t u index online rest reply random thrown tt e f given in
    rw c (apply (fails_chunk index thrown) (apply pauses u), ends.0, refl, ends.1)
