-- ===== src/App/Invariant/Events.antt =====
-- Every event keeps the invariant of all tasks, and so does every run.
use mathlib.Core.Option.{some-injective}
use cloud_file.Base.{
  subst, ℕ, ◌≡◌, refl, false, String, List, [], ◌∷◌, some, str_eq, Option-cases, inl, inr, find,
}
use cloud_file.Types.{UploadTask}
use cloud_file.Wire.{Platform}
use cloud_file.App.State.{
  Console, Job, awaiting_hash, awaiting_init, awaiting_files, awaiting_chunk, awaiting_merge,
  awaiting_media, awaiting_status, awaiting_recovery, awaiting_delete, init, expire_toast,
}
use cloud_file.App.Patch.{update_task}
use cloud_file.App.Patch
use cloud_file.App.Controls.{pause_task, retry_task, cancel_task, request_delete}
use cloud_file.App.Step.{
  Outcome, bytes_read, init_replied, files_replied, chunk_replied, merge_replied, media_done,
  status_replied, recovery_done, delete_replied, Event, commits, timer_ends, settles, picks, pauses,
  resumes, retries, cancels, confirms, toggles, selects, take_job, continue_job, settle, end_timer,
  step, run,
}
use cloud_file.App.Jobs.{take_job-All}
use cloud_file.App.Invariant.{Stable, Holds, Everywhere, update_task-Everywhere}
use cloud_file.App.Invariant.Uploads.{
  start-Everywhere, handle_files-Everywhere, after_hash-Everywhere, after_init-Everywhere,
  timer_fires-Everywhere, after_chunk-Everywhere, after_merge-Everywhere, after_media-Everywhere,
}
use cloud_file.App.Invariant.Controls.{
  same, after_files-Everywhere, resume_task-Everywhere, after_status-Everywhere,
  toggle_network-Everywhere, confirm-Everywhere, select_action-Everywhere, after_delete-Everywhere,
  after_recovery-Everywhere,
}

module _ (P : UploadTask → Type 0) (Q : UploadTask → ℕ → Type 0) (st : Stable P Q) where
  continue_job-Everywhere :
      (p : Platform) (j : Job) (o : Outcome) (s : Console) {t : Console}
      → continue_job p j o s ≡ some t
      → Holds P Q j
      → Everywhere P Q s
      → Everywhere P Q t
  unfolding continue_job
  continue_job-Everywhere p (awaiting_hash task online) (bytes_read r) s e c h =
      subst (Everywhere P Q) (some-injective _ _ e)
        (after_hash-Everywhere P Q st task online _ s c h)
  continue_job-Everywhere p (awaiting_init task hash online) (init_replied r) s e c h =
      subst (Everywhere P Q) (some-injective _ _ e)
        (after_init-Everywhere P Q st p task hash online _ s c h)
  continue_job-Everywhere p (awaiting_files after) (files_replied r uuid) s e c h =
      subst (Everywhere P Q) (some-injective _ _ e) (after_files-Everywhere P Q st after _ uuid s h)
  continue_job-Everywhere p (awaiting_chunk task index online) (chunk_replied r random) s e c h =
      subst (Everywhere P Q) (some-injective _ _ e)
        (after_chunk-Everywhere P Q st task index online random _ s h)
  continue_job-Everywhere p (awaiting_merge task) (merge_replied r) s e c h =
      subst (Everywhere P Q) (some-injective _ _ e) (after_merge-Everywhere P Q st task _ s h)
  continue_job-Everywhere p (awaiting_media latest) media_done s e c h =
      subst (Everywhere P Q) (some-injective _ _ e) (after_media-Everywhere P Q st latest s c h)
  continue_job-Everywhere p (awaiting_status task online) (status_replied r) s e c h =
      subst (Everywhere P Q) (some-injective _ _ e)
        (after_status-Everywhere P Q st task online _ s h)
  continue_job-Everywhere p (awaiting_recovery online) (recovery_done uuid) s e c h =
      subst (Everywhere P Q) (some-injective _ _ e)
        (after_recovery-Everywhere P Q st online uuid s h)
  continue_job-Everywhere p (awaiting_delete file_id) (delete_replied r) s e c h =
      subst (Everywhere P Q) (some-injective _ _ e) (after_delete-Everywhere P Q st _ s h)
  continue_job-Everywhere p _ _ s e c h = cc

  settle-Everywhere :
      (p : Platform) (n : ℕ) (o : Outcome) (s : Console)
      → Everywhere P Q s
      → Everywhere P Q (settle p n o s)
  unfolding settle
  settle-Everywhere p n o s h = elim (Option-cases (take_job n s.jobs)) [
    | inl e ↦ rw (e, settle) h
    | inr ((j, rest), e) ↦
        let split = take_job-All (Holds P Q) n s.jobs e h.jobs in
        let s' : Console = record s { jobs = rest } in
        let h' : Everywhere P Q s' = record {
          tasks = h.tasks;
          tasks_ref = h.tasks_ref;
          jobs = split.1;
        } in
        elim (Option-cases (continue_job p j o s')) [
          | inl e' ↦ rw (e, settle) (rw (e', settle) h)
          | inr (t, e') ↦
              rw (e, settle) (rw (e', settle) (continue_job-Everywhere p j o s' e' split.0 h'))
        ]
  ]

  end_timer-Everywhere :
      (id : String) (s : Console) → Everywhere P Q s → Everywhere P Q (end_timer id s)
  unfolding end_timer
  end_timer-Everywhere id s h = elim (Option-cases (find (λ t. str_eq t.task_id id) s.timers)) [
    | inl e ↦ rw (e, end_timer) h
    | inr (timer, e) ↦
        rw (e, end_timer)
          (timer_fires-Everywhere P Q st id timer.online _ (same P Q st refl refl refl h))
  ]

  pub step-Everywhere :
      (p : Platform) (s : Console) (e : Event) → Everywhere P Q s → Everywhere P Q (step p s e)
  unfolding step pause_task retry_task cancel_task request_delete expire_toast
  step-Everywhere p s commits h = record { tasks = h.tasks; tasks_ref = h.tasks; jobs = h.jobs }
  step-Everywhere p s (timer_ends id) h = end_timer-Everywhere id s h
  step-Everywhere p s (settles n o) h = settle-Everywhere p n o s h
  step-Everywhere p s (picks files now) h = handle_files-Everywhere P Q st files now s h
  step-Everywhere p s (pauses id) h = update_task-Everywhere P Q st id Patch.pauses s tt h
  step-Everywhere p s (resumes id) h = resume_task-Everywhere P Q st id false s.mounted_online s h
  step-Everywhere p s (retries id) h =
      start-Everywhere P Q st id s.mounted_online _
        (update_task-Everywhere P Q st id Patch.retries s tt h)
  step-Everywhere p s (cancels id) h = update_task-Everywhere P Q st id Patch.cancels s tt h
  step-Everywhere p s (confirms uuid) h = confirm-Everywhere P Q st uuid s h
  step-Everywhere p s (toggles uuid) h = toggle_network-Everywhere P Q st uuid s h
  step-Everywhere p s (selects kind) h = select_action-Everywhere P Q st kind s h
  step-Everywhere p s _ h = same P Q st refl refl refl h

  pub run-Everywhere :
      (p : Platform) (s : Console) (events : List Event)
      → Everywhere P Q s
      → Everywhere P Q (run p s events)
  unfolding run
  run-Everywhere p s [] h = h
  run-Everywhere p s (e ∷ events) h = run-Everywhere p (step p s e) events (step-Everywhere p s e h)

  -- whatever happens after the first render
  pub run-init-Everywhere :
      (p : Platform) (events : List Event) → Everywhere P Q (run p init events)
  unfolding init
  run-init-Everywhere p events =
      run-Everywhere p init events (record { tasks = tt; tasks_ref = tt; jobs = (tt, tt) })
