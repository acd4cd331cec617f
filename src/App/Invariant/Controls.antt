-- ===== src/App/Invariant/Controls.antt =====
-- The buttons keep the invariant of all tasks.
use cloud_file.Base.{
  ℕ, ◌≡◌, refl, Bool, true, false, String, List, [], ◌∷◌, Option, none, some, str_eq, Option-cases,
  inl, inr, not, ◌&&◌,
}
use cloud_file.Types.{UploadStatus, UploadTask, FileItem, UploadKind, resume}
use cloud_file.Wire.{Result, ok, throws}
use cloud_file.App.State.{
  Console, ConfirmState, delete_task, delete_file, awaiting_files, awaiting_status,
  awaiting_recovery, awaiting_delete, find_task, toast,
}
use cloud_file.App.Patches.{is_uploading}
use cloud_file.App.Patch.{update_task}
use cloud_file.App.Patch
use cloud_file.App.Controls.{
  after_files, resume_task, after_status, confirm, on_confirm, resume_all, offline_all,
  after_delete, after_recovery, toggle_network, select_action, recover_tasks,
}
use cloud_file.App.Invariant.{
  Stable, Everywhere, All-keep, update_task-Everywhere, await-Everywhere, find_task-All,
}
use cloud_file.App.Invariant.Uploads.{keeps, either, start-Everywhere}

module _ (P : UploadTask → Type 0) (Q : UploadTask → ℕ → Type 0) (st : Stable P Q) where
  pub same :
      {s t : Console}
      → t.tasks ≡ s.tasks
      → t.tasks_ref ≡ s.tasks_ref
      → t.jobs ≡ s.jobs
      → Everywhere P Q s
      → Everywhere P Q t
  same {s} {t} a b c h = keeps P Q st s t (a, b, c) h

  pub after_files-Everywhere :
      (after : Option String) (r : Result (List FileItem)) (uuid : String) (s : Console)
      → Everywhere P Q s
      → Everywhere P Q (after_files after r uuid s)
  unfolding after_files toast
  after_files-Everywhere none (ok files) uuid s h = same refl refl refl h
  after_files-Everywhere (some m) (ok files) uuid s h = same refl refl refl h
  after_files-Everywhere none (throws e) uuid s h = same refl refl refl h
  after_files-Everywhere (some m) (throws e) uuid s h = same refl refl refl h

  pub resume_task-Everywhere :
      (id : String) (force online : Bool) (s : Console)
      → Everywhere P Q s
      → Everywhere P Q (resume_task id force online s)
  unfolding resume_task
  resume_task-Everywhere id force online s h = elim (Option-cases (find_task id s.tasks_ref)) [
    | inl e ↦ rw (e, resume_task) h
    | inr (t, e) ↦
        rw (e, resume_task)
          (either P Q st (not online && not force) _ _
            (update_task-Everywhere P Q st id Patch.stays_offline s tt h)
            (await-Everywhere P Q st (awaiting_status t online) s
              (find_task-All P Q st id s.tasks_ref e h.tasks_ref) h))
  ]

  pub after_status-Everywhere :
      (t : UploadTask) (online : Bool) (r : Result (List ℕ)) (s : Console)
      → Everywhere P Q s
      → Everywhere P Q (after_status t online r s)
  unfolding after_status
  after_status-Everywhere t online (throws e) s h = h
  after_status-Everywhere t online (ok indexes) s h =
      start-Everywhere P Q st t.id online _
        (update_task-Everywhere P Q st t.id (Patch.resumes indexes) s tt h)

  pub resume_all-Everywhere :
      (test : UploadStatus → Bool) (force online : Bool) (ts : List UploadTask) (s : Console)
      → Everywhere P Q s
      → Everywhere P Q (resume_all test force online ts s)
  unfolding resume_all
  resume_all-Everywhere test force online [] s h = h
  resume_all-Everywhere test force online (t ∷ ts) s h =
      resume_all-Everywhere test force online ts _
        (either P Q st (test t.status) _ _ (resume_task-Everywhere t.id force online s h) h)

  pub offline_all-Everywhere :
      (ts : List UploadTask) (s : Console) → Everywhere P Q s → Everywhere P Q (offline_all ts s)
  unfolding offline_all
  offline_all-Everywhere [] s h = h
  offline_all-Everywhere (t ∷ ts) s h = offline_all-Everywhere ts _ (
      either P Q st (is_uploading t.status) _ _
        (update_task-Everywhere P Q st t.id Patch.goes_offline s tt h) h)

  pub toggle_network-Everywhere :
      (uuid : String) (s : Console) → Everywhere P Q s → Everywhere P Q (toggle_network uuid s)
  unfolding toggle_network toast
  toggle_network-Everywhere uuid s h =
      either P Q st s.network_online _ _
        (same refl refl refl (offline_all-Everywhere s.tasks_ref s h))
        (same refl refl refl
          (resume_all-Everywhere _ true s.mounted_online s.tasks_ref _ (same refl refl refl h)))

  pub on_confirm-Everywhere :
      (what : ConfirmState) (uuid : String) (s : Console)
      → Everywhere P Q s
      → Everywhere P Q (on_confirm what uuid s)
  unfolding on_confirm toast
  on_confirm-Everywhere (delete_task id) uuid s h = record {
    tasks = All-keep P (λ t. not (str_eq t.id id)) s.tasks h.tasks;
    tasks_ref = h.tasks_ref;
    jobs = h.jobs;
  }
  on_confirm-Everywhere (delete_file id) uuid s h =
      await-Everywhere P Q st (awaiting_delete id) s tt h

  pub confirm-Everywhere :
      (uuid : String) (s : Console) → Everywhere P Q s → Everywhere P Q (confirm uuid s)
  unfolding confirm
  confirm-Everywhere uuid s h = elim (Option-cases s.confirm_state) [
    | inl e ↦ rw (e, confirm) h
    | inr (what, e) ↦ rw (e, confirm) (same refl refl refl (on_confirm-Everywhere what uuid s h))
  ]

  pub select_action-Everywhere :
      (kind : UploadKind) (s : Console) → Everywhere P Q s → Everywhere P Q (select_action kind s)
  unfolding select_action recover_tasks
  select_action-Everywhere resume s h =
      await-Everywhere P Q st (awaiting_recovery _) _ tt (same refl refl refl h)
  select_action-Everywhere _ s h = same refl refl refl h

  pub after_delete-Everywhere :
      (r : Result (Unit {0})) (s : Console) → Everywhere P Q s → Everywhere P Q (after_delete r s)
  unfolding after_delete
  after_delete-Everywhere (ok _) s h = await-Everywhere P Q st (awaiting_files _) s tt h
  after_delete-Everywhere (throws e) s h = h

  pub after_recovery-Everywhere :
      (online : Bool) (uuid : String) (s : Console)
      → Everywhere P Q s
      → Everywhere P Q (after_recovery online uuid s)
  unfolding after_recovery toast
  after_recovery-Everywhere online uuid s h =
      resume_all-Everywhere _ false online s.tasks_ref _ (same refl refl refl h)
