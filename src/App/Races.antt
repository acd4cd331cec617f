-- ===== src/App/Races.antt =====
-- What happens when a click comes between a request and its reply, and what a closure does that
-- captured an old `networkOnline`.
use cloud_file.Base.{
  ℕ, ◌≡◌, refl, sym, ◌∙◌, subst, Bool, true, false, String, List, [], ◌∷◌, some, eq_refl,
  if◌then◌else◌, All, Option-cases, inl, inr,
}
use cloud_file.Types.{UploadStatus, offline, UploadTask}
use cloud_file.Wire.{Platform, accepted, ok}
use cloud_file.Api.{given_id, query_upload_status}
use cloud_file.App.State.{Console, Job, awaiting_status, await, find_task, start_uploading, toast}
use cloud_file.App.Patches.{is_uploading, go_offline}
use cloud_file.App.Patch.{apply, patch_tasks, update_task, resumed, goes_offline, resumes}
use cloud_file.App.Upload.{timer_fires, upload_next}
use cloud_file.App.Controls.{after_status, resume_task, resume_all, toggle_network}
use cloud_file.App.Step.{
  Event, step, run, take_job, continue_job, end_timer, commit, timer_ends, settles, commits,
  toggles, status_replied,
}
use cloud_file.App.Transfer.{timer_of, without_timer}
use cloud_file.App.Jobs.{take_job-All, settle_lem}
use cloud_file.App.Lookup.{find_task-id, find_task-patch_self}
use cloud_file.App.Invariant.{All-append}

-- A status query of a closure that saw no network.
abbrev pub IsStale : Job → Type 0
IsStale (awaiting_status t online) = online ≡ false
IsStale _ = Unit

resume_task-IsStale :
    (id : String) (s : Console)
    → All IsStale s.jobs
    → All IsStale (resume_task id true false s).jobs
unfolding resume_task await
resume_task-IsStale id s h = elim (Option-cases (find_task id s.tasks_ref)) [
  | inl e ↦ rw (e, resume_task) h
  | inr (t, e) ↦
      rw (e, resume_task) (All-append IsStale s.jobs (awaiting_status t false ∷ []) h (refl, tt))
]

either-IsStale :
    (b : Bool) (s t : Console)
    → All IsStale s.jobs
    → All IsStale t.jobs
    → All IsStale (if b then s else t).jobs
either-IsStale true s t h k = h
either-IsStale false s t h k = k

resume_all-IsStale :
    (test : UploadStatus → Bool) (ts : List UploadTask) (s : Console)
    → All IsStale s.jobs
    → All IsStale (resume_all test true false ts s).jobs
unfolding resume_all
resume_all-IsStale test [] s h = h
resume_all-IsStale test (t ∷ ts) s h =
    resume_all-IsStale test ts _
      (either-IsStale (test t.status) _ s (resume_task-IsStale t.id s h) h)

toggles-IsStale :
    (p : Platform) (s : Console) (uuid : String)
    → s.network_online ≡ false
    → s.mounted_online ≡ false
    → All IsStale s.jobs
    → All IsStale (step p s (toggles uuid)).jobs
unfolding step toggle_network toast
toggles-IsStale p s uuid off mounted h = rw off (rw mounted (resume_all-IsStale _ s.tasks_ref _ h))

toggles-online :
    (p : Platform) (s : Console) (uuid : String)
    → s.network_online ≡ false
    → (step p s (toggles uuid)).network_online ≡ true
unfolding step toggle_network
toggles-online p s uuid off = rw off

-- A status query of a closure that saw no network, answered; then React commits and the timer ends.
abbrev pub answered : ℕ → List ℕ → String → List Event
answered n indexes id =
    settles n (status_replied (accepted (some indexes))) ∷ commits ∷ timer_ends id ∷ []

query-accepted :
    (t : UploadTask) (indexes : List ℕ) (id : String)
    → given_id t.upload_id ≡ some id
    → query_upload_status t (accepted (some indexes)) ≡ ok indexes
unfolding query_upload_status
query-accepted t indexes id h = rw (h, query_upload_status)

end_timer_stale :
    (s : Console) (id : String) (u : UploadTask)
    → timer_of id s.timers ≡ some (record { task_id = id; online = false })
    → find_task id s.tasks_ref ≡ some u
    → is_uploading u.status ≡ true
    → end_timer id s ≡ update_task u.id goes_offline (without_timer id s)
unfolding end_timer timer_fires upload_next
end_timer_stale s id u armed found up = rw (armed, end_timer) (rw (found, timer_fires) (rw up))

resumes-status :
    (indexes : List ℕ) (u : UploadTask) → is_uploading (apply (resumes indexes) u).status ≡ true
unfolding apply resumed
resumes-status indexes u = refl

stale_answer :
    (p : Platform) (s : Console) (n : ℕ) (t u : UploadTask) (id : String) (rest : List Job)
    (indexes : List ℕ)
    → take_job n s.jobs ≡ some (awaiting_status t false, rest)
    → given_id t.upload_id ≡ some id
    → find_task t.id s.tasks ≡ some u
    → let r = run p s (answered n indexes t.id) in
      (r.network_online ≡ s.network_online)
      × (r.jobs ≡ rest)
      × (find_task t.id r.tasks ≡ some (apply goes_offline (apply (resumes indexes) u)))
unfolding run step commit after_status start_uploading update_task
stale_answer p s n t u id rest indexes e i f =
    let resumed_tasks = patch_tasks t.id (resumes indexes) s.tasks in
    let v = apply (resumes indexes) u in
    let found : find_task t.id resumed_tasks ≡ some v =
      find_task-patch_self t.id (resumes indexes) s.tasks tt f in
    let is_id : v.id ≡ t.id = find_task-id t.id resumed_tasks found in
    let settled =
      settle_lem p n (status_replied (accepted (some indexes))) s
        {t = after_status t false (ok indexes) (record s { jobs = rest })} e
        (unfold continue_job in rw (query-accepted t indexes id i)) in
    rw settled (
      rw
        (end_timer_stale (commit (after_status t false (ok indexes) (record s { jobs = rest })))
          t.id v (rw (eq_refl t.id)) found (resumes-status indexes u))
        (
          refl,
          refl,
          subst
              (λ x.
                find_task t.id (patch_tasks x goes_offline resumed_tasks)
                ≡ some (apply goes_offline v))
              (sym is_id) (find_task-patch_self t.id goes_offline resumed_tasks tt found),
        ))

-- The network comes back: the button was pressed while both the state and the closures of the last
-- render say that it is down, and no query of another closure is under way. Whichever status query is
-- then under way for a task with an upload id, once it is answered, React has committed and the
-- task's timer has ended, the console says that the network is up, no chunk request was sent, and the
-- task is as `网络已断开` leaves it.
pub reconnect_stalls :
    (p : Platform) (s : Console) (uuid : String) (n : ℕ) (t u : UploadTask) (online : Bool)
    (id : String) (rest : List Job) (indexes : List ℕ)
    → s.network_online ≡ false
    → s.mounted_online ≡ false
    → All IsStale s.jobs
    → take_job n (step p s (toggles uuid)).jobs ≡ some (awaiting_status t online, rest)
    → given_id t.upload_id ≡ some id
    → find_task t.id (step p s (toggles uuid)).tasks ≡ some u
    → let r = run p (step p s (toggles uuid)) (answered n indexes t.id) in
      (r.network_online ≡ true)
      × (r.jobs ≡ rest)
      × (find_task t.id r.tasks ≡ some (apply goes_offline (apply (resumes indexes) u)))
      × ((apply goes_offline (apply (resumes indexes) u)).status ≡ offline)
unfolding apply go_offline
reconnect_stalls p s uuid n t u online id rest indexes off mounted stale e i f =
    let is_stale : online ≡ false =
      (take_job-All IsStale n _ e (toggles-IsStale p s uuid off mounted stale)).0 in
    let e' =
      subst (λ b. take_job n (step p s (toggles uuid)).jobs ≡ some (awaiting_status t b, rest))
        is_stale e in
    let stalled = stale_answer p (step p s (toggles uuid)) n t u id rest indexes e' i f in
    (stalled.0 ∙ toggles-online p s uuid off, stalled.1, stalled.2, refl)
