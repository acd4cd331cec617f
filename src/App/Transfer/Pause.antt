-- ===== src/App/Transfer/Pause.antt =====
-- A pause between two chunks, the resume, and the rest of the transfer.
use cloud_file.Base.{
  ℕ, ◌+◌, ◌≡◌, refl, ap, ◌∙◌, Bool, true, false, not, String, List, [], ◌∷◌, ◌++◌, Option, some,
  str_eq, eq_refl, arith, length, keep, All,
}
use cloud_file.Ratio.{Ratio}
use cloud_file.Types.{UploadTask, Chunk}
use cloud_file.Wire.{Platform, Reply, ok}
use cloud_file.Api.{query_upload_status}
use cloud_file.App.State.{
  Console, awaiting_status, awaiting_merge, find_task, await, start_uploading,
}
use cloud_file.App.Patches.{is_uploading}
use cloud_file.App.Patch.{
  apply, patch_tasks, update_task, reconcile, reconcile_chunk, resumed, pause,
}
use cloud_file.App.Patch
use cloud_file.App.Upload.{timer_fires}
use cloud_file.App.Controls.{pause_task, resume_task, after_status}
use cloud_file.App.Step.{
  Event, timer_ends, settles, commits, status_replied, step, run, settle, commit, end_timer,
  continue_job,
}
use cloud_file.App.Jobs.{take_job-last, settle_lem}
use cloud_file.App.Lookup.{find_task-patch_self}
use cloud_file.App.Chunks.{Numbered, reconcile-Numbered}
use cloud_file.App.Chunks.Marking.{open_count, IsQuiet, IsUploaded}
use cloud_file.App.Transfer.{IsSending, timer_of, without_timer}
use cloud_file.App.Transfer.Completion.{transfer, transfer_from, run-append}

-- the events of a pause that React commits, of the timer that was armed, and of a resume that the
-- backend answers
abbrev pub pause_and_resume : String → ℕ → Reply (Option (List ℕ)) → List Event
pause_and_resume id k reply =
    Event.pauses id
    ∷ commits
    ∷ timer_ends id
    ∷ Event.resumes id
    ∷ settles k (status_replied reply)
    ∷ commits
    ∷ []

-- the task after them
abbrev pub resumed_task : UploadTask → List ℕ → UploadTask
resumed_task t indexes = apply (Patch.resumes indexes) (apply Patch.pauses t)

end_timer-paused :
    (s : Console) (id : String) (t : UploadTask) (online : Bool)
    → timer_of id s.timers ≡ some (record { task_id = id; online = online })
    → find_task id s.tasks_ref ≡ some t
    → is_uploading t.status ≡ false
    → end_timer id s ≡ without_timer id s
unfolding end_timer timer_fires
end_timer-paused s id t online armed found off =
    rw (armed, end_timer) (rw (found, timer_fires) (rw off refl))

resume_task-online :
    (s : Console) (id : String) (t : UploadTask) (online : Bool)
    → online ≡ true
    → find_task id s.tasks_ref ≡ some t
    → resume_task id false online s ≡ await (awaiting_status t true) s
unfolding resume_task
resume_task-online s id t online up found = rw up (rw (found, resume_task))

abbrev after_resume : Console → String → List ℕ → Console
after_resume s id indexes =
    let tasks = patch_tasks id (Patch.resumes indexes) (patch_tasks id Patch.pauses s.tasks) in
    record s {
      tasks = tasks;
      tasks_ref = tasks;
      mounted_online = s.network_online;
      mounted_kind = s.selected_kind;
      timers =
          record { task_id = id; online = true }
          ∷ keep (λ x. not (str_eq x.task_id id)) (without_timer id s).timers;
    }

pauses-status : (t : UploadTask) → is_uploading (apply Patch.pauses t).status ≡ false
unfolding apply pause
pauses-status t = refl

abbrev paused_console : Console → String → Console
paused_console s id =
    let tasks = patch_tasks id Patch.pauses s.tasks in
    record s {
      tasks = tasks;
      tasks_ref = tasks;
      mounted_online = s.network_online;
      mounted_kind = s.selected_kind;
    }

run-resume :
    (p : Platform) (s : Console) (t : UploadTask) (reply : Reply (Option (List ℕ)))
    (indexes : List ℕ)
    → IsSending s t.id t
    → s.network_online ≡ true
    → query_upload_status (apply Patch.pauses t) reply ≡ ok indexes
    → run p s (pause_and_resume t.id (length s.jobs) reply) ≡ after_resume s t.id indexes
unfolding run step settle commit continue_job await update_task start_uploading pause_task
    after_status apply pause
run-resume p s t reply indexes h online given =
    let stopped = paused_console s t.id in
    let found : find_task t.id stopped.tasks_ref ≡ some (apply Patch.pauses t) =
      find_task-patch_self t.id Patch.pauses s.tasks tt h.found in
    let waiting =
      await (awaiting_status (apply Patch.pauses t) true) (without_timer t.id stopped) in
    let settled =
      settle_lem p (length s.jobs) (status_replied reply) waiting
        {t = after_status (apply Patch.pauses t) true (ok indexes) (without_timer t.id stopped)}
        (take_job-last s.jobs (awaiting_status (apply Patch.pauses t) true))
        (unfold continue_job in rw given) in
    rw
      (
        end_timer-paused stopped t.id (apply Patch.pauses t) true h.armed found (pauses-status t),
        resume_task-online (without_timer t.id stopped) t.id (apply Patch.pauses t) s.network_online
            online found,
      )
      (rw settled refl)

after_resume-IsSending :
    (s : Console) (t : UploadTask) (indexes : List ℕ)
    → IsSending s t.id t
    → IsSending (after_resume s t.id indexes) t.id (resumed_task t indexes)
unfolding apply pause resumed
after_resume-IsSending s t indexes h = record {
  found =
      find_task-patch_self t.id (Patch.resumes indexes) _ tt
        (find_task-patch_self t.id Patch.pauses s.tasks tt h.found);
  committed = refl;
  armed = rw (eq_refl t.id);
  status = refl;
  has_id = h.has_id;
}

reconcile_chunk-IsQuiet : (indexes : List ℕ) (c : Chunk) → IsQuiet (reconcile_chunk indexes c)
unfolding reconcile_chunk
reconcile_chunk-IsQuiet indexes c = ground arith

reconcile-IsQuiet : (indexes : List ℕ) (cs : List Chunk) → All IsQuiet (reconcile indexes cs)
unfolding reconcile
reconcile-IsQuiet indexes [] = tt
reconcile-IsQuiet indexes (c ∷ cs) =
    (reconcile_chunk-IsQuiet indexes c, reconcile-IsQuiet indexes cs)

resumed_task-chunks :
    (t : UploadTask) (indexes : List ℕ)
    → (resumed_task t indexes).chunks ≡ reconcile indexes t.chunks
unfolding apply pause resumed
resumed_task-chunks t indexes = refl

resumed_task-uploaded :
    (t : UploadTask) (indexes : List ℕ) → (resumed_task t indexes).uploaded_chunks ≡ length indexes
unfolding apply pause resumed
resumed_task-uploaded t indexes = refl

-- A transfer is paused, React commits, the armed timer ends, the task is resumed while the network is up,
-- the backend lists the chunks that it has, and React commits. From there as many rounds as chunks are
-- open after that answer, and one more end of the timer, bring the task to its merge: the one new promise
-- is the merge, all chunks are uploaded, and the count is that of the backend's list and of the rounds.
pub resume-IsMerging :
    (p : Platform) (s : Console) (t : UploadTask) (random : Ratio) (reply : Reply (Option (List ℕ)))
    (indexes : List ℕ)
    → IsSending s t.id t
    → Numbered 0 t.chunks
    → s.network_online ≡ true
    → query_upload_status (apply Patch.pauses t) reply ≡ ok indexes
    → let k = length s.jobs in
      let todo = open_count (reconcile indexes t.chunks) in
      let s' = run p s (pause_and_resume t.id k reply ++ transfer todo t.id k random) in
      (u : UploadTask) × (s'.jobs ≡ s.jobs ++ awaiting_merge u ∷ [])
      × (find_task t.id s'.tasks ≡ some (apply Patch.starts_merge u))
      × All IsUploaded u.chunks
      × (u.uploaded_chunks ≡ length indexes + todo)
resume-IsMerging p s t random reply indexes h num online given =
    let k = length s.jobs in
    let todo = open_count (reconcile indexes t.chunks) in
    let chunks = resumed_task-chunks t indexes in
    let (u, end) =
      transfer_from todo p (after_resume s t.id indexes) t.id (resumed_task t indexes) random
        (after_resume-IsSending s t indexes h)
        (rw chunks (reconcile-Numbered indexes 0 t.chunks num))
        (rw chunks (reconcile-IsQuiet indexes t.chunks)) (ap open_count chunks) in
    let later =
      run-append p s (pause_and_resume t.id k reply) (transfer todo t.id k random)
      ∙ ap (λ x. run p x (transfer todo t.id k random))
          (run-resume p s t reply indexes h online given) in
    (
      u,
      ap (λ x. x.jobs) later ∙ end.merge,
      ap (λ x. find_task t.id x.tasks) later ∙ end.shown,
      end.all_uploaded,
      omega (arith, end.counted, resumed_task-uploaded t indexes, ap open_count chunks),
    )
