-- ===== src/App/Transfer.antt =====
-- One task's transfer, round by round: its timer ends, the chunk request is answered, React commits.
pub mod Completion
pub mod Retry
pub mod Opening
pub mod Pause
use mathlib.Core.Option.{some-injective}
use cloud_file.Base.{
  ℕ, zero, suc, ◌+◌, ◌≡◌, refl, ap, sym, ◌∙◌, subst, Bool, true, false, String, List, [], ◌∷◌, ◌++◌,
  Option, none, some, str_eq, eq_iff, eq_refl, if◌then◌else◌, arith, length, find, keep, not,
}
use cloud_file.Ratio.{Ratio}
use cloud_file.Types.{UploadStatus, uploading, UploadTask, Chunk}
use cloud_file.Wire.{Platform, Reply, accepted, ok, Result, error, request, throws}
use cloud_file.Api.{upload_chunk, given_id}
use cloud_file.App.State.{
  Console, Job, awaiting_chunk, awaiting_merge, await, Timer, find_task, start_uploading,
}
use cloud_file.App.Patches.{chunk_started, chunk_sent, next_chunk, is_uploading}
use cloud_file.App.Patch.{
  Patch, starts_merge, starts_chunk, sends_chunk, apply, patch_tasks, update_task,
}
use cloud_file.App.Upload.{finish_upload, timer_fires, upload_next, send_chunk, after_chunk}
use cloud_file.App.Step.{
  Event, timer_ends, settles, commits, chunk_replied, step, run, end_timer, settle, commit,
  take_job, continue_job,
}
use cloud_file.App.Jobs.{take_job-last}
use cloud_file.App.Lookup.{find_task-id, find_task-patch_self}

abbrev pub timer_of : String → List Timer → Option Timer
timer_of id timers = find (λ t. str_eq t.task_id id) timers

-- The task is on its way to the backend: it has an upload id and an armed timer of a closure that
-- saw the network, and React has committed.
pub record IsSending (s : Console) (id : String) (t : UploadTask) : Type 0 where
  pub found : find_task id s.tasks ≡ some t
  pub committed : s.tasks_ref ≡ s.tasks
  pub armed : timer_of id s.timers ≡ some (record { task_id = id; online = true })
  pub status : t.status ≡ uploading
  pub has_id : (u : String) × (given_id t.upload_id ≡ some u)

-- the events of one round; the request of the round settles as the last job of `k + 1`
abbrev pub round : String → ℕ → Ratio → List Event
round id k random = timer_ends id ∷ settles k (chunk_replied (accepted tt) random) ∷ commits ∷ []

abbrev pub without_timer : String → Console → Console
without_timer id s = record s { timers = keep (λ t. not (str_eq t.task_id id)) s.timers }

pub end_timer-sends :
    (s : Console) (id : String) (t : UploadTask) (c : Chunk)
    → IsSending s id t
    → next_chunk t.chunks ≡ some c
    → end_timer id s ≡ send_chunk t c.index true (without_timer id s)
unfolding end_timer timer_fires upload_next
end_timer-sends s id t c h e =
    let in_ref : find_task id s.tasks_ref ≡ some t = rw h.committed h.found in
    let up : is_uploading t.status ≡ true = rw h.status in
    rw (h.armed, end_timer) (rw (in_ref, timer_fires) (rw up (rw (e, upload_next))))

upload_chunk-accepted :
    (t : UploadTask) (u : String)
    → given_id t.upload_id ≡ some u
    → upload_chunk t (accepted tt) ≡ ok tt
unfolding upload_chunk
upload_chunk-accepted t u h = rw (h, upload_chunk)

-- the console after the round
abbrev after_round : Console → String → UploadTask → ℕ → Ratio → Console
after_round s id t index random =
    let tasks =
      patch_tasks t.id (sends_chunk index random) (patch_tasks t.id (starts_chunk index) s.tasks) in
    record s {
      tasks = tasks;
      tasks_ref = tasks;
      mounted_online = s.network_online;
      mounted_kind = s.selected_kind;
      timers =
          record { task_id = t.id; online = true }
          ∷ keep (λ x. not (str_eq x.task_id t.id)) (without_timer id s).timers;
    }

run-round :
    (p : Platform) (s : Console) (id : String) (t : UploadTask) (c : Chunk) (random : Ratio)
    → IsSending s id t
    → next_chunk t.chunks ≡ some c
    → run p s (round id (length s.jobs) random) ≡ after_round s id t c.index random
unfolding run step settle commit continue_job after_chunk send_chunk await update_task
    start_uploading
run-round p s id t c random h e =
    let is_id : t.id ≡ id = find_task-id id s.tasks h.found in
    let answer = upload_chunk-accepted t h.has_id.0 h.has_id.1 in
    rw (end_timer-sends s id t c h e) (
      rw (take_job-last s.jobs (awaiting_chunk t c.index true), settle)
        (rw (answer, continue_job) refl))

-- the task after the round
abbrev pub sent_task : UploadTask → ℕ → Ratio → UploadTask
sent_task t index random = apply (sends_chunk index random) (apply (starts_chunk index) t)

after_round-IsSending :
    (s : Console) (id : String) (t : UploadTask) (index : ℕ) (random : Ratio)
    → IsSending s id t
    → IsSending (after_round s id t index random) id (sent_task t index random)
unfolding apply chunk_started chunk_sent
after_round-IsSending s id t index random h =
    let is_id : t.id ≡ id = find_task-id id s.tasks h.found in
    record {
      found =
          subst
            (λ x.
              find_task id (
                patch_tasks x (sends_chunk index random)
                  (patch_tasks x (starts_chunk index) s.tasks))
              ≡ some (sent_task t index random))
            (sym is_id)
            (find_task-patch_self id (sends_chunk index random)
              (patch_tasks id (starts_chunk index) s.tasks) tt
              (find_task-patch_self id (starts_chunk index) s.tasks tt h.found));
      committed = refl;
      armed =
          subst
            (λ x.
              timer_of id (
                record { task_id = x; online = true }
                ∷ keep (λ y. not (str_eq y.task_id x)) (without_timer id s).timers)
              ≡ some (record { task_id = id; online = true }))
            (sym is_id) (rw (eq_refl id));
      status = h.status;
      has_id = h.has_id;
    }

-- A round sends the next chunk and leaves the task ready for another round, the other promises as
-- they were.
pub round-IsSending :
    (p : Platform) (s : Console) (id : String) (t : UploadTask) (c : Chunk) (random : Ratio)
    → IsSending s id t
    → next_chunk t.chunks ≡ some c
    → IsSending (run p s (round id (length s.jobs) random)) id (sent_task t c.index random)
      × ((run p s (round id (length s.jobs) random)).jobs ≡ s.jobs)
round-IsSending p s id t c random h e =
    rw (run-round p s id t c random h e) (after_round-IsSending s id t c.index random h, refl)

end_timer-merges :
    (s : Console) (id : String) (t : UploadTask)
    → IsSending s id t
    → next_chunk t.chunks ≡ none
    → end_timer id s ≡ finish_upload t (without_timer id s)
unfolding end_timer timer_fires upload_next
end_timer-merges s id t h e =
    let in_ref : find_task id s.tasks_ref ≡ some t = rw h.committed h.found in
    let up : is_uploading t.status ≡ true = rw h.status in
    rw (h.armed, end_timer) (rw (in_ref, timer_fires) (rw up (rw (e, upload_next))))

-- With nothing left to send, the end of the timer starts the merge of that very task.
pub timer_ends-merges :
    (p : Platform) (s : Console) (id : String) (t : UploadTask)
    → IsSending s id t
    → next_chunk t.chunks ≡ none
    → ((step p s (timer_ends id)).jobs ≡ s.jobs ++ awaiting_merge t ∷ [])
      × (find_task id (step p s (timer_ends id)).tasks ≡ some (apply starts_merge t))
unfolding step finish_upload await update_task
timer_ends-merges p s id t h e =
    let is_id : t.id ≡ id = find_task-id id s.tasks h.found in
    rw (end_timer-merges s id t h e) (
      refl,
      subst (λ x. find_task id (patch_tasks x starts_merge s.tasks) ≡ some (apply starts_merge t))
          (sym is_id) (find_task-patch_self id starts_merge s.tasks tt h.found),
    )
