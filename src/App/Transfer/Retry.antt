-- ===== src/App/Transfer/Retry.antt =====
-- A chunk request that fails, a click on retry, and the rest of the transfer.
use mathlib.Core.Option.{some-injective}
use cloud_file.Base.{
  ℕ, suc, ◌≡◌, refl, ap, sym, ◌∙◌, subst, true, not, String, List, [], ◌∷◌, ◌++◌, map, some, str_eq,
  eq_refl, arith, length, keep, All, inl, inr,
}
use cloud_file.Ratio.{Ratio}
use cloud_file.Types.{UploadTask, Chunk, ChunkStatus}
use cloud_file.Wire.{Platform, Reply, Thrown, throws}
use cloud_file.Api.{upload_chunk}
use cloud_file.App.State.{Console, awaiting_chunk, awaiting_merge, await, start_uploading}
use cloud_file.App.Patches.{chunk_started, chunk_failed, next_chunk, mark_chunk}
use cloud_file.App.Patch.{
  starts_chunk, fails_chunk, apply, patch_tasks, update_task, reset_sending, retried,
}
use cloud_file.App.Patch
use cloud_file.App.Upload.{send_chunk, after_chunk}
use cloud_file.App.Controls.{retry_task}
use cloud_file.App.Step.{
  Event, timer_ends, settles, commits, chunk_replied, step, run, settle, commit, continue_job,
}
use cloud_file.App.Jobs.{take_job-last}
use cloud_file.App.Lookup.{find_task-patch_self}
use cloud_file.App.Chunks.{Numbered, mark_chunk-Numbered, reset-Numbered, next_chunk_bounds}
use cloud_file.App.Chunks.Marking.{
  open_count, IsQuiet, mark_chunk_twice, mark_chunk-above, mark_chunk-cons,
}
use cloud_file.App.Chunks.Resuming.{next_chunk-cases}
use cloud_file.App.Transfer.{IsSending, without_timer, end_timer-sends}
use cloud_file.App.Transfer.Completion.{transfer, transfer_from, run-append, IsMerging}

-- the events of a round that fails, and of the retry
abbrev pub failed_round : String → ℕ → Reply (Unit {0}) → Ratio → List Event
failed_round id k reply random =
    timer_ends id ∷ settles k (chunk_replied reply random) ∷ Event.retries id ∷ commits ∷ []

-- the task after them
abbrev pub retried_task : UploadTask → ℕ → Thrown → UploadTask
retried_task t index thrown =
    apply Patch.retries (apply (fails_chunk index thrown) (apply (starts_chunk index) t))

abbrev retried_tasks : String → ℕ → Thrown → List UploadTask → List UploadTask
retried_tasks id index thrown tasks =
    patch_tasks id Patch.retries
      (patch_tasks id (fails_chunk index thrown) (patch_tasks id (starts_chunk index) tasks))

abbrev after_retry : Console → String → ℕ → Thrown → Console
after_retry s id index thrown =
    let tasks = retried_tasks id index thrown s.tasks in
    record s {
      tasks = tasks;
      tasks_ref = tasks;
      mounted_online = s.network_online;
      mounted_kind = s.selected_kind;
      timers =
          record { task_id = id; online = s.mounted_online }
          ∷ keep (λ x. not (str_eq x.task_id id)) (without_timer id s).timers;
    }

run-retry :
    (p : Platform) (s : Console) (t : UploadTask) (c : Chunk) (random : Ratio)
    (reply : Reply (Unit {0})) (thrown : Thrown)
    → IsSending s t.id t
    → next_chunk t.chunks ≡ some c
    → upload_chunk t reply ≡ throws thrown
    → run p s (failed_round t.id (length s.jobs) reply random) ≡ after_retry s t.id c.index thrown
unfolding run step settle commit continue_job after_chunk send_chunk await update_task
    start_uploading retry_task
run-retry p s t c random reply thrown h e given = rw (end_timer-sends s t.id t c h e) (
    rw (take_job-last s.jobs (awaiting_chunk t c.index true), settle)
      (rw (given, continue_job) refl))

after_retry-IsSending :
    (s : Console) (t : UploadTask) (index : ℕ) (thrown : Thrown)
    → IsSending s t.id t
    → s.mounted_online ≡ true
    → IsSending (after_retry s t.id index thrown) t.id (retried_task t index thrown)
unfolding apply chunk_started chunk_failed retried
after_retry-IsSending s t index thrown h online = record {
  found = find_task-patch_self t.id Patch.retries _ tt (
      find_task-patch_self t.id (fails_chunk index thrown) _ tt
        (find_task-patch_self t.id (starts_chunk index) s.tasks tt h.found));
  committed = refl;
  armed = rw (eq_refl t.id) (ap (λ b. some (record { task_id = t.id; online = b })) online);
  status = refl;
  has_id = h.has_id;
}

-- A round that fails and is retried sends nothing twice and loses nothing.
retry-IsSending :
    (p : Platform) (s : Console) (t : UploadTask) (c : Chunk) (random : Ratio)
    (reply : Reply (Unit {0})) (thrown : Thrown)
    → IsSending s t.id t
    → s.mounted_online ≡ true
    → next_chunk t.chunks ≡ some c
    → upload_chunk t reply ≡ throws thrown
    → let s' = run p s (failed_round t.id (length s.jobs) reply random) in
      IsSending s' t.id (retried_task t c.index thrown) × (s'.jobs ≡ s.jobs)
retry-IsSending p s t c random reply thrown h online e given =
    rw (run-retry p s t c random reply thrown h e given)
      (after_retry-IsSending s t c.index thrown h online, refl)

reset_sending-IsQuiet : (c : Chunk) → IsQuiet (reset_sending c)
reset_sending-IsQuiet c = ground arith

map-IsQuiet : (cs : List Chunk) → All IsQuiet (map reset_sending cs)
map-IsQuiet [] = tt
map-IsQuiet (c ∷ cs) = (reset_sending-IsQuiet c, map-IsQuiet cs)

open_count-reset :
    (cs : List Chunk) → All IsQuiet cs → open_count (map reset_sending cs) ≡ open_count cs
unfolding open_count
open_count-reset [] quiet = refl
open_count-reset (c ∷ cs) quiet = let rest = open_count-reset cs quiet.1 in ground arith

-- Failing to send the next chunk and resetting the others leaves as many to send.
open_count-retry :
    (i : ℕ) (cs : List Chunk) (c : Chunk)
    → Numbered i cs
    → All IsQuiet cs
    → next_chunk cs ≡ some c
    → open_count (map reset_sending (mark_chunk c.index ChunkStatus.failed cs)) ≡ open_count cs
unfolding open_count
open_count-retry i [] c num quiet e = unfold next_chunk in cc
open_count-retry i (d ∷ cs) c num quiet e = elim (next_chunk-cases d cs) [
  | inl (o, f) ↦
      let same : d ≡ c = some-injective _ _ (sym f ∙ e) in
      let here : d.index ≡ c.index = ap (λ x. x.index) same in
      let there =
        mark_chunk-above c.index (suc i) ChunkStatus.failed cs (omega (arith, num.0)) num.1 in
      let rest = open_count-reset cs quiet.1 in
      ground (arith, mark_chunk-cons c.index ChunkStatus.failed d cs)
  | inr (o, f) ↦
      let later = sym f ∙ e in
      let above = next_chunk_bounds (suc i) cs c num.1 later in
      let rest = open_count-retry (suc i) cs c num.1 quiet.1 later in
      ground (arith, mark_chunk-cons c.index ChunkStatus.failed d cs)
]

retried_task-chunks :
    (t : UploadTask) (index : ℕ) (thrown : Thrown)
    → (retried_task t index thrown).chunks
      ≡ map reset_sending (mark_chunk index ChunkStatus.failed t.chunks)
unfolding apply chunk_started chunk_failed retried
retried_task-chunks t index thrown = ap (map reset_sending) (mark_chunk_twice index _ _ t.chunks)

retried_task-uploaded :
    (t : UploadTask) (index : ℕ) (thrown : Thrown)
    → (retried_task t index thrown).uploaded_chunks ≡ t.uploaded_chunks
unfolding apply chunk_started chunk_failed retried
retried_task-uploaded t index thrown = refl

-- A chunk request of a transfer fails, the retry button is pressed in a render that sees the network,
-- and React commits: from there the transfer goes through as if nothing had failed. After as many
-- answered rounds as chunks were open before the failure and one more end of the timer, the one new
-- promise is the merge of the task with all its chunks uploaded, each counted once.
pub retry-IsMerging :
    (p : Platform) (s : Console) (t : UploadTask) (c : Chunk) (random : Ratio)
    (reply : Reply (Unit {0})) (thrown : Thrown)
    → IsSending s t.id t
    → Numbered 0 t.chunks
    → All IsQuiet t.chunks
    → s.mounted_online ≡ true
    → next_chunk t.chunks ≡ some c
    → upload_chunk t reply ≡ throws thrown
    → let k = length s.jobs in
      (u : UploadTask) × IsMerging s t.id t u
        (run p s (failed_round t.id k reply random ++ transfer (open_count t.chunks) t.id k random))
retry-IsMerging p s t c random reply thrown h num quiet online e given =
    let k = length s.jobs in
    let s' = run p s (failed_round t.id k reply random) in
    let t' = retried_task t c.index thrown in
    let chunks = retried_task-chunks t c.index thrown in
    let todo = open_count-retry 0 t.chunks c num quiet e in
    let (sending, same_jobs) = retry-IsSending p s t c random reply thrown h online e given in
    let (u, end) =
      transfer_from (open_count t.chunks) p s' t.id t' random sending
        (rw chunks (reset-Numbered 0 _ (mark_chunk-Numbered c.index _ 0 t.chunks num)))
        (rw chunks (map-IsQuiet _)) (rw chunks todo) in
    let later =
      run-append p s (failed_round t.id k reply random)
        (transfer (open_count t.chunks) t.id k random)
      ∙ ap (λ js. run p s' (transfer (open_count t.chunks) t.id (length js) random))
          (sym same_jobs) in
    (
      u,
      subst (IsMerging s t.id t u) (sym later) (record {
        merge = end.merge ∙ ap (λ js. js ++ awaiting_merge u ∷ []) same_jobs;
        shown = end.shown;
        all_uploaded = end.all_uploaded;
        counted = omega (
          arith,
          end.counted,
          retried_task-uploaded t c.index thrown,
          ap open_count chunks,
          todo,
        );
      }),
    )
