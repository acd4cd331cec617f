-- ===== src/App/Transfer/Completion.antt =====
-- The whole transfer of a task: as many rounds as chunks are open, then the merge.
use cloud_file.Base.{
  ℕ, zero, suc, ◌+◌, ◌≡◌, refl, ap, sym, ◌∙◌, subst, String, List, [], ◌∷◌, ◌++◌, some, arith,
  length, All,
}
use cloud_file.Ratio.{Ratio}
use cloud_file.Types.{UploadTask, ChunkStatus}
use cloud_file.Wire.{Platform}
use cloud_file.App.State.{Console, awaiting_merge, find_task}
use cloud_file.App.Patches.{chunk_started, chunk_sent, mark_chunk}
use cloud_file.App.Patch.{starts_merge, apply}
use cloud_file.App.Step.{Event, timer_ends, run, step}
use cloud_file.App.Chunks.{Numbered, mark_chunk-Numbered}
use cloud_file.App.Chunks.Marking.{
  open_count, IsQuiet, IsUploaded, mark_chunk_twice, open_count-mark_chunk, mark_chunk-IsQuiet,
  next_chunk-none-IsUploaded, open_count-zero, open_count-suc,
}
use cloud_file.App.Transfer.{IsSending, round, sent_task, round-IsSending, timer_ends-merges}

-- the events of a transfer of `n` chunks
unfoldable pub transfer : ℕ → String → ℕ → Ratio → List Event
transfer zero id k random = timer_ends id ∷ []
transfer (suc n) id k random = round id k random ++ transfer n id k random

pub run-append :
    (p : Platform) (s : Console) (es fs : List Event) → run p s (es ++ fs) ≡ run p (run p s es) fs
unfolding run
run-append p s [] fs = refl
run-append p s (e ∷ es) fs = run-append p (step p s e) es fs

sent_task-chunks :
    (t : UploadTask) (index : ℕ) (random : Ratio)
    → (sent_task t index random).chunks ≡ mark_chunk index ChunkStatus.uploaded t.chunks
unfolding apply chunk_started chunk_sent
sent_task-chunks t index random = mark_chunk_twice index _ _ t.chunks

sent_task-uploaded :
    (t : UploadTask) (index : ℕ) (random : Ratio)
    → (sent_task t index random).uploaded_chunks ≡ t.uploaded_chunks + 1
unfolding apply chunk_started chunk_sent
sent_task-uploaded t index random = refl

-- What a transfer ends in: one more promise, the merge of the task, whose chunks are all uploaded and
-- counted, and which the console shows as merging.
pub record IsMerging (s : Console) (id : String) (t : UploadTask) (u : UploadTask) (s' : Console)
    : Type 0 where
  pub merge : s'.jobs ≡ s.jobs ++ awaiting_merge u ∷ []
  pub shown : find_task id s'.tasks ≡ some (apply starts_merge u)
  pub all_uploaded : All IsUploaded u.chunks
  pub counted : u.uploaded_chunks ≡ t.uploaded_chunks + open_count t.chunks

pub transfer_from :
    (n : ℕ) (p : Platform) (s : Console) (id : String) (t : UploadTask) (random : Ratio)
    → IsSending s id t
    → Numbered 0 t.chunks
    → All IsQuiet t.chunks
    → open_count t.chunks ≡ n
    → (u : UploadTask) × IsMerging s id t u (run p s (transfer n id (length s.jobs) random))
unfolding transfer
transfer_from zero p s id t random h num quiet todo =
    let none_left = open_count-zero t.chunks todo in
    let end = timer_ends-merges p s id t h none_left in
    (
      t,
      record {
        merge = unfold run in end.0;
        shown = unfold run in end.1;
        all_uploaded = next_chunk-none-IsUploaded t.chunks none_left quiet;
        counted = omega (arith, todo);
      },
    )
transfer_from (suc n) p s id t random h num quiet todo =
    let (c, next) = open_count-suc n t.chunks todo in
    let (sending, same_jobs) = round-IsSending p s id t c random h next in
    let chunks = sent_task-chunks t c.index random in
    let fewer = open_count-mark_chunk 0 t.chunks c num next in
    let s' = run p s (round id (length s.jobs) random) in
    let (u, end) =
      transfer_from n p s' id (sent_task t c.index random) random sending
        (rw chunks (mark_chunk-Numbered c.index _ 0 t.chunks num))
        (rw chunks (mark_chunk-IsQuiet c.index t.chunks quiet)) (rw chunks (omega arith)) in
    let later =
      run-append p s (round id (length s.jobs) random) (transfer n id (length s.jobs) random)
      ∙ ap (λ js. run p s' (transfer n id (length js) random)) (sym same_jobs) in
    let counted : u.uploaded_chunks ≡ t.uploaded_chunks + open_count t.chunks =
      omega (arith, end.counted, sent_task-uploaded t c.index random, ap open_count chunks, todo) in
    (
      u,
      subst (IsMerging s id t u) (sym later) (record {
        merge = end.merge ∙ ap (λ js. js ++ awaiting_merge u ∷ []) same_jobs;
        shown = end.shown;
        all_uploaded = end.all_uploaded;
        counted = counted;
      }),
    )

-- A task that is being sent, with its chunks numbered, none on its way and `n` of them open, is through
-- after `n` answered rounds and one more end of its timer: exactly one promise has come to be, the
-- merge of the task with all its chunks uploaded and counted, and the console shows it as merging.
pub transfer-IsMerging :
    (p : Platform) (s : Console) (id : String) (t : UploadTask) (random : Ratio)
    → IsSending s id t
    → Numbered 0 t.chunks
    → All IsQuiet t.chunks
    → (u : UploadTask) × IsMerging s id t u
        (run p s (transfer (open_count t.chunks) id (length s.jobs) random))
transfer-IsMerging p s id t random h num quiet =
    transfer_from (open_count t.chunks) p s id t random h num quiet refl
