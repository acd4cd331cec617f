-- ===== src/App/Transfer/Opening.antt =====
-- A file is picked, hashed and announced to the backend, and the transfer of its chunks begins.
use cloud_file.Base.{
  ℕ, zero, suc, ◌≡◌, refl, ap, sym, ◌∙◌, subst, true, false, not, String, List, [], ◌∷◌, ◌++◌, some,
  str_eq, eq_refl, arith, length, keep, All,
}
use cloud_file.Ratio.{Ratio}
use cloud_file.Types.{UploadTask, File, InitUploadResult}
use cloud_file.Wire.{Platform, Reply, ok, InitReply}
use cloud_file.Api.{init_upload, calculate_file_hash, given_id}
use cloud_file.App.State.{
  Console, awaiting_hash, awaiting_init, awaiting_merge, find_task, await, start_uploading,
}
use cloud_file.App.Patches.{new_task, hashed, open_transfer, make_chunks, make_chunks_from}
use cloud_file.App.Patch.{hashes, opens, starts_merge, apply, patch_tasks, update_task}
use cloud_file.App.Upload.{handle_files, after_hash, after_init}
use cloud_file.App.Step.{
  Event, picks, settles, commits, bytes_read, init_replied, step, run, settle, commit, continue_job,
}
use cloud_file.App.Jobs.{take_job-last, settle_lem}
use cloud_file.App.Lookup.{find_task-patch_self}
use cloud_file.App.Chunks.{make_chunks-Numbered}
use cloud_file.App.Chunks.Marking.{open_count, IsQuiet, IsUploaded}
use cloud_file.App.Transfer.{IsSending}
use cloud_file.App.Transfer.Completion.{transfer, transfer_from, run-append}

-- the events up to the reply that opens the transfer
abbrev pub opening : String → File → ℕ → ℕ → Reply InitReply → List Event
opening id file now k reply =
    picks ((id, file) ∷ []) now
    ∷ settles k (bytes_read (ok tt))
    ∷ settles k (init_replied reply)
    ∷ commits
    ∷ []

-- the task after them
abbrev pub opened_task : UploadTask → String → InitUploadResult → UploadTask
opened_task t hash r = apply (opens hash r true) (apply (hashes hash) t)

abbrev after_opening : Console → UploadTask → String → InitUploadResult → Console
after_opening s t hash r =
    let tasks =
      patch_tasks t.id (opens hash r true) (patch_tasks t.id (hashes hash) (t ∷ s.tasks)) in
    record s {
      tasks = tasks;
      tasks_ref = tasks;
      mounted_online = s.network_online;
      mounted_kind = s.selected_kind;
      timers =
          record { task_id = t.id; online = true }
          ∷ keep (λ x. not (str_eq x.task_id t.id)) s.timers;
    }

run-opening_init :
    (p : Platform) (s : Console) (id : String) (file : File) (now : ℕ) (reply : Reply InitReply)
    (r : InitUploadResult)
    → init_upload reply ≡ ok r
    → let t = new_task id file s.mounted_kind now in
      let hash = calculate_file_hash p file in
      run p s (opening id file now (length s.jobs) reply)
      ≡ commit (
          after_init p t hash s.mounted_online
            (ok r)
            (update_task t.id (hashes hash) (record s { tasks = t ∷ s.tasks })))
unfolding run step handle_files await after_hash
run-opening_init p s id file now reply r given =
    let t = new_task id file s.mounted_kind now in
    let hash = calculate_file_hash p file in
    let picked : Console = record s { tasks = t ∷ s.tasks } in
    let known = update_task t.id (hashes hash) picked in
    let first =
      settle_lem p (length s.jobs) (bytes_read (ok tt))
        (await (awaiting_hash t s.mounted_online) picked)
        {t = after_hash t s.mounted_online (ok hash) picked}
        (take_job-last s.jobs (awaiting_hash t s.mounted_online)) (unfold continue_job in refl) in
    let second =
      settle_lem p (length s.jobs) (init_replied reply)
        (await (awaiting_init t hash s.mounted_online) known)
        {t = after_init p t hash s.mounted_online (ok r) known}
        (take_job-last s.jobs (awaiting_init t hash s.mounted_online))
        (unfold continue_job in rw given) in
    ap (λ x. commit (settle p (length s.jobs) (init_replied reply) x)) first ∙ ap commit second

run-opening :
    (p : Platform) (s : Console) (id : String) (file : File) (now : ℕ) (reply : Reply InitReply)
    (r : InitUploadResult)
    → s.mounted_online ≡ true
    → init_upload reply ≡ ok r
    → r.instant ≡ false
    → run p s (opening id file now (length s.jobs) reply)
      ≡ after_opening s (new_task id file s.mounted_kind now) (calculate_file_hash p file) r
unfolding commit after_init update_task start_uploading
run-opening p s id file now reply r online given send =
    let t = new_task id file s.mounted_kind now in
    let hash = calculate_file_hash p file in
    let known = update_task t.id (hashes hash) (record s { tasks = t ∷ s.tasks }) in
    run-opening_init p s id file now reply r given
    ∙ subst (λ b. commit (after_init p t hash b (ok r) known) ≡ after_opening s t hash r)
        (sym online) (rw send refl)

find_task-new : (t : UploadTask) (ts : List UploadTask) → find_task t.id (t ∷ ts) ≡ some t
unfolding find_task
find_task-new t ts = rw (eq_refl t.id)

after_opening-IsSending :
    (s : Console) (t : UploadTask) (hash : String) (r : InitUploadResult) (upload_id : String)
    → given_id r.upload_id ≡ some upload_id
    → IsSending (after_opening s t hash r) t.id (opened_task t hash r)
unfolding apply hashed open_transfer
after_opening-IsSending s t hash r upload_id given = record {
  found =
      find_task-patch_self t.id (opens hash r true) _ tt
        (find_task-patch_self t.id (hashes hash) (t ∷ s.tasks) tt (find_task-new t s.tasks));
  committed = refl;
  armed = rw (eq_refl t.id);
  status = refl;
  has_id = (upload_id, given);
}

make_chunks_from-todo :
    (i n : ℕ) → All IsQuiet (make_chunks_from i n) × (open_count (make_chunks_from i n) ≡ n)
unfolding make_chunks_from open_count
make_chunks_from-todo i zero = (tt, refl)
make_chunks_from-todo i (suc n) =
    let rest = make_chunks_from-todo (suc i) n in ((ground arith, rest.0), ap suc rest.1)

make_chunks-todo : (n : ℕ) → All IsQuiet (make_chunks n) × (open_count (make_chunks n) ≡ n)
unfolding make_chunks
make_chunks-todo n = make_chunks_from-todo 0 n

opened_task-chunks :
    (t : UploadTask) (hash : String) (r : InitUploadResult)
    → ((opened_task t hash r).chunks ≡ make_chunks r.chunk_count)
      × ((opened_task t hash r).uploaded_chunks ≡ t.uploaded_chunks)
unfolding apply hashed open_transfer
opened_task-chunks t hash r = (refl, refl)

new_task-id :
    (id : String) (s : Console) (file : File) (now : ℕ)
    → ((new_task id file s.mounted_kind now).id ≡ id)
      × ((new_task id file s.mounted_kind now).uploaded_chunks ≡ 0)
unfolding new_task
new_task-id id s file now = (refl, refl)

-- A file is picked in a render that sees the network, read, and announced to the backend, which answers
-- that it has to be sent and gives an upload id; React commits. From there as many answered rounds as the
-- backend wants chunks, and one more end of the timer, bring the task to its merge: the one new promise
-- is the merge, all chunks are uploaded, and as many are counted as the backend wanted.
pub picks-IsMerging :
    (p : Platform) (s : Console) (id : String) (file : File) (now : ℕ) (reply : Reply InitReply)
    (r : InitUploadResult) (upload_id : String) (random : Ratio)
    → s.mounted_online ≡ true
    → init_upload reply ≡ ok r
    → r.instant ≡ false
    → given_id r.upload_id ≡ some upload_id
    → let k = length s.jobs in
      let s' = run p s (opening id file now k reply ++ transfer r.chunk_count id k random) in
      (u : UploadTask) × (s'.jobs ≡ s.jobs ++ awaiting_merge u ∷ [])
      × (find_task id s'.tasks ≡ some (apply starts_merge u))
      × All IsUploaded u.chunks
      × (u.uploaded_chunks ≡ r.chunk_count)
unfolding new_task
picks-IsMerging p s id file now reply r upload_id random online given send has_id =
    let k = length s.jobs in
    let t = new_task id file s.mounted_kind now in
    let hash = calculate_file_hash p file in
    let n = r.chunk_count in
    let (chunks, sent) = opened_task-chunks t hash r in
    let (quiet, todo) = make_chunks-todo n in
    let (u, end) =
      transfer_from n p (after_opening s t hash r) id (opened_task t hash r) random
        (after_opening-IsSending s t hash r upload_id has_id) (rw chunks (make_chunks-Numbered n))
        (rw chunks quiet) (rw chunks todo) in
    let later =
      run-append p s (opening id file now k reply) (transfer n id k random)
      ∙ ap (λ x. run p x (transfer n id k random))
          (run-opening p s id file now reply r online given send) in
    (
      u,
      ap (λ x. x.jobs) later ∙ end.merge,
      ap (λ x. find_task id x.tasks) later ∙ end.shown,
      end.all_uploaded,
      omega (arith, end.counted, sent, ap open_count chunks, todo),
    )
