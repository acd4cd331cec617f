-- ===== src/Server/Media.antt =====
-- backend/internal/service/service.go: `RunMediaTask`, and the copying processor of
-- backend/internal/media/processor.go.
pub mod Attempts
pub mod Retries
use cloud_file.Base.{
  ℕ, suc, ◌+◌, ◌-◌, ◌==◌, Bool, true, false, not, ◌&&◌, ◌||◌, String, List, [], ◌∷◌, ◌++◌, map,
  Option, none, some, str_eq, ltb, leb, keep, find, length, if◌then◌else◌,
}
use cloud_file.Server.Model.{UploadStatus, MediaTaskStatus, UploadTask, MediaTask, is_merging}
use cloud_file.Server.Action.{
  Failure, not_found, failure, Outcome, done, fails, Action, pure, raise, reads, attempt, ◌>>=◌,
  ◌>>◌, ignore,
}
use cloud_file.Server.Storage.{ObjectStore}
use cloud_file.Server.World.{
  Config, Tables, World, find_rows, first_row, change, stored, publish_media_task, publish_dead,
  change_rows,
}
use cloud_file.Server.Merge.{error_text}

-- what the worker is told to do with the message
pub data Verdict : Type 0 where
  ack retry dead : Verdict

abbrev pub is_runnable : MediaTaskStatus → Bool
is_runnable MediaTaskStatus.pending = true
is_runnable MediaTaskStatus.failed = true
is_runnable _ = false

-- the update that lets one worker run the task, with the number of rows that it found
abbrev pub can_run : ℕ → MediaTask → Bool
can_run id m = m.id == id && is_runnable m.status

abbrev pub started_media : ℕ → MediaTask → MediaTask
started_media now m = record m {
  status = MediaTaskStatus.processing;
  error_msg = "";
  updated_at = now;
}

abbrev pub start_media : ℕ → ℕ → Tables → ℕ × Tables
start_media id now t = (
  length (keep (can_run id) t.media_tasks),
  record t { media_tasks = change_rows (can_run id) (started_media now) t.media_tasks },
)

-- `Save` of a task
abbrev pub save_media : MediaTask → ℕ → Tables → Unit {0} × Tables
save_media task now t = (
  tt,
  record t {
    media_tasks =
        change_rows (λ m. m.id == task.id) (λ _. record task { updated_at = now }) t.media_tasks;
  },
)

-- the row that a failed run saves, and what becomes of the message
abbrev pub failed_run : MediaTask → String → MediaTask × Verdict
failed_run task e =
    let tried = record task { retry_count = task.retry_count + 1; error_msg = e } in
    if leb tried.max_retry tried.retry_count
    then (record tried { status = MediaTaskStatus.dead }, dead)
    else (record tried { status = MediaTaskStatus.failed }, retry)

-- `CopyProcessor.Process`
abbrev pub copy_object : (S : ObjectStore) → MediaTask → Action S.State (Unit {0})
copy_object S task = S.get_object task.input_object_key >>= S.put_object task.output_object_key

module _ {S : ObjectStore} where
  abbrev pub find_media : ℕ → Action (World S) MediaTask
  find_media id = first_row (λ t. find (λ m. m.id == id) t.media_tasks)

  -- `MediaTask`
  unfoldable pub media_task : ℕ → Action (World S) MediaTask
  unfolding first_row
  media_task id = find_media id

  -- the end of a run: what is saved and what becomes of the message
  unfoldable pub end_media : MediaTask → ℕ → Outcome (Unit {0}) → Action (World S) Verdict
  unfolding change
  end_media task now (done x) =
      change (save_media (record task { status = MediaTaskStatus.success; error_msg = "" }) now)
      >> pure ack
  end_media task now (fails e) =
      ignore (change (save_media (failed_run task (error_text e)).0 now))
      >> pure (failed_run task (error_text e)).1

  -- a run of a task that is there to be run
  unfoldable pub run_started :
      (MediaTask → Action S.State (Unit {0})) → ℕ → Action (World S) Verdict
  unfolding first_row stored end_media
  run_started process id = do
    now ← reads (λ w. w.now)
    task ← find_media id
    run ← attempt (stored {S = S} (process task))
    end_media task now run

  -- `RunMediaTask`, of which `process` is the processor. An error comes with `Ack`.
  unfoldable pub run_media_task :
      (MediaTask → Action S.State (Unit {0})) → ℕ → Action (World S) Verdict
  unfolding first_row change run_started
  run_media_task process id = do
    now ← reads (λ w. w.now)
    task ← find_media id
    (if is_runnable task.status
        then (change (start_media id now) >>= λ started.
            if started == 1 then run_started process id else pure ack)
        else pure ack)
