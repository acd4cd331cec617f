-- ===== src/Server/Media/Retries.antt =====
-- backend/internal/service/service.go: the runs of a media task that always fails.
use cloud_file.Base.{
  ℕ, zero, suc, ◌+◌, ◌==◌, ◌≡◌, refl, sym, ap, subst, ◌∙◌, true, String, [], ◌∷◌, keep, find, arith,
}
use cloud_file.Server.Model.{MediaTask, MediaTaskStatus}
use cloud_file.Server.Action.{
  failure, Outcome, done, fails, Action, pure, reads, attempt, ignore, ◌>>◌,
}
use cloud_file.Server.Action.Rules.{Ends, Ensures-pure, Ensures-bind, Ensures-then, Ensures-attempt}
use cloud_file.Server.Storage.{ObjectStore}
use cloud_file.Server.World.{Tables, World, change, stored}
use cloud_file.Server.World.Quiet.{Quiet, Returns, Quiet-change, Quiet-first, given}
use cloud_file.Server.Media.{
  is_runnable, started_media, start_media, save_media, failed_run, find_media, end_media,
  run_started, run_media_task,
}
use cloud_file.Server.Media.Attempts.{
  find-only, Only, next_row, started-Only, saved-Only, failed_run-id, IsDead, tried_row,
  next_row-last, next_row-more,
}

settled :
    {W A : Type 0} (P : W → Type 0) (a : A) (r : Outcome A) (w : W)
    → Ends (λ b w. P w × (b ≡ a)) (λ w. ⊥) (r, w)
    → P w
settled P a (done b) w h = h.0
settled P a (fails f) w h = absurd h

module _ {S : ObjectStore} (process : MediaTask → Action S.State (Unit {0})) (e : String)
    (fail : (m : MediaTask) (s : S.State) → (process m s).0 ≡ fails (failure e)) (now : ℕ)
    (id : ℕ) where
  ran :
      (T : Tables → Type 0) (m : MediaTask)
      → Returns
          (Quiet S now T)
          (attempt (stored {S = S} (process m)))
          (λ r w. Quiet S now T w × (r ≡ fails (failure e)))
  unfolding attempt stored
  ran T m = record {
    from = λ w h.
        (record { open_faults = h.open_faults; time = h.time; rows = h.rows }, fail m w.objects);
  }

  read_now :
      (T : Tables → Type 0)
      → Returns (Quiet S now T) (reads (λ w. w.now)) (λ n w. Quiet S now T w × (n ≡ now))
  unfolding reads
  read_now T = record { from = λ w h. (h, h.time) }

  found_media :
      (m : MediaTask)
      → Returns
          (Quiet S now (Only id m))
          (find_media id)
          (λ b w. Quiet S now (Only id m) w × (b ≡ m))
  found_media m =
      Quiet-first now (Only id m) m (λ t. find (λ x. x.id == id) t.media_tasks)
        (λ t o. find-only _ t.media_tasks m o)

  saved :
      (m row : MediaTask)
      → (m.id == id) ≡ true
      → row.id ≡ m.id
      → Returns
          (Quiet S now (Only id m))
          (ignore (change (save_media row now)))
          (λ a. Quiet S now (Only id (record row { updated_at = now })))
  unfolding ignore
  saved m row i same =
      Ensures-then
        (Ensures-attempt {F = λ w. ⊥} (
          Quiet-change now (Only id (record row { updated_at = now })) tt (save_media row now)
            (λ t o. (refl, saved-Only id now m row t i same o))))
        (λ r. Ensures-pure tt (settled _ tt r))

  ended :
      (m : MediaTask)
      → (m.id == id) ≡ true
      → Returns
          (Quiet S now (Only id m))
          (end_media m now (fails (failure e)))
          (λ v. Quiet S now (Only id (record (failed_run m e).0 { updated_at = now })))
  unfolding end_media
  ended m i =
      Ensures-then (saved m (failed_run m e).0 i (failed_run-id m e))
        (λ _. Ensures-pure _ (λ w h. h))

  -- one run
  run_started-Returns :
      (m : MediaTask)
      → (m.id == id) ≡ true
      → Returns
          (Quiet S now (Only id m))
          (run_started {S = S} process id)
          (λ v. Quiet S now (Only id (record (failed_run m e).0 { updated_at = now })))
  unfolding run_started
  run_started-Returns m i = Ensures-bind (read_now (Only id m)) (
      given now _ (
        Ensures-bind (found_media m)
          (given m _ (Ensures-bind (ran (Only id m) m) (given (fails (failure e)) _ (ended m i))))))

  run-Returns :
      (m : MediaTask)
      → (m.id == id) ≡ true
      → is_runnable m.status ≡ true
      → Returns
          (Quiet S now (Only id m))
          (run_media_task {S = S} process id)
          (λ v. Quiet S now (Only id (next_row now e m)))
  unfolding run_media_task
  run-Returns m i r = Ensures-bind (read_now (Only id m)) (
      given now _ (
        Ensures-bind (found_media m) (
          given m _ (
            rw r (
              Ensures-bind
                (Quiet-change now (Only id (started_media now m)) 1 (start_media id now)
                  (λ t o. started-Only id now m t i r o))
                (given 1 _ (run_started-Returns (started_media now m) i)))))))

  -- `n` messages for the task, one after the other
  unfoldable pub run_times : ℕ → Action (World S) (Unit {0})
  run_times zero = pure tt
  run_times (suc n) = run_media_task {S = S} process id >> run_times n

  runs-IsDead :
      (k : ℕ) (m : MediaTask)
      → (m.id == id) ≡ true
      → is_runnable m.status ≡ true
      → m.retry_count + suc k ≡ m.max_retry
      → Returns
          (Quiet S now (Only id m))
          (run_times (suc k))
          (λ a. Quiet S now (IsDead id m.max_retry))
  unfolding run_times
  runs-IsDead zero m i r h = Ensures-then (run-Returns m i r) (λ v. Ensures-pure tt (λ w q. record {
    open_faults = q.open_faults;
    time = q.time;
    rows = record {
      row = next_row now e m;
      only = q.rows;
      status = ap (λ x. x.status) (next_row-last now e m (omega (arith, h)));
      tries = ap (λ x. x.retry_count) (next_row-last now e m (omega (arith, h))) ∙ omega (arith, h);
    };
  }))
  runs-IsDead (suc k) m i r h = Ensures-then (run-Returns m i r) (λ v.
      subst
        (λ x.
          Returns (Quiet S now (Only id x)) (run_times (suc k))
            (λ a. Quiet S now (IsDead id m.max_retry)))
        (sym (next_row-more now e m k h))
        (runs-IsDead k (tried_row MediaTaskStatus.failed now e m) i refl (omega (arith, h))))

  IsDead-by :
      (n : ℕ) (x : Outcome (Unit {0}) × World S)
      → Ends (λ a. Quiet S now (IsDead id n)) (λ w. ⊥) x
      → IsDead id n x.1.tables
  IsDead-by n (done a, w) h = h.rows
  IsDead-by n (fails f, w) h = absurd h

  -- Where the database refuses nothing, and the processing of the one media task of an id always fails,
  -- with the same error: a pending or failed task that has `k + 1` tries left is dead after `k + 1`
  -- messages, with as many tries counted as it may have.
  pub run_times-IsDead :
      (k : ℕ) (m : MediaTask) (w : World S)
      → (m.id == id) ≡ true
      → is_runnable m.status ≡ true
      → m.retry_count + suc k ≡ m.max_retry
      → w.faults ≡ []
      → w.now ≡ now
      → keep (λ x. x.id == id) w.tables.media_tasks ≡ m ∷ []
      → IsDead id m.max_retry (run_times (suc k) w).1.tables
  run_times-IsDead k m w i r h f n o =
      IsDead-by m.max_retry (run_times (suc k) w)
        ((runs-IsDead k m i r h).from w (record { open_faults = f; time = n; rows = o }))
