-- ===== src/Server/Tables/Merges.antt =====
-- backend/internal/service/service.go: `MergeUpload` keeps what every change of rows but those of chunks keeps.
use cloud_file.Base.{ℕ, ◌≤◌, ◌≡◌, Bool, String, List, [], ◌∷◌, Option, none, some, refl, arith}
use cloud_file.Server.Model.{UploadTask, FileMeta, MediaTaskType}
use cloud_file.Server.Action.{Failure, not_found, failure, Outcome, done, fails, Action, writes}
use cloud_file.Server.Action.Rules.{
  Ends, Keeps, Ensures-weaken, keeps_rules, Keeps-bind, Keeps-attempt,
}
use cloud_file.Server.Storage.{ObjectStore}
use cloud_file.Server.World.{Config, Tables, World, change, transaction, release}
use cloud_file.Server.World.Rules.{On, Keeps-change, Ensures-transaction, rows_rules}
use cloud_file.Server.Rows.{create_user_file}
use cloud_file.Server.Merge.Rows.{
  start_merge, fail_upload, finish_merge, create_meta, create_media_tasks,
}
use cloud_file.Server.Merge.{
  reload_upload, mark_upload_failed, passed, or_failed, fail_unless, compose_parts, known_meta,
  merged_meta, record_merge, create_tasks, finish_merged, merge_locked, then_release, merged_before,
  merge_held, merge_upload,
}
use cloud_file.Server.Uploads.{upload_for_user}
use cloud_file.Server.Tables.Stable.{IsStable}

module _ {S : ObjectStore} {T : Tables → Type 0} (stable : IsStable T) where
  -- a change that leaves uploads and chunks, and may give ids
  pub Keeps-other :
      {A : Type 0} (f : Tables → A × Tables)
      → ((t : Tables) → (f t).1.uploads ≡ t.uploads)
      → ((t : Tables) → (f t).1.chunks ≡ t.chunks)
      → ((t : Tables) → t.next_id ≤ (f t).1.next_id)
      → Keeps (On S T) (change f)
  Keeps-other f us cs ids = Keeps-change f (λ t h. stable.grow t (f t).1 (us t) (cs t) (ids t) h)

  pub Keeps-create_user_file :
      (user_id : String) (id : ℕ) (name : String) (parent : Option ℕ) (now : ℕ)
      → Keeps (On S T) (change (create_user_file user_id id name parent now))
  Keeps-create_user_file user_id id name parent now =
      Keeps-other _ (λ t. refl) (λ t. refl) (λ t. omega arith)

  Keeps-start_merge :
      (id : ℕ) (user_id : String) (now : ℕ) → Keeps (On S T) (change (start_merge id user_id now))
  Keeps-start_merge id user_id now =
      Keeps-change _
        (λ t h. stable.update t _ _ (λ u. refl) (λ u. refl) (λ u. refl) (λ u. refl) (λ u. refl) h)

  Keeps-fail_upload :
      (id : ℕ) (e : String) (now : ℕ) → Keeps (On S T) (change (fail_upload id e now))
  Keeps-fail_upload id e now =
      Keeps-change _
        (λ t h. stable.update t _ _ (λ u. refl) (λ u. refl) (λ u. refl) (λ u. refl) (λ u. refl) h)

  Keeps-finish_merge :
      (id : ℕ) (key : String) (now : ℕ) → Keeps (On S T) (change (finish_merge id key now))
  Keeps-finish_merge id key now =
      Keeps-change _
        (λ t h. stable.update t _ _ (λ u. refl) (λ u. refl) (λ u. refl) (λ u. refl) (λ u. refl) h)

  Keeps-create_meta :
      (task : UploadTask) (key bucket : String)
      → Keeps (On S T) (change (create_meta task key bucket))
  Keeps-create_meta task key bucket = Keeps-other _ (λ t. refl) (λ t. refl) (λ t. omega arith)

  Keeps-create_media_tasks :
      (meta : FileMeta) (retries now : ℕ) (types : List MediaTaskType)
      → Keeps (On S T) (change (create_media_tasks meta retries now types))
  Keeps-create_media_tasks meta retries now types =
      Keeps-other _ (λ t. refl) (λ t. refl) (λ t. omega arith)

  pub Keeps-transaction :
      {A : Type 0} {m : Action (World S) A} → Keeps (On S T) m → Keeps (On S T) (transaction m)
  Keeps-transaction km =
      Ensures-transaction T (λ a. T) (Ensures-weaken (λ w h. h) (λ a w h. h) (λ w h. tt) km)

-- the rows are those before the lock was given back
released :
    {S : ObjectStore} {A : Type 0} (T : Tables → Type 0) (x : Outcome A × World S)
    (key value : String)
    → Ends (λ a. On S T) (On S T) x
    → Ends (λ a. On S T) (On S T) (x.0, (release key value x.1).1)
unfolding release writes
released T (done a, w) key value h = record { rows = h.rows }
released T (fails e, w) key value h = record { rows = h.rows }

ruleset merge_rules = (
  keeps_rules, rows_rules, Keeps-start_merge, Keeps-fail_upload, Keeps-finish_merge,
  Keeps-create_meta, Keeps-create_media_tasks, Keeps-create_user_file, Keeps-transaction,
)

module _ {S : ObjectStore} {T : Tables → Type 0} (stable : IsStable T) (c : Config)
    (sha256_hex : List ℕ → String) where
  mark-Keeps :
      {A : Type 0} (task : UploadTask) (e : Failure)
      → Keeps (On S T) (mark_upload_failed c sha256_hex {A = A} task e)
  unfolding mark_upload_failed
  mark-Keeps task e = search merge_rules

  passed-Keeps :
      {A : Type 0} (task : UploadTask) (r : Outcome A) → Keeps (On S T) (passed c sha256_hex task r)
  unfolding passed
  passed-Keeps task (done a) = search keeps_rules
  passed-Keeps task (fails e) = mark-Keeps task e

  or_failed-Keeps :
      {A : Type 0} (task : UploadTask) {m : Action (World S) A}
      → Keeps (On S T) m
      → Keeps (On S T) (or_failed c sha256_hex task m)
  unfolding or_failed
  or_failed-Keeps task km = Keeps-bind (Keeps-attempt km) (passed-Keeps task)

  fail_unless-Keeps :
      (task : UploadTask) (e : Failure) (b : Bool)
      → Keeps (On S T) (fail_unless c sha256_hex task e b)
  unfolding fail_unless
  fail_unless-Keeps task e b = search (keeps_rules, mark-Keeps)

  compose_parts-Keeps :
      (task : UploadTask) (keys : List String)
      → Keeps (On S T) (compose_parts c sha256_hex task keys)
  unfolding compose_parts
  compose_parts-Keeps task keys = search (merge_rules, or_failed-Keeps, fail_unless-Keeps) depth 12

  known_meta-Keeps :
      (task : UploadTask) (r : Outcome FileMeta) → Keeps (On S T) (known_meta c sha256_hex task r)
  unfolding known_meta
  known_meta-Keeps task (done meta) = search keeps_rules
  known_meta-Keeps task (fails not_found) =
      or_failed-Keeps task (Keeps-create_meta stable task _ S.bucket)
  known_meta-Keeps task (fails (failure e)) = mark-Keeps task (failure e)

  merged_meta-Keeps : (task : UploadTask) → Keeps (On S T) (merged_meta c sha256_hex task)
  unfolding merged_meta
  merged_meta-Keeps task = search (merge_rules, known_meta-Keeps)

  create_tasks-Keeps :
      (meta : FileMeta) (now : ℕ) (types : List MediaTaskType)
      → Keeps (On S T) (create_tasks c sha256_hex meta now types)
  unfolding create_tasks
  create_tasks-Keeps meta now [] = search keeps_rules
  create_tasks-Keeps meta now (ty ∷ types) = search merge_rules

  record_merge-Keeps :
      (task : UploadTask) (user_id : String) (meta : FileMeta) (now : ℕ)
      → Keeps (On S T) (record_merge c sha256_hex task user_id meta now)
  unfolding record_merge
  record_merge-Keeps task user_id meta now = search (merge_rules, create_tasks-Keeps) depth 12

  reload_upload-Keeps :
      (id : ℕ) (user_id : String) → Keeps (On S T) (reload_upload c sha256_hex id user_id)
  unfolding reload_upload upload_for_user
  reload_upload-Keeps id user_id = search merge_rules

  merge_locked-Keeps :
      (id : ℕ) (user_id : String) → Keeps (On S T) (merge_locked c sha256_hex id user_id)
  unfolding merge_locked finish_merged
  merge_locked-Keeps id user_id =
      search
        (
          merge_rules, reload_upload-Keeps, or_failed-Keeps, fail_unless-Keeps, compose_parts-Keeps,
          merged_meta-Keeps, record_merge-Keeps,
        )
        depth 24 fits 4000

  merged_before-Keeps : (task : UploadTask) → Keeps (On S T) (merged_before c sha256_hex task)
  unfolding merged_before
  merged_before-Keeps task = search merge_rules

  -- the lock is given back, however the merge ends
  Keeps-then_release :
      {A : Type 0} (key value : String) {m : Action (World S) A}
      → Keeps (On S T) m
      → Keeps (On S T) (then_release c sha256_hex key value m)
  unfolding release
  Keeps-then_release key value {m} km = record {
    from = λ w h. released T (m w) key value (km.from w h);
  }

  merge_held-Keeps :
      (id : ℕ) (user_id : String) (held : Option String)
      → Keeps (On S T) (merge_held c sha256_hex id user_id held)
  unfolding merge_held
  merge_held-Keeps id user_id none = search keeps_rules
  merge_held-Keeps id user_id (some value) =
      Keeps-then_release _ value (merge_locked-Keeps id user_id)

  pub merge_upload-Keeps :
      (id : ℕ) (user_id : String) → Keeps (On S T) (merge_upload c sha256_hex id user_id)
  unfolding merge_upload upload_for_user
  merge_upload-Keeps id user_id = search (merge_rules, merged_before-Keeps, merge_held-Keeps)
