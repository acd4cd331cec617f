-- ===== src/Server/Merge/Served.antt =====
-- backend/internal/service/service.go: the file that `MergeUpload` answers with is in the store.
use text.Mathlib.Text.{starts_with}
use cloud_file.Base.{
  ℕ, ◌≡◌, refl, subst, ◌⊎◌, inl, inr, false, String, List, [], ◌∷◌, Option, none, some, find,
}
use cloud_file.Server.Model.{UploadTask, FileMeta, MediaTaskType}
use cloud_file.Server.Action.{not_found, failure, Outcome, done, fails, writes}
use cloud_file.Server.Action.Rules.{
  Ends, Ensures, Keeps, Ensures-pure, Ensures-raise, Ensures-bind, Ensures-then, Ensures-attempt,
  Ensures-weaken, done-injective, keeps_rules, either_Ensures, Keeps-ignore, Keeps-each,
}
use cloud_file.Server.Storage.{ObjectStore, IsLawful}
use cloud_file.Server.World.{Config, World, stored, release}
use cloud_file.Server.World.Rules.{Holds}
use cloud_file.Server.World.Objects.{
  Holds-stored, Answers-change, Answers-first, Holds-transaction, Holds-publish, objects_rules,
}
use cloud_file.Server.Keys.{final_object_key, temp_prefix}
use cloud_file.Server.Rows.{is_same_file}
use cloud_file.Server.Uploads.{upload_for_user}
use cloud_file.Server.Merge.Rows.{create_meta}
use cloud_file.Server.Merge.{
  Merged, reload_upload, known_meta, merged_meta, record_merge, create_tasks, finish_merged,
  merge_locked, merged_before, merge_held, merge_upload,
}
use cloud_file.Server.Merge.Whole.{
  IsWhole, anyhow, mark-fails, or_failed-Ensures, compose_parts-IsWhole,
}
use cloud_file.Server.Merge.Found.{IsFileOf, found_file, with_fact, final_key-apart}

-- The answer of a merge: the object of the composed parts is there, with the size and the hash of
-- the answered file.
pub record IsServed {S : ObjectStore} (law : IsLawful S) (sha256_hex : List ℕ → String) (m : Merged)
    (s : S.State) : Type 0 where
  pub task : UploadTask
  pub whole :
      IsWhole sha256_hex m.meta.file_size m.meta.file_hash (law.read s (final_object_key task))

module _ {S : ObjectStore} (law : IsLawful S) (c : Config) (sha256_hex : List ℕ → String) where
  abbrev Whole : UploadTask → World S → Type 0
  Whole task =
      Holds S
        (λ s. IsWhole sha256_hex task.file_size task.file_hash (law.read s (final_object_key task)))

  known_meta-IsFileOf :
      (task : UploadTask) (r : Outcome FileMeta)
      → Ensures
          (λ w. Ends (λ meta w. Whole task w × IsFileOf task meta) (Whole task) (r, w))
          (known_meta c sha256_hex task r)
          (λ meta w. Whole task w × IsFileOf task meta)
          (λ w. Unit {0})
  unfolding known_meta
  known_meta-IsFileOf task (done meta) = Ensures-pure meta (λ w h. h)
  known_meta-IsFileOf task (fails not_found) = or_failed-Ensures c sha256_hex task (
      Answers-change _ (IsFileOf task) (create_meta task (final_object_key task) S.bucket)
        (λ t. record { hash = refl; size = refl }))
  known_meta-IsFileOf task (fails (failure e)) = mark-fails c sha256_hex task (failure e)

  merged_meta-IsFileOf :
      (task : UploadTask)
      → Ensures
          (Whole task)
          (merged_meta c sha256_hex task)
          (λ meta w. Whole task w × IsFileOf task meta)
          (λ w. Unit {0})
  unfolding merged_meta
  merged_meta-IsFileOf task =
      Ensures-bind
        (Ensures-attempt (
          Answers-first _ (IsFileOf task)
            (λ t. find (is_same_file task.file_hash task.file_size) t.metas)
            (λ t meta e. found_file task t.metas meta e)))
        (known_meta-IsFileOf task)

  removed_by :
      (task : UploadTask) (id : ℕ) (s : S.State)
      → IsWhole sha256_hex task.file_size task.file_hash (law.read s (final_object_key task))
      → (x : Outcome (Unit {0}) × S.State)
      → Ends
          (λ a t.
            (j : String) → starts_with j (temp_prefix id) ≡ false → law.read t j ≡ law.read s j)
          (λ t. (j : String) → starts_with j (temp_prefix id) ≡ false → law.read t j ≡ law.read s j)
          x
      → Ends
          (λ a t.
            IsWhole sha256_hex task.file_size task.file_hash (law.read t (final_object_key task)))
          (λ t.
            IsWhole sha256_hex task.file_size task.file_hash (law.read t (final_object_key task)))
          x
  removed_by task id s h (done a, t) k = rw (k (final_object_key task) (final_key-apart task id)) h
  removed_by task id s h (fails e, t) k = rw (k (final_object_key task) (final_key-apart task id)) h

  removed :
      (task : UploadTask) (id : ℕ)
      → Ensures
          (Whole task)
          (stored {S = S} (S.remove_prefix (temp_prefix id)))
          (λ a. Whole task)
          (Whole task)
  removed task id = Holds-stored (S.remove_prefix (temp_prefix id)) (λ s h.
      removed_by task id s h (S.remove_prefix (temp_prefix id) s) (law.prefix (temp_prefix id) s))

  tasks_created :
      (task : UploadTask) (meta : FileMeta) (now : ℕ) (types : List MediaTaskType)
      → Keeps (Whole task) (create_tasks c sha256_hex meta now types)
  unfolding create_tasks
  tasks_created task meta now [] = search keeps_rules
  tasks_created task meta now (ty ∷ types) = search objects_rules

  recorded :
      (user_id : String) (now : ℕ) (task : UploadTask) (meta : FileMeta)
      → Keeps (Whole task) (record_merge c sha256_hex task user_id meta now)
  unfolding record_merge
  recorded user_id now task meta = search (keeps_rules, objects_rules, tasks_created) depth 10

  reloaded :
      (id : ℕ) (user_id : String) (task : UploadTask)
      → Keeps (Whole task) (reload_upload c sha256_hex id user_id)
  unfolding reload_upload upload_for_user
  reloaded id user_id task = search (keeps_rules, objects_rules)

  -- what is left to do keeps the object
  finished :
      (id : ℕ) (user_id : String) (now : ℕ) (task : UploadTask) (meta : FileMeta)
      → IsFileOf task meta
      → Ensures
          (Whole task)
          (finish_merged c sha256_hex id user_id now task meta)
          (λ m. Holds S (IsServed law sha256_hex m))
          (λ w. Unit {0})
  unfolding finish_merged
  finished id user_id now task meta f =
      Ensures-bind
        (or_failed-Ensures c sha256_hex task (Holds-transaction (recorded user_id now task meta)))
        (λ created.
          Ensures-weaken (λ w h. h) (λ m w h. h) (λ w h. tt)
            (Ensures-then (Keeps-ignore (removed task id)) (λ _.
              Ensures-then (Keeps-each created.1 (λ m. Keeps-ignore (Holds-publish m.id))) (λ _.
                Ensures-bind (reloaded id user_id task) (λ latest. Ensures-pure _ (λ w h. record {
                  objects = record { task = task; whole = rw (f.hash, f.size) h.objects };
                }))))))

  merge_locked-IsServed :
      (id : ℕ) (user_id : String)
      → Ensures
          (λ w. Unit {0})
          (merge_locked c sha256_hex id user_id)
          (λ m. Holds S (IsServed law sha256_hex m))
          (λ w. Unit {0})
  unfolding merge_locked
  merge_locked-IsServed id user_id = Ensures-bind {Q = λ a w. Unit {0}} (anyhow _) (λ now.
      Ensures-bind {Q = λ a w. Unit {0}} (anyhow _) (λ started.
        Ensures-then {Q = λ a w. Unit {0}} (anyhow _) (λ _.
          Ensures-bind {Q = λ a w. Unit {0}} (anyhow _) (λ task.
            Ensures-bind {Q = λ a w. Unit {0}} (anyhow _) (λ rows.
              Ensures-then {Q = λ a w. Unit {0}} (anyhow _) (λ _.
                Ensures-then (compose_parts-IsWhole law sha256_hex c task _) (λ _.
                  Ensures-bind (merged_meta-IsFileOf task)
                    (λ meta. with_fact (finished id user_id now task meta)))))))))

  -- what a request for a merge ends with: an answer that repeats an earlier merge, or a new file
  abbrev pub Answered : Merged → S.State → Type 0
  Answered m s = (m.user_file ≡ none) ⊎ IsServed law sha256_hex m s

  released :
      (x : Outcome Merged × World S) (key value : String)
      → Ends (λ m. Holds S (Answered m)) (λ w. Unit {0}) x
      → Ends (λ m. Holds S (Answered m)) (λ w. Unit {0}) (x.0, (release key value x.1).1)
  unfolding release writes
  released (done m, w) key value h = record { objects = h.objects }
  released (fails e, w) key value h = tt

  merge_held-Answered :
      (id : ℕ) (user_id : String) (held : Option String)
      → Ensures
          (λ w. Unit {0})
          (merge_held c sha256_hex id user_id held)
          (λ m. Holds S (Answered m))
          (λ w. Unit {0})
  unfolding merge_held
  merge_held-Answered id user_id none = Ensures-raise _ (λ w h. tt)
  merge_held-Answered id user_id (some value) = record {
    from = λ w h. released (merge_locked c sha256_hex id user_id w) _ value (
        (Ensures-weaken (λ w h. h) (λ m w k. record { objects = inr k.objects }) (λ w k. k)
            (merge_locked-IsServed id user_id)).from
          w h);
  }

  merged_before-Answered :
      (task : UploadTask)
      → Ensures
          (λ w. Unit {0})
          (merged_before c sha256_hex task)
          (λ m. Holds S (Answered m))
          (λ w. Unit {0})
  unfolding merged_before
  merged_before-Answered task =
      Ensures-bind {Q = λ a w. Unit {0}} (anyhow _)
        (λ known. Ensures-pure _ (λ w h. record { objects = inl refl }))

  merge_upload-Answered :
      (id : ℕ) (user_id : String)
      → Ensures
          (λ w. Unit {0})
          (merge_upload c sha256_hex id user_id)
          (λ m. Holds S (Answered m))
          (λ w. Unit {0})
  unfolding merge_upload
  merge_upload-Answered id user_id = Ensures-bind {Q = λ a w. Unit {0}} (anyhow _) (λ task.
      either_Ensures _ (merged_before-Answered task)
        (Ensures-bind {Q = λ a w. Unit {0}} (anyhow _) (merge_held-Answered id user_id)))

  Answered-by :
      (x : Outcome Merged × World S) (m : Merged)
      → Ends (λ m. Holds S (Answered m)) (λ w. Unit {0}) x
      → x.0 ≡ done m
      → Answered m x.1.objects
  Answered-by (done n, w) m h e = subst (λ k. Answered k w.objects) (done-injective n m e) h.objects
  Answered-by (fails f, w) m h e = cc

  -- Over a lawful store, whatever statements the database refuses: where a merge request returns, its
  -- answer has no new user file, since the upload was merged before, or the store then holds, under the
  -- final key of an upload, an object that has the size and the hash of the file in the answer.
  pub merge_upload-IsServed :
      (id : ℕ) (user_id : String) (w : World S) (m : Merged)
      → (merge_upload c sha256_hex id user_id w).0 ≡ done m
      → Answered m (merge_upload c sha256_hex id user_id w).1.objects
  merge_upload-IsServed id user_id w m =
      Answered-by (merge_upload c sha256_hex id user_id w) m
        ((merge_upload-Answered id user_id).from w tt)
