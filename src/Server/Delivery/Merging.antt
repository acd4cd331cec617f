-- ===== src/Server/Delivery/Merging.antt =====
-- backend/internal/service/service.go: `MergeUpload` of an upload all of whose chunks are there goes through,
-- where the database refuses nothing and the store is there.
use text.Mathlib.Text.{starts_with}
use mathlib.Core.Bool.{and-eq-true_iff}
use mathlib.Core.Option.{some-injective}
use cloud_file.Base.{
  ℕ, ◌==◌, ◌≡◌, ◌⊎◌, refl, sym, subst, ◌∙◌, true, false, String, List, [], ◌∷◌, Option, none, some,
  find, arith, inl, inr, eq_iff, IsIn, IsIn-last, find-some,
}
use cloud_file.Server.Model.{
  UploadStatus, UploadTask, FileMeta, UserFile, MediaTask, MediaTaskType, no_upload,
}
use cloud_file.Server.Action.{not_found, Outcome, done, fails, pure}
use cloud_file.Server.Action.Rules.{
  Ends, Ensures-pure, Ensures-bind, Ensures-then, Ensures-attempt, Ensures-ignore,
}
use cloud_file.Server.Storage.{ObjectStore, IsLawful}
use cloud_file.Server.World.{Config, Tables, World, found}
use cloud_file.Server.World.Quiet.{Returns}
use cloud_file.Server.World.Calm.{
  Locks, Calm, Any, Calm-weaken, Calm-change, Calm-first, Calm-answer,
}
use cloud_file.Server.World.Calm.Calls.{Calm-stored, Calm-transaction, Calm-publish, Returns-each}
use cloud_file.Server.Keys.{final_object_key, temp_prefix}
use cloud_file.Server.Rows.{is_upload_of, is_same_file, create_user_file}
use cloud_file.Server.Uploads.{upload_for_user}
use cloud_file.Server.Merge.Rows.{finish_merge, create_meta}
use cloud_file.Server.Merge.{
  Merged, or_zero, reload_upload, known_meta, merged_meta, create_tasks, record_merge,
  finish_merged,
}
use cloud_file.Server.Merge.Found.{final_key-apart}
use cloud_file.Server.Delivery.Rows.{find-change}
use cloud_file.Server.Delivery.Composed.{or_failed_done}

-- a merge that went through: its bytes are under the key of the upload
pub record IsDelivered {S : ObjectStore} (law : IsLawful S) (bytes : List ℕ) (m : Merged)
    (s : S.State) : Type 0 where
  pub finished : m.task.status ≡ UploadStatus.success
  pub stored : law.read s m.task.object_key ≡ some bytes

-- The user has a row of the file: the row of the answer is among the users' files, it is of this user, and
-- names a row of files with the hash and the size of the upload.
pub record IsFiled (user_id : String) (m : Merged) (t : Tables) : Type 0 where
  pub file : UserFile
  pub answered : m.user_file ≡ some file
  pub kept : IsIn file t.user_files
  pub owner : file.user_id ≡ user_id
  pub names : file.file_id ≡ m.meta.id
  pub known : IsIn m.meta t.metas
  pub hash : m.meta.file_hash ≡ m.task.file_hash
  pub size : m.meta.file_size ≡ m.task.file_size

-- the row of files for an upload
pub record IsMetaOf (task : UploadTask) (meta : FileMeta) (t : Tables) : Type 0 where
  pub known : IsIn meta t.metas
  pub hash : meta.file_hash ≡ task.file_hash
  pub size : meta.file_size ≡ task.file_size

-- the user's row of a file
pub record IsRefOf (user_id : String) (meta : FileMeta) (file : UserFile) (t : Tables)
    : Type 0 where
  pub kept : IsIn file t.user_files
  pub owner : file.user_id ≡ user_id
  pub names : file.file_id ≡ meta.id

-- the row that a merge leaves
abbrev finished_row : UploadTask → ℕ → UploadTask
finished_row task now = record task {
  status = UploadStatus.success;
  object_key = final_object_key task;
  updated_at = now;
}

same_id : (n : ℕ) → (n == n) ≡ true
same_id n = ground arith

-- the row of the upload
abbrev pub Row : ℕ → String → UploadTask → Tables → Type 0
Row id user_id task t = find (is_upload_of id user_id) t.uploads ≡ some task

or_zeros :
    {S : ObjectStore} {A : Type 0} {Q : A → World S → Type 0} (zero : A) (r : Outcome A)
    → Returns (λ w. Ends Q (λ v. ⊥) (r, w)) (pure (or_zero zero r)) Q
or_zeros zero (done a) = Ensures-pure a (λ w h. h)
or_zeros zero (fails e) = record { from = λ w h. absurd h }

same_meta :
    (task : UploadTask) (m : FileMeta) (t : Tables)
    → find (is_same_file task.file_hash task.file_size) t.metas ≡ some m
    → IsMetaOf task m t
same_meta task m t e =
    let row = find-some (is_same_file task.file_hash task.file_size) t.metas m e in
    let same = (and-eq-true_iff _ _).0 row.1 in
    record {
      known = row.0;
      hash = (eq_iff m.file_hash task.file_hash).0 same.0;
      size = ground (arith, same.1);
    }

-- a query that finds nothing, or the row of a file
found_meta :
    (task : UploadTask) (x : Option FileMeta) (t : Tables) (r : Outcome FileMeta)
    → find (is_same_file task.file_hash task.file_size) t.metas ≡ x
    → r ≡ found x
    → (r ≡ fails not_found) ⊎ ((m : FileMeta) × (r ≡ done m) × IsMetaOf task m t)
found_meta task none t r e f = inl f
found_meta task (some m) t r e f = inr (m, f, same_meta task m t e)

abbrev Filing : ℕ → String → UploadTask → FileMeta → UserFile → Tables → Type 0
Filing id user_id task meta file t =
    Row id user_id task t × IsMetaOf task meta t × IsRefOf user_id meta file t

finished_Filing :
    (id : ℕ) (user_id : String) (task : UploadTask) (meta : FileMeta) (file : UserFile) (now : ℕ)
    (t : Tables)
    → Filing id user_id task meta file t
    → Filing id user_id
        (finished_row task now)
        meta
        file
        (finish_merge task.id (final_object_key task) now t).1
finished_Filing id user_id task meta file now t k = (
  find-change (is_upload_of id user_id) (λ u. u.id == task.id)
      (λ u. record u {
        status = UploadStatus.success;
        object_key = final_object_key task;
        updated_at = now;
      })
      (λ u. refl) t.uploads task k.0 (same_id task.id),
  record { known = k.1.known; hash = k.1.hash; size = k.1.size },
  record { kept = k.2.kept; owner = k.2.owner; names = k.2.names },
)

module _ {S : ObjectStore} {U : S.State → Type 0} {L : Locks → Type 0} (c : Config)
    (sha256_hex : List ℕ → String) where
  pub reload_upload-Returns :
      {T : Tables → Type 0} (id : ℕ) (user_id : String)
      → ((t : Tables) → T t → (task : UploadTask) × Row id user_id task t)
      → Returns
          (Calm S T U L)
          (reload_upload c sha256_hex id user_id)
          (λ task. Calm S (λ t. T t × Row id user_id task t) U L)
  unfolding reload_upload upload_for_user
  reload_upload-Returns id user_id h =
      Ensures-bind (Ensures-attempt (Calm-first _ h)) (or_zeros no_upload)

  -- a file that the service has, or a new one
  meta_either :
      {T : Tables → Type 0} (task : UploadTask) (r : Outcome FileMeta) (w : World S)
      → ((t : Tables) → T t → T (create_meta task (final_object_key task) S.bucket t).1)
      → Calm S T U L w
      → (r ≡ fails not_found) ⊎ ((m : FileMeta) × (r ≡ done m) × IsMetaOf task m w.tables)
      → Ends
          (λ m. Calm S (λ t. T t × IsMetaOf task m t) U L)
          (λ v. ⊥)
          (known_meta c sha256_hex task r w)
  unfolding known_meta
  meta_either {T} task r w h k (inl e) = rw e (
      (or_failed_done c sha256_hex task (
          Calm-change {Q = λ m t. T t × IsMetaOf task m t} _ (λ t p.
            (h t p, record { known = IsIn-last _ t.metas; hash = refl; size = refl })))).from
        w k)
  meta_either task r w h k (inr (m, e, found)) = rw e (
      unfold pure in
      record {
        open_faults = k.open_faults;
        rows = (k.rows, found);
        objects = k.objects;
        locks = k.locks;
      })

  pub merged_meta-Returns :
      {T : Tables → Type 0} (task : UploadTask)
      → ((t : Tables) → T t → T (create_meta task (final_object_key task) S.bucket t).1)
      → Returns
          (Calm S T U L)
          (merged_meta c sha256_hex task)
          (λ m. Calm S (λ t. T t × IsMetaOf task m t) U L)
  unfolding merged_meta
  merged_meta-Returns task h =
      Ensures-bind (Calm-answer (λ t. find (is_same_file task.file_hash task.file_size) t.metas))
        (λ r. record {
          from = λ w k.
              meta_either task r w h (Calm-weaken (λ t p. p.0) w k)
                (found_meta task _ w.tables r refl k.rows.1);
        })

  create_tasks-Returns :
      (id : ℕ) (user_id : String) (task : UploadTask) (meta : FileMeta) (file : UserFile) (now : ℕ)
      (types : List MediaTaskType)
      → Returns
          (Calm S (Filing id user_id task meta file) U L)
          (create_tasks c sha256_hex meta now types)
          (λ a. Calm S (Filing id user_id task meta file) U L)
  unfolding create_tasks
  create_tasks-Returns id user_id task meta file now [] = Ensures-pure [] (λ w p. p)
  create_tasks-Returns id user_id task meta file now (ty ∷ types) =
      Calm-change {Q = λ a. Filing id user_id task meta file} _ (λ t k. (
        k.0,
        record { known = k.1.known; hash = k.1.hash; size = k.1.size },
        record { kept = k.2.kept; owner = k.2.owner; names = k.2.names },
      ))

  record_merge-Returns :
      (id : ℕ) (user_id : String) (task : UploadTask) (meta : FileMeta) (now : ℕ)
      → Returns
          (Calm S (λ t. Row id user_id task t × IsMetaOf task meta t) U L)
          (record_merge c sha256_hex task user_id meta now)
          (λ a. Calm S (Filing id user_id (finished_row task now) meta a.0) U L)
  unfolding record_merge
  record_merge-Returns id user_id task meta now =
      Ensures-bind
        (Calm-change {Q = Filing id user_id task meta}
          (create_user_file user_id meta.id task.file_name none now)
          (λ t k. (
            k.0,
            record { known = k.1.known; hash = k.1.hash; size = k.1.size },
            record { kept = IsIn-last _ t.user_files; owner = refl; names = refl },
          )))
        (λ file. Ensures-bind (create_tasks-Returns id user_id task meta file now _) (λ tasks.
          Ensures-then
            (Calm-change {Q = λ a. Filing id user_id (finished_row task now) meta file}
              (finish_merge task.id (final_object_key task) now)
              (finished_Filing id user_id task meta file now))
            (λ _. Ensures-pure _ (λ w p. p))))

module _ {S : ObjectStore} (law : IsLawful S) (c : Config) (sha256_hex : List ℕ → String)
    (bytes : List ℕ) where
  -- the object is not under the prefix of the parts
  kept_by :
      (task : UploadTask) (id : ℕ) (s : S.State)
      → law.read s (final_object_key task) ≡ some bytes
      → (x : Outcome (Unit {0}) × S.State)
      → Ends
          (λ _ t.
            (j : String) → starts_with j (temp_prefix id) ≡ false → law.read t j ≡ law.read s j)
          (λ t. (j : String) → starts_with j (temp_prefix id) ≡ false → law.read t j ≡ law.read s j)
          x
      → Ends
          (λ _ t. law.read t (final_object_key task) ≡ some bytes)
          (λ t. law.read t (final_object_key task) ≡ some bytes)
          x
  kept_by task id s h (done a, t) k = k (final_object_key task) (final_key-apart task id) ∙ h
  kept_by task id s h (fails e, t) k = k (final_object_key task) (final_key-apart task id) ∙ h

  abbrev Final : UploadTask → S.State → Type 0
  Final task s = law.read s (final_object_key task) ≡ some bytes

  IsDelivered-by :
      (meta : FileMeta) (task : UploadTask) (now : ℕ) (file : UserFile) (tasks : List MediaTask)
      (s : S.State)
      → law.read s (final_object_key task) ≡ some bytes
      → (latest : UploadTask) → finished_row task now ≡ latest
      → IsDelivered law bytes
          (record { task = latest; meta = meta; user_file = some file; media_tasks = tasks })
          s
  IsDelivered-by meta task now file tasks s h latest e =
      subst
        (λ u.
          IsDelivered law bytes
            (record { task = u; meta = meta; user_file = some file; media_tasks = tasks }) s)
        e (record { finished = refl; stored = h })

  IsFiled-by :
      (user_id : String) (meta : FileMeta) (task : UploadTask) (now : ℕ) (file : UserFile)
      (tasks : List MediaTask) (t : Tables)
      → IsMetaOf (finished_row task now) meta t
      → IsRefOf user_id meta file t
      → (latest : UploadTask) → finished_row task now ≡ latest
      → IsFiled user_id
          (record { task = latest; meta = meta; user_file = some file; media_tasks = tasks })
          t
  IsFiled-by user_id meta task now file tasks t h k latest e =
      subst
        (λ u.
          IsFiled user_id
            (record { task = u; meta = meta; user_file = some file; media_tasks = tasks }) t)
        e
        (record {
          file = file;
          answered = refl;
          kept = k.kept;
          owner = k.owner;
          names = k.names;
          known = h.known;
          hash = h.hash;
          size = h.size;
        })

  pub finish_merged-Returns :
      (id : ℕ) (user_id : String) (now : ℕ) (task : UploadTask) (meta : FileMeta)
      → Returns
          (Calm S (λ t. Row id user_id task t × IsMetaOf task meta t) (Final task) Any)
          (finish_merged c sha256_hex id user_id now task meta)
          (λ m. Calm S (IsFiled user_id m) (IsDelivered law bytes m) Any)
  unfolding finish_merged
  finish_merged-Returns id user_id now task meta =
      Ensures-bind
        (or_failed_done c sha256_hex task
          (Calm-transaction (record_merge-Returns c sha256_hex id user_id task meta now)))
        (λ created.
          Ensures-then
            (Ensures-ignore (
              Calm-stored (λ _. Final task) (Final task) (S.remove_prefix (temp_prefix id))
                (λ s h.
                  kept_by task id s h (S.remove_prefix (temp_prefix id) s)
                    (law.prefix (temp_prefix id) s))))
            (λ _.
              Ensures-then (Returns-each created.1 (λ m. Ensures-ignore (Calm-publish m.id))) (λ _.
                Ensures-bind
                  (reload_upload-Returns c sha256_hex id user_id
                    (λ t h. (finished_row task now, h.0)))
                  (λ latest. Ensures-pure _ (λ w h. record {
                    open_faults = h.open_faults;
                    rows =
                        IsFiled-by user_id meta task now created.0 created.1 w.tables h.rows.0.1
                          h.rows.0.2 latest (some-injective _ _ (sym h.rows.0.0 ∙ h.rows.1));
                    objects =
                        IsDelivered-by meta task now created.0 created.1 w.objects h.objects latest
                          (some-injective _ _ (sym h.rows.0.0 ∙ h.rows.1));
                    locks = tt;
                  })))))
