-- ===== src/Server/Deletion.antt =====
-- backend/internal/service/service.go: what `DeletePhysicalFile` leaves where it returns.
use mathlib.Core.Bool.{and-eq-true_iff}
use cloud_file.Base.{
  ℕ, ◌==◌, ◌≡◌, ◌≢◌, ◌↔◌, refl, sym, ap, subst, true, not, String, List, keep, find, length, str_eq,
  eq_iff, some, IsIn, IsIn-keep, find-some, arith,
}
use cloud_file.Server.Model.{FileMeta, UserFile, MediaTask}
use cloud_file.Server.Action.{Outcome, done, fails, Action, ◌>>=◌}
use cloud_file.Server.Action.Rules.{
  Ends, Ensures, Keeps, Ensures-pure, Ensures-bind, Ensures-then, Ensures-weaken, done-injective,
  Keeps-fold, keeps_rules,
}
use cloud_file.Server.Storage.{ObjectStore}
use cloud_file.Server.World.{Tables, World}
use cloud_file.Server.World.Rules.{
  On, Ensures-first, Ensures-change, Ensures-transaction, rows_rules,
}
use cloud_file.Server.Files.{
  Deleted, is_file_of, meta_of, delete_media, delete_refs, delete_meta, delete_rows, file_for_user,
  remove_counted, delete_physical_file,
}

-- Of the rows before, those are left that do not belong to the file.
pub record IsWithout (file_id : ℕ) (before after : Tables) : Type 0 where
  pub user_files :
      (f : UserFile) → IsIn f after.user_files ↔ (IsIn f before.user_files × (f.file_id ≢ file_id))
  pub media_tasks :
      (m : MediaTask)
      → IsIn m after.media_tasks ↔ (IsIn m before.media_tasks × (m.file_id ≢ file_id))
  pub metas : (m : FileMeta) → IsIn m after.metas ↔ (IsIn m before.metas × (m.id ≢ file_id))
  pub uploads : after.uploads ≡ before.uploads
  pub chunks : after.chunks ≡ before.chunks

-- what the answer says: the file that the user's row names, and how many rows of users named it
pub record IsDeleted (user_id : String) (id : ℕ) (d : Deleted) (before after : Tables)
    : Type 0 where
  pub file : UserFile
  pub known : IsIn file before.user_files
  pub asked : file.id ≡ id
  pub owner : file.user_id ≡ user_id
  pub names : d.file_id ≡ file.file_id
  pub counted : d.removed_refs ≡ length (keep (λ f. f.file_id == file.file_id) before.user_files)
  pub left : IsWithout file.file_id before after

differ : (n m : ℕ) → (not (n == m) ≡ true) ↔ (n ≢ m)
differ n m = (λ h e. ground (arith, h, e), λ h. ground (arith, h))

-- the rows of a list that do not belong to the file
kept_rows :
    {A : Type 0} (key : A → ℕ) (id : ℕ) (rows : List A) (a : A)
    → IsIn a (keep (λ r. not (key r == id)) rows) ↔ (IsIn a rows × (key a ≢ id))
kept_rows key id rows a =
    let h = IsIn-keep (λ r. not (key r == id)) a rows in
    let d = differ (key a) id in (λ k. ((h.0 k).0, d.0 (h.0 k).1), λ k. h.1 (k.0, d.1 k.1))

-- the rows that a deletion leaves
abbrev without : ℕ → Tables → Tables
without file_id t = (delete_meta file_id (delete_refs file_id (delete_media file_id t).1).1).1

without-IsWithout : (file_id : ℕ) (t : Tables) → IsWithout file_id t (without file_id t)
without-IsWithout file_id t = record {
  user_files = kept_rows (λ f. f.file_id) file_id t.user_files;
  media_tasks = kept_rows (λ m. m.file_id) file_id t.media_tasks;
  metas = kept_rows (λ m. m.id) file_id t.metas;
  uploads = refl;
  chunks = refl;
}

module _ (user_id : String) (id : ℕ) (t : Tables) where
  -- the rows as they were, with the user's row of the file
  abbrev Start : UserFile → Tables → Type 0
  Start file u = (u ≡ t) × (find (is_file_of id user_id) t.user_files ≡ some file)

  -- the rows without the file
  abbrev End : UserFile → ℕ → Tables → Type 0
  End file n u =
      (u ≡ without file.file_id t)
      × (n ≡ length (keep (λ f. f.file_id == file.file_id) t.user_files))
      × (find (is_file_of id user_id) t.user_files ≡ some file)

  IsDeleted-of :
      (file : UserFile) (n removed : ℕ) (u : Tables)
      → End file n u
      → IsDeleted user_id id
          (record { file_id = file.file_id; removed_refs = n; removed_objects = removed })
          t
          u
  IsDeleted-of file n removed u h =
      let row = find-some (is_file_of id user_id) t.user_files file h.2 in
      let same = (and-eq-true_iff (file.id == id) (str_eq file.user_id user_id)).0 row.1 in
      record {
        file = file;
        known = row.0;
        asked = ground (arith, same.0);
        owner = (eq_iff file.user_id user_id).0 same.1;
        names = refl;
        counted = h.1;
        left = subst (IsWithout file.file_id t) (sym h.0) (without-IsWithout file.file_id t);
      }

module _ {S : ObjectStore} where
  then_any :
      {A B : Type 0} {T : Tables → Type 0} {Q : B → World S → Type 0} {m : Action (World S) A}
      {k : A → Action (World S) B}
      → Keeps (On S T) m
      → ((a : A) → Ensures (On S T) (k a) Q (λ w. Unit {0}))
      → Ensures (On S T) (m >>= k) Q (λ w. Unit {0})
  then_any first rest = Ensures-bind (Ensures-weaken (λ w h. h) (λ a w h. h) (λ w h. tt) first) rest

  remove_counted-Keeps :
      {T : Tables → Type 0} (key : String) (n : ℕ) → Keeps (On S T) (remove_counted key n)
  unfolding remove_counted
  remove_counted-Keeps key n = search (keeps_rules, rows_rules)

module _ {S : ObjectStore} (user_id : String) (id : ℕ) (t : Tables) where
  delete_rows-End :
      (file : UserFile)
      → Ensures
          (On S (Start user_id id t file))
          (delete_rows file.file_id)
          (λ n. On S (End user_id id t file n))
          (λ w. Unit {0})
  unfolding delete_rows
  delete_rows-End file =
      Ensures-weaken (λ w h. h) (λ n w h. h) (λ w h. tt)
        (Ensures-then {E = On S (λ u. Unit {0})}
          (Ensures-change
            {Q = λ a u.
              (u ≡ (delete_media file.file_id t).1)
              × (find (is_file_of id user_id) t.user_files ≡ some file)}
            (delete_media file.file_id)
            (λ u h. (ap (λ v. (delete_media file.file_id v).1) h.0, h.1)) (λ u h. tt))
          (λ _.
            Ensures-bind
              (Ensures-change
                {Q = λ n u.
                  (u ≡ (delete_refs file.file_id (delete_media file.file_id t).1).1)
                  × (n ≡ length (keep (λ f. f.file_id == file.file_id) t.user_files))
                  × (find (is_file_of id user_id) t.user_files ≡ some file)}
                (delete_refs file.file_id)
                (λ u h. (
                  ap (λ v. (delete_refs file.file_id v).1) h.0,
                  ap (λ v. (delete_refs file.file_id v).0) h.0,
                  h.1,
                ))
                (λ u h. tt))
              (λ n.
                Ensures-then
                  (Ensures-change {Q = λ a. End user_id id t file n} (delete_meta file.file_id)
                    (λ u h. (ap (λ v. (delete_meta file.file_id v).1) h.0, h.1, h.2)) (λ u h. tt))
                  (λ _. Ensures-pure n (λ w h. h)))))

  file_for_user-Start :
      Ensures
        (On S (λ u. u ≡ t))
        (file_for_user id user_id)
        (λ file. On S (Start user_id id t file.0))
        (λ w. Unit {0})
  unfolding file_for_user
  file_for_user-Start =
      Ensures-bind
        (Ensures-weaken (λ w h. h)
          (λ file w h. record {
            rows = (
              h.rows.0,
              subst (λ v. find (is_file_of id user_id) v.user_files ≡ some file) h.rows.0 h.rows.1,
            );
          })
          (λ w h. tt) (Ensures-first _))
        (λ file.
          Ensures-bind
            (Ensures-weaken (λ w h. h) (λ m w h. record { rows = h.rows.0 }) (λ w h. tt)
              (Ensures-first {T = Start user_id id t file} (λ u. some (meta_of u file))))
            (λ m. Ensures-pure (file, m) (λ w h. h)))

  delete-IsDeleted :
      Ensures
        (On S (λ u. u ≡ t))
        (delete_physical_file user_id id)
        (λ d. On S (IsDeleted user_id id d t))
        (λ w. Unit {0})
  unfolding delete_physical_file
  delete-IsDeleted = Ensures-bind file_for_user-Start (λ file.
      then_any (search rows_rules) (λ tasks. then_any (remove_counted-Keeps _ 0) (λ n.
        then_any (Keeps-fold tasks n (λ m k. remove_counted-Keeps m.output_object_key k))
          (λ removed.
            Ensures-bind
              (Ensures-weaken (λ w h. h) (λ a w h. h) (λ w h. tt)
                (Ensures-transaction (Start user_id id t file.0) (End user_id id t file.0)
                  (delete_rows-End file.0)))
              (λ refs. Ensures-pure _ (λ w h. record {
                rows = IsDeleted-of user_id id t file.0 refs removed w.tables h.rows;
              }))))))

  IsDeleted-by :
      (x : Outcome Deleted × World S) (d : Deleted)
      → Ends (λ d. On S (IsDeleted user_id id d t)) (λ w. Unit {0}) x
      → x.0 ≡ done d
      → IsDeleted user_id id d t x.1.tables
  IsDeleted-by (done n, w) d h e =
      subst (λ k. IsDeleted user_id id k t w.tables) (done-injective n d e) h.rows
  IsDeleted-by (fails f, w) d h e = cc

-- Whatever statements the database refuses: where the deletion of a user's file returns, that user had a
-- row of that id, and the answer is the file that it names and the number of rows, of any user, that
-- named the file. Of users' files, media tasks and files exactly the rows of that file are gone, and
-- uploads and chunks are as they were.
pub delete_physical_file-IsDeleted :
    {S : ObjectStore} (user_id : String) (id : ℕ) (w : World S) (d : Deleted)
    → (delete_physical_file user_id id w).0 ≡ done d
    → IsDeleted user_id id d w.tables (delete_physical_file user_id id w).1.tables
delete_physical_file-IsDeleted user_id id w d =
    IsDeleted-by user_id id w.tables (delete_physical_file user_id id w) d
      ((delete-IsDeleted user_id id w.tables).from w (record { rows = refl }))
