-- ===== src/Server/Repair.antt =====
-- backend/internal/service/service.go: what `Compensate` does to the rows of uploads and files.
use mathlib.Core.Bool.{true≢false, and-eq-true_iff}
use cloud_file.Base.{
  ℕ, ◌-◌, ◌==◌, ◌<◌, ◌≡◌, ◌≢◌, ◌⊎◌, refl, sym, ap, subst, ◌∙◌, Bool, true, false, String, List, [],
  ◌∷◌, map, keep, any, IsIn, IsIn-keep, str_eq, if◌then◌else◌, Bool-cases, inl, inr, arith,
}
use cloud_file.Server.Model.{UploadStatus, UploadTask, MediaTask, is_merging}
use cloud_file.Server.Action.{Outcome, done, fails, Action, reads, fold_each, ◌>>=◌}
use cloud_file.Server.Action.Rules.{
  Ends, Ensures, Keeps, Ensures-bind, Ensures-weaken, Keeps-bind, Keeps-pure, Keeps-fold,
  keeps_rules,
}
use cloud_file.Server.Storage.{ObjectStore}
use cloud_file.Server.World.{Config, Tables, World, find_rows, change, change_rows}
use cloud_file.Server.World.Rules.{On, Keeps-change, Ensures-find, Keeps-find, rows_rules}
use cloud_file.Server.Keys.{final_object_key}
use cloud_file.Server.Tables.{Distinct, IsConsistent}
use cloud_file.Server.Compensate.{
  Counts, set_upload, set_media, set_repaired, set_reset, repair_key, is_stale_upload, object_hash,
  is_composed, is_stale_media, is_pending, repair_upload, retry_media, publish_pending, compensate,
}

-- what a row keeps in any case
abbrev pub Same : UploadTask → UploadTask → Type 0
Same u v =
    (v.id ≡ u.id)
    × (v.user_id ≡ u.user_id)
    × (v.file_hash ≡ u.file_hash)
    × (v.file_size ≡ u.file_size)
    × (v.chunk_size ≡ u.chunk_size)
    × (v.chunk_count ≡ u.chunk_count)
    × (v.uploaded_count ≡ u.uploaded_count)

-- the three ends of an upload whose merge was cut off
abbrev pub Settled : UploadTask → UploadTask → Type 0
Settled u v =
    ((v.status ≡ UploadStatus.success)
      × (v.object_key ≡ (if str_eq u.object_key "" then final_object_key u else u.object_key)))
    ⊎ (((v.status ≡ UploadStatus.uploading) × (u.uploaded_count ≡ u.chunk_count))
        ⊎ ((v.status ≡ UploadStatus.failed) × (u.uploaded_count ≢ u.chunk_count)))

-- A row is left as it is, or it was merging, and last changed before `before`, and is settled.
pub record IsCutOff (before : ℕ) (u v : UploadTask) : Type 0 where
  pub merging : u.status ≡ UploadStatus.merging
  pub stale : u.updated_at < before
  pub same : Same u v
  pub settled : Settled u v

-- row by row
abbrev pub Each : (UploadTask → UploadTask → Type 0) → List UploadTask → List UploadTask → Type 0
Each R [] [] = Unit
Each R (u ∷ us) (v ∷ vs) = R u v × Each R us vs
Each R [] (v ∷ vs) = ⊥
Each R (u ∷ us) [] = ⊥

-- the same, by an upload of the id that was found
abbrev By : List UploadTask → UploadTask → UploadTask → Type 0
By found u v = (v ≡ u) ⊎ ((x : UploadTask) × IsIn x found × (x.id ≡ u.id) × Same u v × Settled x v)

Each-refl : (found us : List UploadTask) → Each (By found) us us
Each-refl found [] = tt
Each-refl found (u ∷ us) = (inl refl, Each-refl found us)

Each-change :
    (R : UploadTask → UploadTask → Type 0) (test : UploadTask → Bool) (f : UploadTask → UploadTask)
    (us vs : List UploadTask)
    → ((u v : UploadTask) → test v ≡ true → R u v → R u (f v))
    → Each R us vs
    → Each R us (change_rows test f vs)
Each-change R test f [] [] h e = tt
Each-change R test f [] (v ∷ vs) h e = absurd e
Each-change R test f (u ∷ us) [] h e = absurd e
Each-change R test f (u ∷ us) (v ∷ vs) h (e, es) = elim (Bool-cases (test v)) [
  | inl k ↦ rw k (h u v k e, Each-change R test f us vs h es)
  | inr k ↦ rw k (e, Each-change R test f us vs h es)
]

By-Same : (found : List UploadTask) (u v : UploadTask) → By found u v → Same u v
By-Same found u v (inl e) = subst (Same u) (sym e) (refl, refl, refl, refl, refl, refl, refl)
By-Same found u v (inr h) = h.3

-- what a repair of `x` makes of a row
set_row : Bool → UploadTask → ℕ → UploadTask → UploadTask
set_row whole x now v = record ((if whole then set_repaired (repair_key x) else set_reset x) v) {
  updated_at = now;
}

set_row-Same :
    (whole : Bool) (x : UploadTask) (now : ℕ) (u v : UploadTask)
    → Same u v
    → Same u (set_row whole x now v)
unfolding set_row
set_row-Same true x now u v h = (h.0, h.1, h.2, h.3, h.4, h.5, h.6)
set_row-Same false x now u v h = elim (Bool-cases (x.uploaded_count == x.chunk_count)) [
  | inl e ↦ rw e (h.0, h.1, h.2, h.3, h.4, h.5, h.6)
  | inr e ↦ rw e (h.0, h.1, h.2, h.3, h.4, h.5, h.6)
]

set_row-Settled :
    (whole : Bool) (x : UploadTask) (now : ℕ) (v : UploadTask) → Settled x (set_row whole x now v)
unfolding set_row
set_row-Settled true x now v = inl (refl, refl)
set_row-Settled false x now v = elim (Bool-cases (x.uploaded_count == x.chunk_count)) [
  | inl e ↦ rw e (inr (inl (refl, ground (arith, e))))
  | inr e ↦ rw e (inr (inr (refl, λ k. ground (arith, e, k))))
]

set_row-By :
    (found : List UploadTask) (whole : Bool) (x : UploadTask) (now : ℕ) (u v : UploadTask)
    → IsIn x found
    → (v.id == x.id) ≡ true
    → By found u v
    → By found u (set_row whole x now v)
set_row-By found whole x now u v m e h =
    let same = By-Same found u v h in
    let met : v.id ≡ x.id = ground (arith, e) in
    inr (x, m, sym met ∙ same.0, set_row-Same whole x now u v same, set_row-Settled whole x now v)

-- of rows with different ids, the one of an id
all_other :
    (us : List UploadTask) (u : UploadTask) (n : ℕ)
    → any (λ j. j == n) (map (λ x. x.id) us) ≡ false
    → IsIn u us
    → u.id ≡ n
    → ⊥
all_other [] u n h m e = m
all_other (x ∷ us) u n h (inl same) e =
    let here : (x.id == n) ≡ true = subst (λ y. (y.id == n) ≡ true) same (ground (arith, e)) in
    true≢false (sym (rw here refl) ∙ h)
all_other (x ∷ us) u n h (inr rest) e = elim (Bool-cases (x.id == n)) [
  | inl k ↦ true≢false (sym (rw k refl) ∙ h)
  | inr k ↦ all_other us u n (rw k at h) rest e
]

only_row :
    (us : List UploadTask) (u x : UploadTask)
    → Distinct (map (λ a. a.id) us)
    → IsIn u us
    → IsIn x us
    → x.id ≡ u.id
    → x ≡ u
only_row [] u x d m n e = absurd m
only_row (a ∷ us) u x (d, ds) (inl m) (inl n) e = n ∙ sym m
only_row (a ∷ us) u x (d, ds) (inl m) (inr n) e =
    absurd (all_other us x a.id d n (e ∙ ap (λ y. y.id) m))
only_row (a ∷ us) u x (d, ds) (inr m) (inl n) e =
    absurd (all_other us u a.id d m (sym e ∙ ap (λ y. y.id) n))
only_row (a ∷ us) u x (d, ds) (inr m) (inr n) e = only_row us u x ds m n e

is_merging-eq : (s : UploadStatus) → is_merging s ≡ true → s ≡ UploadStatus.merging
is_merging-eq UploadStatus.merging e = refl
is_merging-eq UploadStatus.init e = cc
is_merging-eq UploadStatus.uploading e = cc
is_merging-eq UploadStatus.success e = cc
is_merging-eq UploadStatus.failed e = cc
is_merging-eq UploadStatus.canceled e = cc

-- what is left of a row, once it is known which upload it was
abbrev pub Left : ℕ → UploadTask → UploadTask → Type 0
Left before u v = (v ≡ u) ⊎ IsCutOff before u v

By-Left :
    (before : ℕ) (us : List UploadTask) (u v : UploadTask)
    → Distinct (map (λ a. a.id) us)
    → IsIn u us
    → By (keep (is_stale_upload before) us) u v
    → Left before u v
By-Left before us u v d m (inl e) = inl e
By-Left before us u v d m (inr (x, found, e, same, settled)) =
    let member = (IsIn-keep (is_stale_upload before) x us).0 found in
    let met : x ≡ u = only_row us u x d m member.0 e in
    let late =
      (and-eq-true_iff _ _).0 (subst (λ y. is_stale_upload before y ≡ true) met member.1) in
    inr (record {
      merging = is_merging-eq u.status late.0;
      stale = ground (arith, late.1);
      same = same;
      settled = subst (λ y. Settled y v) met settled;
    })

Each-map :
    (R Q : UploadTask → UploadTask → Type 0) (us vs : List UploadTask)
    → ((u v : UploadTask) → IsIn u us → R u v → Q u v)
    → Each R us vs
    → Each Q us vs
Each-map R Q [] [] h e = tt
Each-map R Q [] (v ∷ vs) h e = absurd e
Each-map R Q (u ∷ us) [] h e = absurd e
Each-map R Q (u ∷ us) (v ∷ vs) h (e, es) =
    (h u v (inl refl) e, Each-map R Q us vs (λ a b m. h a b (inr m)) es)

fold-Keeps :
    {W A B : Type 0} {P : W → Type 0} {f : A → B → Action W B} (items : List A) (b : B)
    → ((a : A) (b : B) → IsIn a items → Keeps P (f a b))
    → Keeps P (fold_each items f b)
unfolding fold_each
fold-Keeps [] b h = Keeps-pure b
fold-Keeps (a ∷ items) b h =
    Keeps-bind (h a b (inl refl)) (λ c. fold-Keeps items c (λ x d m. h x d (inr m)))

-- the rows, while the uploads `found` are repaired
record IsRepairing (found : List UploadTask) (before t : Tables) : Type 0 where
  metas : t.metas ≡ before.metas
  user_files : t.user_files ≡ before.user_files
  chunks : t.chunks ≡ before.chunks
  uploads : Each (By found) before.uploads t.uploads

module _ {S : ObjectStore} (c : Config) (sha256_hex : List ℕ → String) (found : List UploadTask)
    (before : Tables) where
  row_set :
      (whole : Bool) (x : UploadTask) (now : ℕ)
      → IsIn x found
      → Keeps (On S (IsRepairing found before)) (
          change (set_upload x.id (if whole then set_repaired (repair_key x) else set_reset x) now))
  unfolding set_row
  row_set whole x now m = Keeps-change _ (λ t h. record {
    metas = h.metas;
    user_files = h.user_files;
    chunks = h.chunks;
    uploads =
        Each-change (By found) (λ v. v.id == x.id) (set_row whole x now) before.uploads t.uploads
          (λ u v e k. set_row-By found whole x now u v m e k) h.uploads;
  })

  set_media-Keeps :
      (id : ℕ) (f : MediaTask → MediaTask) (now : ℕ)
      → Keeps (On S (IsRepairing found before)) (change (set_media id f now))
  set_media-Keeps id f now = Keeps-change _ (λ t h. record {
    metas = h.metas;
    user_files = h.user_files;
    chunks = h.chunks;
    uploads = h.uploads;
  })

  is_composed-Keeps :
      (upload : UploadTask)
      → Keeps (On S (IsRepairing found before)) (is_composed c sha256_hex upload)
  unfolding is_composed object_hash
  is_composed-Keeps upload = search (keeps_rules, rows_rules) depth 16

  repair_upload-Keeps :
      (x : UploadTask) (counts : Counts)
      → IsIn x found
      → Keeps (On S (IsRepairing found before)) (repair_upload c sha256_hex x counts)
  unfolding repair_upload
  repair_upload-Keeps x counts m = search (keeps_rules, is_composed-Keeps, row_set)

  retry_media-Keeps :
      (task : MediaTask) (counts : Counts)
      → Keeps (On S (IsRepairing found before)) (retry_media c sha256_hex task counts)
  unfolding retry_media
  retry_media-Keeps task counts = search (keeps_rules, rows_rules, set_media-Keeps) depth 12

  publish-Keeps :
      (task : MediaTask) (counts : Counts)
      → Keeps (On S (IsRepairing found before)) (publish_pending c sha256_hex task counts)
  unfolding publish_pending
  publish-Keeps task counts = search (keeps_rules, rows_rules)

-- What a run of `Compensate` leaves: each upload as it was, or settled, if its merge was cut off; and the
-- files, the users' files and the chunks as they were.
pub record IsCompensated (before : ℕ) (t u : Tables) : Type 0 where
  pub uploads : Each (Left before) t.uploads u.uploads
  pub metas : u.metas ≡ t.metas
  pub user_files : u.user_files ≡ t.user_files
  pub chunks : u.chunks ≡ t.chunks

module _ {S : ObjectStore} (c : Config) (sha256_hex : List ℕ → String) (w : World S)
    (consistent : IsConsistent w.tables) where
  IsRepairing-done :
      (u : Tables)
      → IsRepairing
          (keep (is_stale_upload (w.now - c.processing_timeout)) w.tables.uploads)
          w.tables
          u
      → IsCompensated (w.now - c.processing_timeout) w.tables u
  IsRepairing-done u h =
      let before = w.now - c.processing_timeout in
      record {
        uploads =
            Each-map (By (keep (is_stale_upload before) w.tables.uploads)) (Left before)
              w.tables.uploads u.uploads
              (λ a b m. By-Left before w.tables.uploads a b consistent.distinct_uploads m)
              h.uploads;
        metas = h.metas;
        user_files = h.user_files;
        chunks = h.chunks;
      }

  after_found :
      (found : List UploadTask)
      → Keeps (On S (IsRepairing found w.tables)) (
          fold_each found
            (repair_upload c sha256_hex)
            (record { repaired_uploads = 0; retried_media = 0; dead_media = 0 })
          >>= λ repaired.
              find_rows (λ t. keep (is_stale_media (w.now - c.processing_timeout)) t.media_tasks)
              >>= λ stuck. fold_each stuck (retry_media c sha256_hex) repaired >>= λ retried.
                  find_rows (λ t. keep (λ m. is_pending m.status) t.media_tasks) >>= λ pending.
                  fold_each pending (publish_pending c sha256_hex) retried)
  after_found found =
      Keeps-bind
        (fold-Keeps found _ (λ x n m. repair_upload-Keeps c sha256_hex found w.tables x n m))
        (λ repaired. Keeps-bind (Keeps-find _) (λ stuck.
          Keeps-bind (Keeps-fold stuck repaired (retry_media-Keeps c sha256_hex found w.tables))
            (λ retried.
              Keeps-bind (Keeps-find _) (λ pending.
                Keeps-fold pending retried (publish-Keeps c sha256_hex found w.tables)))))

  started : (t : Tables) → t ≡ w.tables → (found : List UploadTask) → IsRepairing found w.tables t
  started t e found = subst (IsRepairing found w.tables) (sym e) (record {
    metas = refl;
    user_files = refl;
    chunks = refl;
    uploads = Each-refl found w.tables.uploads;
  })

  all_left :
      (found : List UploadTask)
      → found ≡ keep (is_stale_upload (w.now - c.processing_timeout)) w.tables.uploads
      → (u : Tables) → IsRepairing found w.tables u
      → IsCompensated (w.now - c.processing_timeout) w.tables u
  all_left found e u h = IsRepairing-done u (subst (λ f. IsRepairing f w.tables u) e h)

  unchanged : IsCompensated (w.now - c.processing_timeout) w.tables w.tables
  unchanged = IsRepairing-done w.tables (started w.tables refl _)

  -- the run, once it has read the clock
  from_now :
      Ensures
        (On S (λ t. t ≡ w.tables))
        (find_rows (λ t. keep (is_stale_upload (w.now - c.processing_timeout)) t.uploads)
          >>= λ uploads.
              fold_each uploads
                (repair_upload c sha256_hex)
                (record { repaired_uploads = 0; retried_media = 0; dead_media = 0 })
              >>= λ repaired.
                  find_rows
                    (λ t. keep (is_stale_media (w.now - c.processing_timeout)) t.media_tasks)
                  >>= λ stuck. fold_each stuck (retry_media c sha256_hex) repaired >>= λ retried.
                      find_rows (λ t. keep (λ m. is_pending m.status) t.media_tasks) >>= λ pending.
                      fold_each pending (publish_pending c sha256_hex) retried)
        (λ n. On S (IsCompensated (w.now - c.processing_timeout) w.tables))
        (On S (IsCompensated (w.now - c.processing_timeout) w.tables))
  from_now =
      Ensures-bind
        (Ensures-weaken (λ v h. h) (λ found v h. h)
          (λ v h. record {
            rows =
                subst (IsCompensated (w.now - c.processing_timeout) w.tables) (sym h.rows)
                  unchanged;
          })
          (Ensures-find _))
        (λ found. record {
          from = λ v h.
              let e =
                h.rows.1
                ∙ ap (λ t. keep (is_stale_upload (w.now - c.processing_timeout)) t.uploads)
                    h.rows.0 in
              (Ensures-weaken (λ v h. h)
                  (λ n u k. record { rows = all_left found e u.tables k.rows })
                  (λ u k. record { rows = all_left found e u.tables k.rows })
                  (after_found found)).from
                v (record { rows = started v.tables h.rows.0 found });
        })

  compensated :
      (x : Outcome Counts × World S)
      → Ends
          (λ n. On S (IsCompensated (w.now - c.processing_timeout) w.tables))
          (On S (IsCompensated (w.now - c.processing_timeout) w.tables))
          x
      → IsCompensated (w.now - c.processing_timeout) w.tables x.1.tables
  compensated (done n, v) h = h.rows
  compensated (fails e, v) h = h.rows

-- From consistent tables, whatever statements the database refuses and whatever the store does, a run of
-- the compensation treats the uploads row by row: a row is left as it is, or it was `MERGING` and last
-- changed before the processing timeout, and then it is `SUCCESS` under its key, or `UPLOADING` with all
-- its chunks counted, or `FAILED` with some missing, and its hash, its size and its counts are as before.
-- Files, users' files and chunks are as they were, so that an upload set to `SUCCESS` gets no file.
pub compensate-IsCompensated :
    {S : ObjectStore} (c : Config) (sha256_hex : List ℕ → String) (w : World S)
    → IsConsistent w.tables
    → IsCompensated (w.now - c.processing_timeout) w.tables (compensate c sha256_hex w).1.tables
unfolding compensate ◌>>=◌ reads
compensate-IsCompensated c sha256_hex w h =
    compensated c sha256_hex w h (compensate c sha256_hex w)
      ((from_now c sha256_hex w h).from w (record { rows = refl }))
