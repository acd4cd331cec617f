-- ===== src/Server/Tables/Rows.antt =====
-- Lists of rows: a row added at the end, rows changed in place, rows that a test finds.
use mathlib.Core.Bool.{true≢false}
use cloud_file.Base.{
  ℕ, ◌==◌, Bool, true, false, ◌||◌, List, [], ◌∷◌, ◌++◌, map, any, keep, All, ◌≡◌, refl,
  if◌then◌else◌, Bool-cases, inl, inr, arith,
}
use cloud_file.Server.Model.{UploadChunk, is_uploaded}
use cloud_file.Server.World.{change_rows}
use cloud_file.Server.Rows.{is_uploaded_of, is_chunk_of}
use cloud_file.Server.Tables.{Distinct, indexes}

module _ {A : Type 0} where
  pub All-change :
      (P Q : A → Type 0) (test : A → Bool) (f : A → A)
      → ((a : A) → test a ≡ true → P a → Q (f a))
      → ((a : A) → test a ≡ false → P a → Q a)
      → (rows : List A) → All P rows
      → All Q (change_rows test f rows)
  All-change P Q test f hit miss [] h = tt
  All-change P Q test f hit miss (a ∷ rows) (h, hs) = elim (Bool-cases (test a)) [
    | inl e ↦ rw e (hit a e h, All-change P Q test f hit miss rows hs)
    | inr e ↦ rw e (miss a e h, All-change P Q test f hit miss rows hs)
  ]

  pub All-weaken :
      (P Q : A → Type 0) → ((a : A) → P a → Q a) → (rows : List A) → All P rows → All Q rows
  All-weaken P Q f [] h = tt
  All-weaken P Q f (a ∷ rows) (h, hs) = (f a h, All-weaken P Q f rows hs)

  pub All-add : (P : A → Type 0) (rows : List A) (a : A) → All P rows → P a → All P (rows ++ a ∷ [])
  All-add P [] a h p = (p, tt)
  All-add P (b ∷ rows) a (h, hs) p = (h, All-add P rows a hs p)

  pub keep-add :
      (test : A → Bool) (rows : List A) (a : A)
      → keep test (rows ++ a ∷ []) ≡ keep test rows ++ (if test a then a ∷ [] else [])
  keep-add test [] a = elim (Bool-cases (test a)) [ inl e ↦ rw e | inr e ↦ rw e ]
  keep-add test (b ∷ rows) a = elim (Bool-cases (test b)) [
    | inl e ↦ rw (e, keep-add test rows a)
    | inr e ↦ rw (e, keep-add test rows a)
  ]

  pub keep_none :
      (test : A → Bool) (rows : List A) → All (λ a. test a ≡ false) rows → keep test rows ≡ []
  keep_none test [] h = refl
  keep_none test (a ∷ rows) (h, hs) = rw (h, keep_none test rows hs)

  pub map-change :
      {B : Type 0} (g : A → B) (test : A → Bool) (f : A → A)
      → ((a : A) → g (f a) ≡ g a)
      → (rows : List A) → map g (change_rows test f rows) ≡ map g rows
  map-change g test f same [] = refl
  map-change g test f same (a ∷ rows) = elim (Bool-cases (test a)) [
    | inl e ↦ rw (e, same a, map-change g test f same rows)
    | inr e ↦ rw (e, map-change g test f same rows)
  ]

  pub any-add :
      (test : A → Bool) (rows : List A) (a : A)
      → any test (rows ++ a ∷ []) ≡ (any test rows || test a)
  any-add test [] a = elim (Bool-cases (test a)) [ inl e ↦ rw e | inr e ↦ rw e ]
  any-add test (b ∷ rows) a = elim (Bool-cases (test b)) [
    | inl e ↦ rw e
    | inr e ↦ rw (e, any-add test rows a)
  ]

  pub All-both :
      (P Q : A → Type 0) (rows : List A) → All P rows → All Q rows → All (λ a. P a × Q a) rows
  All-both P Q [] h k = tt
  All-both P Q (a ∷ rows) (h, hs) (k, ks) = ((h, k), All-both P Q rows hs ks)

  pub append_nil : (rows : List A) → rows ++ [] ≡ rows
  append_nil [] = refl
  append_nil (a ∷ rows) = rw (append_nil rows)

pub indexes-add :
    (rows : List UploadChunk) (r : UploadChunk)
    → indexes (rows ++ r ∷ []) ≡ indexes rows ++ r.chunk_index ∷ []
indexes-add [] r = refl
indexes-add (q ∷ rows) r = rw (indexes-add rows r)

pub Distinct-add :
    (is : List ℕ) (i : ℕ) → Distinct is → any (λ j. j == i) is ≡ false → Distinct (is ++ i ∷ [])
Distinct-add [] i d h = (refl, tt)
Distinct-add (j ∷ is) i (d, ds) h = elim (Bool-cases (j == i)) [
  | inl e ↦ absurd (true≢false (rw e at h))
  | inr e ↦
      (rw (any-add (λ k. k == j) is i, d) (ground (arith, e)), Distinct-add is i ds (rw e at h))
]

-- a chunk that is not in the table is not among its upload's
pub any-own :
    (id i : ℕ) (rows : List UploadChunk)
    → any (is_chunk_of id i) rows ≡ false
    → any (λ j. j == i) (indexes (keep (is_uploaded_of id) rows)) ≡ false
any-own id i [] h = refl
any-own id i (r ∷ rows) h = elim (Bool-cases (r.upload_id == id)) [
  | inl e ↦ elim (Bool-cases (r.chunk_index == i)) [
    | inl f ↦ absurd (true≢false (rw (e, f) at h))
    | inr f ↦ elim (Bool-cases (is_uploaded r.status)) [
      | inl u ↦ rw (e, u, f) (any-own id i rows (rw (e, f) at h))
      | inr u ↦ rw (e, u) (any-own id i rows (rw (e, f) at h))
    ]
  ]
  | inr e ↦ rw e (any-own id i rows (rw e at h))
]
