-- ===== src/Server/Parts/Order.antt =====
-- backend/internal/service/service.go: `ORDER BY chunk_index ASC` on rows of distinct indexes below their
-- number gives each index in turn.
use mathlib.Core.Bool.{true≢false}
use cloud_file.Base.{
  ℕ, zero, suc, ◌+◌, ◌-◌, ◌<◌, ◌≤◌, ◌==◌, ◌≡◌, refl, ◌∙◌, true, false, List, [], ◌∷◌, any, length,
  length-map, All, ltb, leb, ltb→lt, Bool-cases, inl, inr, arith,
}
use cloud_file.Server.Model.{UploadChunk}
use cloud_file.Server.Rows.{insert_chunk, sort_chunks}
use cloud_file.Server.Tables.{Distinct, indexes}
use cloud_file.Server.Tables.Rows.{All-weaken}

-- `lo`, `lo + 1`, … , `lo + n - 1`
unfoldable pub up_from : ℕ → ℕ → List ℕ
up_from lo zero = []
up_from lo (suc n) = lo ∷ up_from (lo + 1) n

-- each less than all that follow
unfoldable pub Rising : List ℕ → Type 0
Rising [] = Unit
Rising (i ∷ is) = All (λ j. i < j) is × Rising is

length_le :
    (lo hi : ℕ) (is : List ℕ)
    → Rising is
    → All (λ i. lo ≤ i) is
    → All (λ i. i < hi) is
    → length is ≤ hi - lo
unfolding Rising
length_le lo hi [] r l h = omega arith
length_le lo hi (i ∷ is) (r, rs) (l, ls) (h, hs) =
    let k : length is ≤ hi - (i + 1) =
      length_le (i + 1) hi is rs (All-weaken _ _ (λ j m. omega arith) is r) hs in
    omega arith

Rising-up_from :
    (lo n : ℕ) (is : List ℕ)
    → Rising is
    → All (λ i. lo ≤ i) is
    → All (λ i. i < lo + n) is
    → length is ≡ n
    → is ≡ up_from lo n
unfolding Rising up_from
Rising-up_from lo zero [] r l h e = refl
Rising-up_from lo (suc n) [] r l h e = absurd (omega arith)
Rising-up_from lo zero (i ∷ is) r l h e = absurd (omega arith)
Rising-up_from lo (suc n) (i ∷ is) (r, rs) (l, ls) (h, hs) e =
    let k : length is ≤ lo + suc n - (i + 1) =
      length_le (i + 1) (lo + suc n) is rs (All-weaken _ _ (λ j m. omega arith) is r) hs in
    let p : i ≡ lo = omega arith in
    rw (
      p,
      ← Rising-up_from (lo + 1) n is rs (All-weaken _ _ (λ j m. omega arith) is r)
          (All-weaken _ _ (λ j m. omega arith) is hs) (omega arith),
    )

module _ (P : UploadChunk → Type 0) where
  All-insert :
      (r : UploadChunk) (rows : List UploadChunk) → P r → All P rows → All P (insert_chunk r rows)
  unfolding insert_chunk
  All-insert r [] p h = (p, tt)
  All-insert r (s ∷ rows) p (h, hs) = elim (Bool-cases (leb r.chunk_index s.chunk_index)) [
    | inl e ↦ rw e (p, (h, hs))
    | inr e ↦ rw e (h, All-insert r rows p hs)
  ]

  pub All-sort : (rows : List UploadChunk) → All P rows → All P (sort_chunks rows)
  unfolding sort_chunks
  All-sort [] h = tt
  All-sort (r ∷ rows) (h, hs) = All-insert r (sort_chunks rows) h (All-sort rows hs)

length-insert :
    (r : UploadChunk) (rows : List UploadChunk) → length (insert_chunk r rows) ≡ suc (length rows)
unfolding insert_chunk
length-insert r [] = refl
length-insert r (s ∷ rows) = elim (Bool-cases (leb r.chunk_index s.chunk_index)) [
  | inl e ↦ rw e
  | inr e ↦ rw (e, length-insert r rows)
]

pub length-sort : (rows : List UploadChunk) → length (sort_chunks rows) ≡ length rows
unfolding sort_chunks
length-sort [] = refl
length-sort (r ∷ rows) = rw (length-insert r (sort_chunks rows), length-sort rows)

-- a row whose index the others do not have
Apart : ℕ → List UploadChunk → Type 0
Apart i rows = All (λ r. (r.chunk_index == i) ≡ false) rows

Apart-distinct :
    (i : ℕ) (rows : List UploadChunk) → any (λ j. j == i) (indexes rows) ≡ false → Apart i rows
unfolding Apart
Apart-distinct i [] h = tt
Apart-distinct i (r ∷ rows) h = elim (Bool-cases (r.chunk_index == i)) [
  | inl e ↦ absurd (true≢false (rw e at h))
  | inr e ↦ (e, Apart-distinct i rows (rw e at h))
]

-- the indexes of rows in strictly rising order
Climbs : List UploadChunk → Type 0
Climbs [] = Unit
Climbs (r ∷ rows) = All (λ s. r.chunk_index < s.chunk_index) rows × Climbs rows

Climbs-insert :
    (r : UploadChunk) (rows : List UploadChunk)
    → Apart r.chunk_index rows
    → Climbs rows
    → Climbs (insert_chunk r rows)
unfolding insert_chunk Apart Climbs
Climbs-insert r [] a h = (tt, tt)
Climbs-insert r (s ∷ rows) (a, others) (h, hs) =
    elim (Bool-cases (leb r.chunk_index s.chunk_index)) [
      | inl e ↦
          let l : r.chunk_index < s.chunk_index = ground arith in
          rw e ((l, All-weaken _ _ (λ q m. omega arith) rows h), (h, hs))
      | inr e ↦ rw e (All-insert _ r rows (ground arith) h, Climbs-insert r rows others hs)
    ]

Climbs-sort : (rows : List UploadChunk) → Distinct (indexes rows) → Climbs (sort_chunks rows)
unfolding sort_chunks Climbs Apart
Climbs-sort [] d = tt
Climbs-sort (r ∷ rows) (d, ds) =
    Climbs-insert r (sort_chunks rows) (All-sort _ rows (Apart-distinct r.chunk_index rows d))
      (Climbs-sort rows ds)

pub All-indexes :
    (P : ℕ → Type 0) (rows : List UploadChunk)
    → All (λ r. P r.chunk_index) rows
    → All P (indexes rows)
All-indexes P [] h = tt
All-indexes P (r ∷ rows) (h, hs) = (h, All-indexes P rows hs)

Rising-indexes : (rows : List UploadChunk) → Climbs rows → Rising (indexes rows)
unfolding Climbs Rising
Rising-indexes [] h = tt
Rising-indexes (r ∷ rows) (h, hs) = (All-indexes _ rows h, Rising-indexes rows hs)

pub Rising-sorted :
    (rows : List UploadChunk) → Distinct (indexes rows) → Rising (indexes (sort_chunks rows))
Rising-sorted rows d = Rising-indexes (sort_chunks rows) (Climbs-sort rows d)

pub below : (r : UploadChunk) (n : ℕ) → ltb r.chunk_index n ≡ true → r.chunk_index < 0 + n
below r n h = omega (arith, ltb→lt r.chunk_index n h)

pub sorted_range :
    (rows : List UploadChunk) (n : ℕ)
    → length rows ≡ n
    → All (λ r. ltb r.chunk_index n ≡ true) rows
    → Distinct (indexes rows)
    → indexes (sort_chunks rows) ≡ up_from 0 n
sorted_range rows n e l d =
    Rising-up_from 0 n (indexes (sort_chunks rows)) (Rising-sorted rows d)
      (All-indexes _ _ (All-sort _ rows (All-weaken _ _ (λ r h. omega arith) rows l)))
      (All-indexes _ _ (All-sort _ rows (All-weaken _ _ (λ r h. below r n h) rows l)))
      (length-map (λ r. r.chunk_index) (sort_chunks rows) ∙ length-sort rows ∙ e)
