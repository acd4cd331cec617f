-- ===== src/App/Chunks.antt =====
-- The chunk list of a task: its numbering, and what marking one chunk does to the others.
pub mod Marking
pub mod Resuming
use mathlib.Core.Option.{some-injective}
use cloud_file.Base.{
  ℕ, zero, suc, ◌+◌, ◌≤◌, ◌<◌, ◌≡◌, refl, ap, sym, subst, ◌∙◌, ◌≢◌, ◌⊎◌, inl, inr, Bool, true,
  false, List, [], ◌∷◌, map, Option, none, some, if◌then◌else◌, ◌==◌, ==_iff, arith, All,
  Bool-cases, length, length-map, find, any,
}
use cloud_file.Types.{ChunkStatus, Chunk}
use cloud_file.App.Patches.{
  make_chunks, make_chunks_from, set_status, mark_chunk, is_open, next_chunk,
}
use cloud_file.App.Patch.{reconcile_chunk, reconcile, reset_sending}

-- The indexes count up from `i`.
abbrev pub Numbered : ℕ → List Chunk → Type 0
Numbered i [] = Unit
Numbered i (c ∷ cs) = (c.index ≡ i) × Numbered (suc i) cs

-- A change of statuses only.
abbrev pub KeepsIndex : (Chunk → Chunk) → Type 0
KeepsIndex f = (c : Chunk) → (f c).index ≡ c.index

pub map-Numbered :
    (f : Chunk → Chunk)
    → KeepsIndex f
    → (i : ℕ) (cs : List Chunk) → Numbered i cs
    → Numbered i (map f cs)
map-Numbered f k i [] h = tt
map-Numbered f k i (c ∷ cs) h = (k c ∙ h.0, map-Numbered f k (suc i) cs h.1)

pub mark_chunk-Numbered :
    (index : ℕ) (status : ChunkStatus) (i : ℕ) (cs : List Chunk)
    → Numbered i cs
    → Numbered i (mark_chunk index status cs)
unfolding mark_chunk
mark_chunk-Numbered index status i cs h =
    map-Numbered (λ c. if c.index == index then set_status status c else c) (λ c. ground arith) i cs
      h

pub length-mark_chunk :
    (index : ℕ) (status : ChunkStatus) (cs : List Chunk)
    → length (mark_chunk index status cs) ≡ length cs
unfolding mark_chunk
length-mark_chunk index status cs = length-map _ cs

reset_sending-index : (c : Chunk) → (reset_sending c).index ≡ c.index
reset_sending-index c = ground arith

pub reconcile-Numbered :
    (indexes : List ℕ) (i : ℕ) (cs : List Chunk) → Numbered i cs → Numbered i (reconcile indexes cs)
unfolding reconcile
reconcile-Numbered indexes i cs h =
    map-Numbered (reconcile_chunk indexes) (λ c. ground arith) i cs h

pub length-reconcile :
    (indexes : List ℕ) (cs : List Chunk) → length (reconcile indexes cs) ≡ length cs
unfolding reconcile
length-reconcile indexes cs = length-map _ cs

pub reset-Numbered : (i : ℕ) (cs : List Chunk) → Numbered i cs → Numbered i (map reset_sending cs)
reset-Numbered i cs h = map-Numbered reset_sending reset_sending-index i cs h

make_chunks_from-Numbered : (i n : ℕ) → Numbered i (make_chunks_from i n)
unfolding make_chunks_from
make_chunks_from-Numbered i zero = tt
make_chunks_from-Numbered i (suc n) = (refl, make_chunks_from-Numbered (suc i) n)

length-make_chunks_from : (i n : ℕ) → length (make_chunks_from i n) ≡ n
unfolding make_chunks_from
length-make_chunks_from i zero = refl
length-make_chunks_from i (suc n) = ap suc (length-make_chunks_from (suc i) n)

pub make_chunks-Numbered : (n : ℕ) → Numbered 0 (make_chunks n)
unfolding make_chunks
make_chunks-Numbered n = make_chunks_from-Numbered 0 n

pub length-make_chunks : (n : ℕ) → length (make_chunks n) ≡ n
unfolding make_chunks
length-make_chunks n = length-make_chunks_from 0 n

pub next_chunk_bounds :
    (i : ℕ) (cs : List Chunk) (c : Chunk)
    → Numbered i cs
    → next_chunk cs ≡ some c
    → (i ≤ c.index) × (c.index < i + length cs)
unfolding next_chunk
next_chunk_bounds i [] c h e = cc
next_chunk_bounds i (d ∷ cs) c h e = elim (Bool-cases (is_open d.status)) [
  | inl o ↦
      let same : d ≡ c = some-injective _ _ (rw o at e) in
      omega (arith, ap (λ x. x.index) same, h.0)
  | inr o ↦ omega (arith, next_chunk_bounds (suc i) cs c h.1 (rw o at e))
]

-- The chunk that is sent next is one of the task.
pub next_chunk-lt-length :
    (cs : List Chunk) (c : Chunk) → Numbered 0 cs → next_chunk cs ≡ some c → c.index < length cs
next_chunk-lt-length cs c h e = omega (arith, next_chunk_bounds 0 cs c h e)
