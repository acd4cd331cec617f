-- ===== src/App/Chunks/Marking.antt =====
-- What `updateTask` makes of the chunk that is sent: one mark, which leaves the other chunks alone.
use mathlib.Core.Option.{some-injective}
use cloud_file.Base.{
  ℕ, suc, ◌<◌, ◌≡◌, refl, ap, sym, ◌∙◌, ◌≢◌, inl, inr, true, false, List, [], ◌∷◌, none, some,
  if◌then◌else◌, ◌==◌, arith, All, Bool-cases,
}
use cloud_file.Types.{ChunkStatus, Chunk}
use cloud_file.App.Patches.{set_status, mark_chunk, is_open, next_chunk}
use cloud_file.App.Chunks.{Numbered, next_chunk_bounds}

-- how many chunks are still to be sent
unfoldable pub open_count : List Chunk → ℕ
open_count [] = 0
open_count (c ∷ cs) = let rest = open_count cs in if is_open c.status then suc rest else rest

-- No chunk is on its way.
abbrev pub IsQuiet : Chunk → Type 0
IsQuiet c = c.status ≢ ChunkStatus.uploading

abbrev pub IsUploaded : Chunk → Type 0
IsUploaded c = c.status ≡ ChunkStatus.uploaded

pub mark_chunk-above :
    (j i : ℕ) (status : ChunkStatus) (cs : List Chunk)
    → j < i
    → Numbered i cs
    → mark_chunk j status cs ≡ cs
unfolding mark_chunk
mark_chunk-above j i status [] lt h = refl
mark_chunk-above j i status (c ∷ cs) lt h =
    let same = mark_chunk-above j (suc i) status cs (omega arith) h.1 in ground arith

pub mark_chunk_twice :
    (j : ℕ) (a b : ChunkStatus) (cs : List Chunk)
    → mark_chunk j a (mark_chunk j b cs) ≡ mark_chunk j a cs
unfolding mark_chunk
mark_chunk_twice j a b [] = refl
mark_chunk_twice j a b (c ∷ cs) = let same = mark_chunk_twice j a b cs in ground arith

next_chunk-skip :
    (d : Chunk) (cs : List Chunk) → is_open d.status ≡ false → next_chunk (d ∷ cs) ≡ next_chunk cs
unfolding next_chunk
next_chunk-skip d cs h = rw h

next_chunk-head :
    (d : Chunk) (cs : List Chunk) → is_open d.status ≡ true → next_chunk (d ∷ cs) ≡ some d
unfolding next_chunk
next_chunk-head d cs h = rw h

pub mark_chunk-cons :
    (j : ℕ) (status : ChunkStatus) (d : Chunk) (cs : List Chunk)
    → mark_chunk j status (d ∷ cs)
      ≡ (if d.index == j then set_status status d else d) ∷ mark_chunk j status cs
unfolding mark_chunk
mark_chunk-cons j status d cs = refl

-- Marking the next chunk as uploaded leaves one less to send.
pub open_count-mark_chunk :
    (i : ℕ) (cs : List Chunk) (c : Chunk)
    → Numbered i cs
    → next_chunk cs ≡ some c
    → open_count cs ≡ suc (open_count (mark_chunk c.index ChunkStatus.uploaded cs))
unfolding open_count
open_count-mark_chunk i [] c h e = unfold next_chunk in cc
open_count-mark_chunk i (d ∷ cs) c h e = elim (Bool-cases (is_open d.status)) [
  | inl o ↦
      let same : d ≡ c = some-injective _ _ (sym (next_chunk-head d cs o) ∙ e) in
      let here : d.index ≡ c.index = ap (λ x. x.index) same in
      let there =
        mark_chunk-above c.index (suc i) ChunkStatus.uploaded cs (omega (arith, h.0)) h.1 in
      ground (arith, mark_chunk-cons c.index ChunkStatus.uploaded d cs)
  | inr o ↦
      let later = sym (next_chunk-skip d cs o) ∙ e in
      let above = next_chunk_bounds (suc i) cs c h.1 later in
      let rest = open_count-mark_chunk (suc i) cs c h.1 later in
      ground (arith, mark_chunk-cons c.index ChunkStatus.uploaded d cs)
]

pub mark_chunk-IsQuiet :
    (j : ℕ) (cs : List Chunk) → All IsQuiet cs → All IsQuiet (mark_chunk j ChunkStatus.uploaded cs)
unfolding mark_chunk
mark_chunk-IsQuiet j [] h = tt
mark_chunk-IsQuiet j (c ∷ cs) h = (ground arith, mark_chunk-IsQuiet j cs h.1)

-- With nothing to send and nothing on its way, all is uploaded.
pub next_chunk-none-IsUploaded :
    (cs : List Chunk) → next_chunk cs ≡ none → All IsQuiet cs → All IsUploaded cs
unfolding next_chunk
next_chunk-none-IsUploaded [] e h = tt
next_chunk-none-IsUploaded (c ∷ cs) e h =
    (ground arith, next_chunk-none-IsUploaded cs (ground arith) h.1)

pub open_count-zero : (cs : List Chunk) → open_count cs ≡ 0 → next_chunk cs ≡ none
unfolding open_count next_chunk
open_count-zero [] e = refl
open_count-zero (c ∷ cs) e = ground (arith, open_count-zero cs)

pub open_count-suc :
    (n : ℕ) (cs : List Chunk) → open_count cs ≡ suc n → (c : Chunk) × (next_chunk cs ≡ some c)
unfolding open_count next_chunk
open_count-suc n [] e = absurd (omega arith)
open_count-suc n (c ∷ cs) e = elim (Bool-cases (is_open c.status)) [
  | inl o ↦ (c, rw o)
  | inr o ↦ let (d, f) = open_count-suc n cs (rw o at e) in (d, rw o f)
]
