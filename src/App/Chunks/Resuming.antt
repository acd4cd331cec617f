-- ===== src/App/Chunks/Resuming.antt =====
-- Which chunk goes next after a resume and after a retry.
use mathlib.Core.Option.{some-injective}
use cloud_file.Base.{
  ℕ, suc, ◌≡◌, refl, ap, sym, subst, ◌∙◌, ◌≢◌, ◌⊎◌, ◌↔◌, inl, inr, Bool, true, false, List, [], ◌∷◌,
  map, none, some, ◌==◌, arith, All, Bool-cases, any,
}
use cloud_file.Types.{ChunkStatus, Chunk}
use cloud_file.App.Patches.{set_status, mark_chunk, is_open, next_chunk}
use cloud_file.App.Patch.{reconcile_chunk, reconcile, reset_sending}
use cloud_file.App.Chunks.{Numbered, next_chunk_bounds}
use cloud_file.App.Chunks.Marking.{IsQuiet, IsUploaded}

-- the backend's answer lists the chunk
abbrev pub is_listed : List ℕ → Chunk → Bool
is_listed indexes c = any (λ i. i == c.index) indexes

-- There is a chunk of the list with a property.
abbrev pub Some : (Chunk → Type 0) → List Chunk → Type 0
Some P [] = ⊥
Some P (c ∷ cs) = P c ⊎ Some P cs

reconcile_chunk-closed :
    (indexes : List ℕ) (c : Chunk)
    → is_open (reconcile_chunk indexes c).status ≡ false
    → ((is_listed indexes c ≡ true) ⊎ IsUploaded c) × IsUploaded (reconcile_chunk indexes c)
unfolding reconcile_chunk
reconcile_chunk-closed indexes c h = ground arith

reconcile_chunk-open :
    (indexes : List ℕ) (c : Chunk)
    → is_open (reconcile_chunk indexes c).status ≡ true
    → (is_listed indexes c ≡ false) × (c.status ≢ ChunkStatus.uploaded)
unfolding reconcile_chunk
reconcile_chunk-open indexes c h = ground arith

reconcile_chunk-index : (indexes : List ℕ) (c : Chunk) → (reconcile_chunk indexes c).index ≡ c.index
unfolding reconcile_chunk
reconcile_chunk-index indexes c = ground arith

pub next_chunk-cases :
    (c : Chunk) (cs : List Chunk)
    → ((is_open c.status ≡ true) × (next_chunk (c ∷ cs) ≡ some c))
      ⊎ ((is_open c.status ≡ false) × (next_chunk (c ∷ cs) ≡ next_chunk cs))
unfolding next_chunk
next_chunk-cases c cs = elim (Bool-cases (is_open c.status)) [
  | inl o ↦ inl (o, rw o)
  | inr o ↦ inr (o, rw o)
]

reconcile-cons :
    (indexes : List ℕ) (c : Chunk) (cs : List Chunk)
    → reconcile indexes (c ∷ cs) ≡ reconcile_chunk indexes c ∷ reconcile indexes cs
unfolding reconcile
reconcile-cons indexes c cs = refl

-- After a resume the chunk that goes next is not listed by the backend, and was not marked as
-- uploaded before.
pub next_chunk-reconcile :
    (indexes : List ℕ) (cs : List Chunk) (c : Chunk)
    → next_chunk (reconcile indexes cs) ≡ some c
    → (is_listed indexes c ≡ false)
      × Some (λ d. (d.index ≡ c.index) × (d.status ≢ ChunkStatus.uploaded)) cs
next_chunk-reconcile indexes [] c e = unfold next_chunk reconcile in cc
next_chunk-reconcile indexes (d ∷ cs) c e =
    elim (next_chunk-cases (reconcile_chunk indexes d) (reconcile indexes cs)) [
      | inl (o, f) ↦
          let same : reconcile_chunk indexes d ≡ c =
            some-injective _ _ (sym f ∙ sym (ap next_chunk (reconcile-cons indexes d cs)) ∙ e) in
          let index : d.index ≡ c.index =
            sym (reconcile_chunk-index indexes d) ∙ ap (λ x. x.index) same in
          let facts = reconcile_chunk-open indexes d o in
          (rw (← index) facts.0, inl (index, facts.1))
      | inr (o, f) ↦
          let ih =
            next_chunk-reconcile indexes cs c
              (sym f ∙ sym (ap next_chunk (reconcile-cons indexes d cs)) ∙ e) in
          (ih.0, inr ih.1)
    ]

not_closed :
    (b : Bool) (status : ChunkStatus)
    → (b ≡ false) × (status ≢ ChunkStatus.uploaded)
    → ¬ ((b ≡ true) ⊎ (status ≡ ChunkStatus.uploaded))
not_closed b status (f, g) (inl t) = cc
not_closed b status (f, g) (inr u) = g u

-- After a resume nothing is left to send exactly when each chunk is listed by the backend or was
-- marked as uploaded before.
pub next_chunk-reconcile-none :
    (indexes : List ℕ) (cs : List Chunk)
    → (next_chunk (reconcile indexes cs) ≡ none)
      ↔ All (λ c. (is_listed indexes c ≡ true) ⊎ IsUploaded c) cs
unfolding reconcile
next_chunk-reconcile-none indexes [] = unfold next_chunk in (λ e. tt, λ h. refl)
next_chunk-reconcile-none indexes (c ∷ cs) =
    let ih = next_chunk-reconcile-none indexes cs in
    elim (next_chunk-cases (reconcile_chunk indexes c) (reconcile indexes cs)) [
      | inl (o, f) ↦
          let facts = reconcile_chunk-open indexes c o in
          (λ e. cc, λ h. absurd (not_closed (is_listed indexes c) c.status facts h.0))
      | inr (o, f) ↦
          let facts = reconcile_chunk-closed indexes c o in
          (λ e. (facts.0, ih.0 (sym f ∙ e)), λ h. f ∙ ih.1 h.1)
    ]

-- When nothing is left to send after a resume, every chunk is marked as uploaded: none is shown as on
-- its way, as waiting or as failed.
pub reconcile-IsUploaded :
    (indexes : List ℕ) (cs : List Chunk)
    → next_chunk (reconcile indexes cs) ≡ none
    → All IsUploaded (reconcile indexes cs)
unfolding reconcile
reconcile-IsUploaded indexes [] e = tt
reconcile-IsUploaded indexes (c ∷ cs) e =
    elim (next_chunk-cases (reconcile_chunk indexes c) (reconcile indexes cs)) [
      | inl (o, f) ↦ cc
      | inr (o, f) ↦
          ((reconcile_chunk-closed indexes c o).1, reconcile-IsUploaded indexes cs (sym f ∙ e))
    ]

-- While no other chunk is on its way, a chunk that failed goes first after a retry.
pub next_chunk-retry :
    (i : ℕ) (cs : List Chunk) (c : Chunk)
    → Numbered i cs
    → All IsQuiet cs
    → next_chunk cs ≡ some c
    → next_chunk (map reset_sending (mark_chunk c.index ChunkStatus.failed cs))
      ≡ some (set_status ChunkStatus.failed c)
unfolding next_chunk mark_chunk
next_chunk-retry i [] c h q e = cc
next_chunk-retry i (d ∷ cs) c h q e = elim (Bool-cases (is_open d.status)) [
  | inl o ↦
      let same : d ≡ c = some-injective _ _ (rw o at e) in
      subst
        (λ x.
          next_chunk (map reset_sending (mark_chunk x.index ChunkStatus.failed (d ∷ cs)))
          ≡ some (set_status ChunkStatus.failed x))
        same (ground arith)
  | inr o ↦
      let later : next_chunk cs ≡ some c = unfold next_chunk in rw o at e in
      let above = next_chunk_bounds (suc i) cs c h.1 later in
      let rest = next_chunk-retry (suc i) cs c h.1 q.1 later in ground arith
]
