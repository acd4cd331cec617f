-- ===== src/Server/Tables/Announced.antt =====
-- The upload that a request of backend/internal/service/service.go found: its range, and a chunk added to it.
use mathlib.Core.Bool.{true≢false}
use mathlib.Core.Option.{some-injective}
use cloud_file.Base.{
  ℕ, ◌==◌, ◌<◌, Bool, true, false, String, List, [], ◌∷◌, map, any, find, All, none, some, ltb, ◌≡◌,
  subst, ap, ◌⊎◌, Bool-cases, inl, inr, arith,
}
use cloud_file.Base.Int.{ℤ, pos, negsuc}
use cloud_file.App.Invariant.{All-find}
use cloud_file.Server.Model.{UploadTask}
use cloud_file.Server.Action.Rules.{Ends}
use cloud_file.Server.World.{Tables}
use cloud_file.Server.Rows.{is_chunk_of, new_chunk, create_chunk, in_range}
use cloud_file.Server.Tables.{Distinct, Agrees, IsConsistent, counted_more, Announces}
use cloud_file.Server.Tables.Steps.{Agrees-create_chunk}

abbrev pub Admits : ℕ → ℕ → Tables → Type 0
Admits id n t = IsConsistent t × Announces id n t

-- the row is refused, or there and not yet counted
pub create_chunk-Agrees :
    (id i n : ℕ) (hash : String) (size : ℕ) (t : Tables)
    → ltb i n ≡ true
    → Admits id n t
    → Ends
        (λ a. Agrees (counted_more id))
        (λ t. Unit {0})
        (create_chunk (new_chunk id i hash size) t)
create_chunk-Agrees id i n hash size t l h = elim (Bool-cases (any (is_chunk_of id i) t.chunks)) [
  | inl e ↦ rw e tt
  | inr e ↦ rw e (Agrees-create_chunk id i n hash size t l e h.1 h.0)
]

other_id :
    (test : UploadTask → Bool) (k : ℕ) (task : UploadTask) (us : List UploadTask)
    → any (λ j. j == k) (map (λ u. u.id) us) ≡ false
    → find test us ≡ some task
    → (task.id == k) ≡ false
other_id test k task [] h e = cc
other_id test k task (u ∷ us) h e = elim (Bool-cases (u.id == k)) [
  | inl d ↦ absurd (true≢false (rw d at h))
  | inr d ↦ elim (Bool-cases (test u)) [
    | inl f ↦ subst (λ v. (v.id == k) ≡ false) (some-injective _ _ (rw f at e)) d
    | inr f ↦ other_id test k task us (rw d at h) (rw f at e)
  ]
]

others :
    (task : UploadTask) (us : List UploadTask)
    → any (λ j. j == task.id) (map (λ u. u.id) us) ≡ false
    → All (λ u. (u.chunk_count ≡ task.chunk_count) ⊎ ((u.id == task.id) ≡ false)) us
others task [] h = tt
others task (u ∷ us) h = elim (Bool-cases (u.id == task.id)) [
  | inl d ↦ absurd (true≢false (rw d at h))
  | inr d ↦ (inr d, others task us (rw d at h))
]

announced_by :
    (test : UploadTask → Bool) (task : UploadTask) (us : List UploadTask)
    → Distinct (map (λ u. u.id) us)
    → find test us ≡ some task
    → All (λ u. (u.chunk_count ≡ task.chunk_count) ⊎ ((u.id == task.id) ≡ false)) us
announced_by test task [] d e = tt
announced_by test task (u ∷ us) (d, ds) e = elim (Bool-cases (test u)) [
  | inl f ↦
      let p : u ≡ task = some-injective _ _ (rw f at e) in
      (
        inl (ap (λ v. v.chunk_count) p),
        others task us (subst (λ v. any (λ j. j == v.id) (map (λ w. w.id) us) ≡ false) p d),
      )
  | inr f ↦ (
    inr (ground (arith, other_id test u.id task us d (rw f at e))),
    announced_by test task us ds (rw f at e),
  )
]

pub Announces-find :
    (test : UploadTask → Bool) (task : UploadTask) (t : Tables)
    → IsConsistent t
    → find test t.uploads ≡ some task
    → Announces task.id task.chunk_count t
Announces-find test task t h e = record {
  announced = announced_by test task t.uploads h.distinct_uploads e;
  given = All-find (λ u. u.id < t.next_id) test t.uploads e h.old_uploads;
}

none_is_some : (b : Bool) (k : ℕ) → none ≡ some k → b ≡ true
none_is_some b k e = cc

pub in_range-lt : (i : ℤ) (n k : ℕ) → in_range i n ≡ some k → ltb k n ≡ true
in_range-lt (negsuc i) n k e = cc
in_range-lt (pos i) n k e = elim (Bool-cases (ltb i n)) [
  | inl l ↦ subst (λ j. ltb j n ≡ true) (some-injective _ _ (rw l at e)) l
  | inr l ↦ none_is_some _ k (rw l at e)
]
