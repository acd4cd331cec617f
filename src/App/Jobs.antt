-- ===== src/App/Jobs.antt =====
-- The list of awaited promises: taking one out, and what holds of it and of the rest.
use mathlib.Core.Option.{some-injective}
use cloud_file.Base.{
  ℕ, zero, suc, ◌≡◌, refl, ap, sym, subst, List, [], ◌∷◌, ◌++◌, some, arith, All, length,
}
use cloud_file.Wire.{Platform}
use cloud_file.App.State.{Console, Job}
use cloud_file.App.Step.{Outcome, take_job, continue_job, settle}

take_job-suc :
    (n : ℕ) (k : Job) (js : List Job) {j : Job} {rest : List Job}
    → take_job (suc n) (k ∷ js) ≡ some (j, rest)
    → (r : List Job) × (take_job n js ≡ some (j, r)) × (rest ≡ k ∷ r)
unfolding take_job
take_job-suc n k js e = ground arith

pub take_job-last : (js : List Job) (j : Job) → take_job (length js) (js ++ j ∷ []) ≡ some (j, js)
unfolding take_job
take_job-last [] j = refl
take_job-last (k ∷ js) j = rw (take_job-last js j, take_job)

pub take_job-All :
    (R : Job → Type 0) (n : ℕ) (js : List Job) {j : Job} {rest : List Job}
    → take_job n js ≡ some (j, rest)
    → All R js
    → R j × All R rest
unfolding take_job
take_job-All R n [] e h = cc
take_job-All R zero (k ∷ js) e h =
    let q = some-injective _ _ e in
    (subst R (ap (λ x. x.0) q) h.0, subst (All R) (ap (λ x. x.1) q) h.1)
take_job-All R (suc n) (k ∷ js) {j} {rest} e h =
    let (r, found, same_rest) = take_job-suc n k js e in
    let ih = take_job-All R n js found h.1 in (ih.0, subst (All R) (sym same_rest) (h.0, ih.1))

pub settle_lem :
    (p : Platform) (n : ℕ) (o : Outcome) (s : Console) {j : Job} {rest : List Job} {t : Console}
    → take_job n s.jobs ≡ some (j, rest)
    → continue_job p j o (record s { jobs = rest }) ≡ some t
    → settle p n o s ≡ t
unfolding settle
settle_lem p n o s e f = rw (e, settle) (rw (f, settle))
