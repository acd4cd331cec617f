-- ===== src/Base/Tables.antt =====
-- A test that holds of every number below a bound, by evaluation.
use Prim.Native.Nat.{ℕ, zero, suc, ◌<◌}
use mathlib.Core.Path.{◌≡◌, sym, subst}
use mathlib.Core.Logic.{inl, inr}
use mathlib.Core.Bool.{Bool, true, ◌&&◌, and-eq-true_iff}
use native.Mathlib.Omega.{arith}
use cloud_file.Base.Tests.{ltb, ltb→lt, Bool-cases}

-- a table of a test, row by row
abbrev pub passes : (ℕ → Bool) → ℕ → Bool
passes test zero = true
passes test (suc rows) = passes test rows && test rows

pub passes_row :
    (test : ℕ → Bool) (rows row : ℕ) → row < rows → passes test rows ≡ true → test row ≡ true
passes_row test zero row below table = absurd (omega (arith, below))
passes_row test (suc rows) row below table =
    let (earlier, last) = (and-eq-true_iff _ _).0 table in
    elim (Bool-cases (ltb row rows)) [
      | inl less ↦ passes_row test rows row (ltb→lt row rows less) earlier
      | inr rest ↦
          let same : row ≡ rows = ground (arith, below, rest) in
          subst (λ r. test r ≡ true) (sym same) last
    ]
