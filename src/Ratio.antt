-- ===== src/Ratio.antt =====
-- The fractional numbers of the frontend (progress, speed, remaining seconds) as exact fractions of
-- natural numbers. The source computes them in doubles; rounding of doubles is not modelled.
use cloud_file.Base.{ℕ, ◌+◌, ◌*◌, Bool, leb, if◌then◌else◌}

pub record Ratio : Type 0 where
  pub num : ℕ
  pub den : ℕ

abbrev pub whole : ℕ → Ratio
whole n = record { num = n; den = 1 }

abbrev pub le_ratio : Ratio → Ratio → Bool
le_ratio a b = leb (a.num * b.den) (b.num * a.den)

-- `Math.min` and `Math.max`
abbrev pub min_ratio : Ratio → Ratio → Ratio
min_ratio a b = if le_ratio a b then a else b

abbrev pub max_ratio : Ratio → Ratio → Ratio
max_ratio a b = if le_ratio a b then b else a

-- `10 + (part / total) * 82`
abbrev pub progress_of : ℕ → ℕ → Ratio
progress_of part total = record { num = 10 * total + 82 * part; den = total }
