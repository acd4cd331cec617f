-- ===== src/Format/Time.antt =====
-- `formatTime`: the minutes and seconds that it prints.
use native.Mathlib.Nat.{div-add-mod, mul-add-div}
use cloud_file.Base.{ap, sym, ◌∙◌, ◌+◌, ◌-◌, ◌*◌, ◌/◌, ◌%◌, ◌≤◌, ◌<◌, ◌≡◌, arith, ◌↔◌}
use cloud_file.Ratio.{Ratio}
use cloud_file.Format.{minutes, seconds, whole_seconds}

-- The minutes and seconds together are the time, rounded up to whole seconds; the seconds are at most
-- 60, and are 60 exactly when the time is within the last second of a minute.
pub minutes-seconds :
    (s : Ratio)
    → 0 < s.den
    → (60 * minutes s + seconds s ≡ whole_seconds s)
      × (seconds s ≤ 60)
      × ((seconds s ≡ 60) ↔ (59 * s.den < s.num % (60 * s.den)))
unfolding minutes seconds whole_seconds
minutes-seconds s h =
    let q = s.num / (60 * s.den) in
    let r = s.num % (60 * s.den) in
    let split : s.num + s.den - 1 ≡ s.den * (60 * q) + (r + s.den - 1) =
      omega (arith, div-add-mod s.num (60 * s.den)) in
    let total = ap (λ x. x / s.den) split ∙ mul-add-div h (60 * q) (r + s.den - 1) in
    (sym total, grind arith, (λ e. grind arith, λ l. grind arith))
