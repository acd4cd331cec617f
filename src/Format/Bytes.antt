-- ===== src/Format/Bytes.antt =====
-- `formatBytes`: the unit that it chooses and the number that it prints.
use cloud_file.Base.{ℕ, ◌+◌, ◌*◌, ◌^◌, ◌≤◌, ◌<◌, ◌≡◌, ◌⊎◌, arith, ltb, false}
use cloud_file.Ratio.{Ratio}
use cloud_file.Format.{scale, fraction_digits, to_fixed, unit_text, format_bytes}

-- The size is the number of bytes in the unit of the index, the greatest unit of which there is one:
-- 1024 to the power of the index and one more is at most the number of bytes, and the next power is more
-- unless the unit is the last.
pub scale_lem :
    (bytes : ℕ)
    → 1024 ≤ bytes
    → let (size, index) = scale bytes in
      (size.num ≡ bytes)
      × (size.den ≡ 1024 ^ (index + 1))
      × (index ≤ 3)
      × (size.den ≤ bytes)
      × ((index ≡ 3) ⊎ (bytes < 1024 * size.den))
unfolding scale
scale_lem bytes h = ground arith

-- What is printed is the nearest multiple of the last digit: it is off by at most half of it.
pub to_fixed_bounds :
    (digits : ℕ) (size : Ratio)
    → 0 < size.den
    → (2 * size.num * 10 ^ digits ≤ 2 * to_fixed digits size * size.den + size.den)
      × (2 * to_fixed digits size * size.den ≤ 2 * size.num * 10 ^ digits + size.den)
unfolding to_fixed
to_fixed_bounds digits size h = (grind arith, grind arith)

kilobytes : (bytes : ℕ) → bytes < 1048576 → scale bytes ≡ (record { num = bytes; den = 1024 }, 0)
unfolding scale
kilobytes bytes h = ground arith

unit_text-rounds_up :
    (bytes : ℕ)
    → 1048064 ≤ bytes
    → bytes < 1048576
    → unit_text (record { num = bytes; den = 1024 }, 0) ≡ "1024 KB"
unfolding unit_text
unit_text-rounds_up bytes h k =
    let digits : fraction_digits (record { num = bytes; den = 1024 }) ≡ 0 = ground arith in
    let shown : to_fixed 0 (record { num = bytes; den = 1024 }) ≡ 1024 = omega arith in
    rw (digits, unit_text) (rw shown)

-- Within half a kilobyte of a megabyte the text is `1024 KB`, not `1.0 MB`.
pub format_bytes-rounds_up :
    (bytes : ℕ) → 1048064 ≤ bytes → bytes < 1048576 → format_bytes bytes ≡ "1024 KB"
unfolding format_bytes
format_bytes-rounds_up bytes h k =
    let large : ltb bytes 1024 ≡ false = ground arith in
    rw large (rw (kilobytes bytes k) (unit_text-rounds_up bytes h k))
