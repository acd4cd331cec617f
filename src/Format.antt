-- ===== src/Format.antt =====
-- The texts of sizes and times: `formatBytes` (the same function in App.tsx, components/FileList.tsx and
-- components/UploadTaskCard.tsx, here of whole numbers of bytes) and `formatTime` of
-- components/UploadTaskCard.tsx. A division by a power of 1024 is exact in doubles, and `toFixed` rounds
-- the exact value, halves up.
pub mod Bytes
pub mod Time
use Prim.Native.String.{◌++◌ as str_append}
use cloud_file.Base.{
  ℕ, zero, suc, ◌+◌, ◌-◌, ◌*◌, ◌/◌, ◌%◌, ◌^◌, Bool, ◌||◌, String, ltb, leb, ◌==◌, if◌then◌else◌,
}
use cloud_file.Ratio.{Ratio}
use cloud_file.Text.{decimal}

abbrev unit_name : ℕ → String
unit_name zero = "KB"
unit_name (suc zero) = "MB"
unit_name (suc (suc zero)) = "GB"
unit_name _ = "TB"

-- the loop, with the number of rounds that `index < units.length - 1` leaves
scale_from : ℕ → Ratio → ℕ → Ratio × ℕ
scale_from zero size index = (size, index)
scale_from (suc left) size index =
    let more = scale_from left (record { num = size.num; den = size.den * 1024 }) (index + 1) in
    if leb (1024 * size.den) size.num then more else (size, index)

-- the size in units, and the index of the unit
unfoldable pub scale : ℕ → Ratio × ℕ
unfolding scale_from
scale bytes = scale_from 3 (record { num = bytes; den = 1024 }) 0

-- `size > 99 ? 0 : 1`
unfoldable pub fraction_digits : Ratio → ℕ
fraction_digits size = if ltb (99 * size.den) size.num then 0 else 1

-- the number that `toFixed(digits)` prints, in units of its last digit
unfoldable pub to_fixed : ℕ → Ratio → ℕ
to_fixed digits size = (2 * size.num * 10 ^ digits + size.den) / (2 * size.den)

-- the text of `toFixed(digits)` for no or one digit
abbrev fixed_text : ℕ → ℕ → String
fixed_text zero n = decimal n
fixed_text (suc _) n = str_append (decimal (n / 10)) (str_append "." (decimal (n % 10)))

-- `${size.toFixed(size > 99 ? 0 : 1)} ${units[index]}`
unfoldable pub unit_text : Ratio × ℕ → String
unfolding fraction_digits to_fixed decimal
unit_text (size, index) =
    let digits = fraction_digits size in
    str_append (fixed_text digits (to_fixed digits size)) (str_append " " (unit_name index))

unfoldable pub format_bytes : ℕ → String
unfolding decimal
format_bytes bytes =
    if ltb bytes 1024 then str_append (decimal bytes) " B" else unit_text (scale bytes)

-- `Math.ceil`
abbrev ceil : Ratio → ℕ
ceil r = (r.num + r.den - 1) / r.den

-- `Math.floor(seconds / 60)` and `Math.ceil(seconds % 60)`
unfoldable pub minutes : Ratio → ℕ
minutes s = s.num / (60 * s.den)

unfoldable pub seconds : Ratio → ℕ
seconds s = (s.num % (60 * s.den) + s.den - 1) / s.den

unfoldable pub whole_seconds : Ratio → ℕ
whole_seconds s = ceil s

-- A fraction with no denominator is no finite number.
unfoldable pub format_time : Ratio → String
unfolding minutes seconds whole_seconds decimal
format_time s =
    if s.den == 0 || s.num == 0
    then "--"
    else if ltb s.num (60 * s.den)
    then str_append (decimal (whole_seconds s)) "s"
    else str_append (decimal (minutes s)) (str_append "m " (str_append (decimal (seconds s)) "s"))
