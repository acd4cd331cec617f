-- ===== src/Text.antt =====
-- The texts that JavaScript makes of whole numbers: `toString(10)` and the two digits of
-- `toString(16).padStart(2, "0")`.
pub mod Digits
use Prim.Native.String.{◌++◌, count, slice}
use cloud_file.Base.{ℕ, zero, suc, ◌+◌, ◌/◌, ◌%◌, String, ltb, if◌then◌else◌}

-- The sixteen digits; past them nothing is printed.
abbrev pub digit : ℕ → String
digit n = slice "0123456789abcdef" n (n + 1)

unfoldable pub decimal_from : ℕ → ℕ → String → String
decimal_from zero n acc = acc
decimal_from (suc fuel) n acc =
    let more = decimal_from fuel (n / 10) (digit (n % 10) ++ acc) in
    if ltb n 10 then digit n ++ acc else more

-- `String(n)`: a number below `n + 1` has no more than `n + 1` digits.
unfoldable pub decimal : ℕ → String
unfolding decimal_from
decimal n = decimal_from (suc n) n ""

-- `byte.toString(16)` of a byte
unfoldable pub to_hex : ℕ → String
to_hex byte = if ltb byte 16 then digit byte else digit (byte / 16) ++ digit (byte % 16)

-- `s.padStart(2, "0")`
unfoldable pub pad_start : String → String
pad_start s = if ltb (count s) 2 then (if ltb (count s) 1 then "00" else "0" ++ s) else s
