-- ===== src/Api/Hash.antt =====
-- The text that `calculateFileHash` makes of a digest: two characters for a byte, and no two digests
-- with the same text.
use Prim.Native.String.{count, ◌++◌ as str_append}
use text.Mathlib.TextLemmas.{length-append, append_inj}
use mathlib.Core.Path.{ap₂}
use mathlib.Core.Bool.{and-eq-true_iff}
use cloud_file.Base.{
  ℕ, ◌*◌, ◌/◌, ◌%◌, ◌<◌, ◌≡◌, refl, ap, ◌∙◌, sym, Bool, true, ◌&&◌, ◌||◌, not, String, List, [],
  ◌∷◌, arith, length, All, ◌==◌, ==_iff, str_eq, eq_iff,
}
use cloud_file.Base.{passes, passes_row}
use cloud_file.Text.{digit, to_hex, pad_start}
use cloud_file.Api.{hex_text}

hex_byte : ℕ → String
unfolding to_hex pad_start
hex_byte byte = pad_start (to_hex byte)

count-hex_table : passes (λ b. count (hex_byte b) == 2) 256 ≡ true
unfolding hex_byte
count-hex_table = refl

count-hex_byte : (b : ℕ) → b < 256 → count (hex_byte b) ≡ 2
count-hex_byte b h =
    (==_iff _ 2).0 (passes_row (λ x. count (hex_byte x) == 2) 256 b h count-hex_table)

two_digits : ℕ → String
two_digits b = str_append (digit (b / 16)) (digit (b % 16))

hex_pairs : passes (λ b. str_eq (hex_byte b) (two_digits b)) 256 ≡ true
unfolding hex_byte two_digits
hex_pairs = refl

hex_byte-two_digits : (b : ℕ) → b < 256 → hex_byte b ≡ two_digits b
hex_byte-two_digits b h =
    (eq_iff _ _).0 (passes_row (λ x. str_eq (hex_byte x) (two_digits x)) 256 b h hex_pairs)

same_digit : ℕ → ℕ → Bool
same_digit a b = not (str_eq (digit a) (digit b)) || a == b

digit_table : passes (λ a. (count (digit a) == 1) && passes (same_digit a) 16) 16 ≡ true
unfolding same_digit
digit_table = refl

digit_facts : (a : ℕ) → a < 16 → (count (digit a) ≡ 1) × (passes (same_digit a) 16 ≡ true)
digit_facts a h =
    let row : ((count (digit a) == 1) && passes (same_digit a) 16) ≡ true =
      passes_row (λ x. (count (digit x) == 1) && passes (same_digit x) 16) 16 a h digit_table in
    let both = (and-eq-true_iff _ _).0 row in ((==_iff _ 1).0 both.0, both.1)

digit-injective : (a b : ℕ) → a < 16 → b < 16 → digit a ≡ digit b → a ≡ b
unfolding same_digit
digit-injective a b h k e =
    let row : same_digit a b ≡ true = passes_row (same_digit a) 16 b k (digit_facts a h).1 in
    ground (arith, row, eq_iff (digit a) (digit b))

hex_byte-injective : (a b : ℕ) → a < 256 → b < 256 → hex_byte a ≡ hex_byte b → a ≡ b
unfolding two_digits
hex_byte-injective a b h k e =
    let high : a / 16 < 16 = omega arith in
    let high' : b / 16 < 16 = omega arith in
    let low : a % 16 < 16 = omega arith in
    let low' : b % 16 < 16 = omega arith in
    let same = sym (hex_byte-two_digits a h) ∙ e ∙ hex_byte-two_digits b k in
    let parts = append_inj same ((digit_facts _ high).0 ∙ sym (digit_facts _ high').0) in
    omega (arith, digit-injective _ _ high high' parts.0, digit-injective _ _ low low' parts.1)

-- The hash text has two characters for each byte of the digest: 64 for the 32 bytes of SHA-256.
pub count-hex_text :
    (digest : List ℕ) → All (λ b. b < 256) digest → count (hex_text digest) ≡ 2 * length digest
unfolding hex_text hex_byte
count-hex_text [] h = refl
count-hex_text (b ∷ digest) (h, hs) =
    length-append (hex_byte b) (hex_text digest)
    ∙ omega (arith, count-hex_byte b h, count-hex_text digest hs)

-- Two digests, lists of bytes, that give one hash text are one digest.
pub hex_text-injective :
    (xs ys : List ℕ)
    → All (λ b. b < 256) xs
    → All (λ b. b < 256) ys
    → hex_text xs ≡ hex_text ys
    → xs ≡ ys
unfolding hex_text hex_byte
hex_text-injective [] [] h k e = refl
hex_text-injective [] (y ∷ ys) h k e = absurd (omega (arith, ap count e, count-hex_text (y ∷ ys) k))
hex_text-injective (x ∷ xs) [] h k e = absurd (omega (arith, ap count e, count-hex_text (x ∷ xs) h))
hex_text-injective (x ∷ xs) (y ∷ ys) (h, hs) (k, ks) e =
    let parts = append_inj e (count-hex_byte x h ∙ sym (count-hex_byte y k)) in
    ap₂ ◌∷◌ (hex_byte-injective x y h k parts.0) (hex_text-injective xs ys hs ks parts.1)
