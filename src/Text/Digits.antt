-- ===== src/Text/Digits.antt =====
-- Reading back the digits that a number is printed in.
use Prim.Native.Char.{Char, code}
use Prim.Native.String.append
use Prim.Native.String.{[] as nil, ◌∷◌ as ◌:::◌, ◌++◌ as str_append}
use cloud_file.Base.{
  ℕ, zero, suc, ◌+◌, ◌-◌, ◌*◌, ◌/◌, ◌%◌, ◌<◌, ◌≡◌, refl, ap, sym, ◌∙◌, Bool, true, false, ◌&&◌,
  ◌==◌, String, str_eq, eq_iff, ==_iff, leb, ltb, ltb→lt, passes, passes_row, Bool-cases, inl, inr,
  arith, if◌then◌else◌,
}
use cloud_file.Text.{digit, decimal, decimal_from}
use text.Mathlib.TextLemmas.{append_assoc}
use mathlib.Core.Bool.{and-eq-true_iff}

abbrev is_digit : Char → Bool
is_digit c = leb b'0' (code c) && leb (code c) b'9'

-- the number that the text begins with, read on from `n`, and what comes after it
unfoldable pub read_digits : ℕ → String → ℕ × String
read_digits n nil = (n, nil)
read_digits n (c ::: s) =
    let rest = read_digits (n * 10 + (code c - b'0')) s in if is_digit c then rest else (n, c ::: s)

-- a text that does not go on with a digit
abbrev pub EndsNumber : String → Type 0
EndsNumber nil = Unit
EndsNumber (c ::: s) = is_digit c ≡ false

read_digits-end : (n : ℕ) (s : String) → EndsNumber s → read_digits n s ≡ (n, s)
unfolding read_digits
read_digits-end n nil h = refl
read_digits-end n (c ::: s) h = rw h

first : String → Char
first nil = "0"
first (c ::: s) = c

digit_test : ℕ → Bool
unfolding first
digit_test d = str_eq (digit d) (first (digit d) ::: nil) && code (first (digit d)) == d + b'0'

digits_pass : passes digit_test 10 ≡ true
unfolding digit_test first
digits_pass = refl

digit-form :
    (d : ℕ) → d < 10 → (digit d ≡ first (digit d) ::: nil) × (code (first (digit d)) ≡ d + b'0')
unfolding digit_test
digit-form d h =
    let (e, f) = (and-eq-true_iff _ _).0 (passes_row digit_test 10 d h digits_pass) in
    ((eq_iff _ _).0 e, (==_iff _ _).0 f)

read_char :
    (n d : ℕ) (c : Char) (s : String)
    → d < 10
    → code c ≡ d + b'0'
    → read_digits n (c ::: s) ≡ read_digits (n * 10 + d) s
unfolding read_digits
read_char n d c s h e =
    let f : is_digit c ≡ true = ground (arith, e) in
    let g : code c - b'0' ≡ d = omega (arith, e) in rw (f, g)

read_digit :
    (n d : ℕ) (s : String)
    → d < 10
    → read_digits n (str_append (digit d) s) ≡ read_digits (n * 10 + d) s
read_digit n d s h =
    let (e, f) = digit-form d h in
    ap (λ t. read_digits n (str_append t s)) e
    ∙ ap (read_digits n)
        (append.cons (first (digit d)) nil s ∙ ap (λ t. first (digit d) ::: t) (append.nil s))
    ∙ read_char n d (first (digit d)) s h f

read_from :
    (fuel n : ℕ) (s : String) → n < fuel → read_digits 0 (decimal_from fuel n s) ≡ read_digits n s
unfolding decimal_from
read_from zero n s h = absurd (omega arith)
read_from (suc fuel) n s h = elim (Bool-cases (ltb n 10)) [
  | inl e ↦
      let zeros : 0 * 10 + n ≡ n = omega arith in
      rw e (read_digit 0 n s (ltb→lt n 10 e) ∙ ap (λ m. read_digits m s) zeros)
  | inr e ↦
      let parts : n / 10 * 10 + n % 10 ≡ n = omega arith in
      rw e (
        read_from fuel (n / 10) (str_append (digit (n % 10)) s) (ground (arith, e))
        ∙ read_digit (n / 10) (n % 10) s (omega arith)
        ∙ ap (λ m. read_digits m s) parts)
]

-- a number and what comes after it, read back from its text
read_digits-decimal_from :
    (n : ℕ) (s : String) → EndsNumber s → read_digits 0 (decimal_from (suc n) n s) ≡ (n, s)
read_digits-decimal_from n s h = read_from (suc n) n s (omega arith) ∙ read_digits-end n s h

-- the text after the number moved out
decimal_from-append :
    (fuel n : ℕ) (s t : String)
    → decimal_from fuel n (str_append s t) ≡ str_append (decimal_from fuel n s) t
unfolding decimal_from
decimal_from-append zero n s t = refl
decimal_from-append (suc fuel) n s t = elim (Bool-cases (ltb n 10)) [
  | inl e ↦ rw e (sym (append_assoc (digit n) s t))
  | inr e ↦ rw (
    e,
    ← append_assoc (digit (n % 10)) s t,
    decimal_from-append fuel (n / 10) (str_append (digit (n % 10)) s) t,
  )
]

pub read_digits-decimal :
    (n : ℕ) (s : String) → EndsNumber s → read_digits 0 (str_append (decimal n) s) ≡ (n, s)
unfolding decimal
read_digits-decimal n s h =
    ap (read_digits 0)
      (sym (decimal_from-append (suc n) n "" s) ∙ ap (decimal_from (suc n) n) (append.nil s))
    ∙ read_digits-decimal_from n s h
