-- ===== src/Server/Keys/Apart.antt =====
-- backend/internal/service/service.go: the keys of the parts of uploads tell the parts apart.
use Prim.Native.String.append
use Prim.Native.String.{◌++◌ as str_append}
use text.Mathlib.TextLemmas.{append_assoc, append_inj}
use cloud_file.Base.{ℕ, ◌≡◌, refl, ap, sym, ◌∙◌, String}
use cloud_file.Text.{decimal}
use cloud_file.Text.Digits.{read_digits, EndsNumber, read_digits-decimal}
use cloud_file.Server.Keys.{temp_prefix, part_key}

-- texts that begin alike
cancel : (s t u : String) → str_append s t ≡ str_append s u → t ≡ u
cancel s t u e = (append_inj e refl).1

number_first :
    (n m : ℕ) (s t : String)
    → EndsNumber s
    → EndsNumber t
    → str_append (decimal n) s ≡ str_append (decimal m) t
    → (n ≡ m) × (s ≡ t)
number_first n m s t h k e =
    let p : (n, s) ≡ (m, t) =
      sym (read_digits-decimal n s h) ∙ ap (read_digits 0) e ∙ read_digits-decimal m t k in
    (ap (λ x. x.0) p, ap (λ x. x.1) p)

slash_ends : (s : String) → EndsNumber (str_append "/" s)
slash_ends s = rw (append.cons "/" "" s)

-- Of two different parts, of one upload or of two, the objects have different keys.
pub part_key-injective : (id i j k : ℕ) → part_key id i ≡ part_key j k → (id ≡ j) × (i ≡ k)
unfolding part_key temp_prefix
part_key-injective id i j k e =
    let tail : ℕ → String = λ n. str_append "/" (str_append (decimal n) ".part") in
    let (same, rest) = number_first id j (tail i) (tail k) (slash_ends _) (slash_ends _) (
      cancel "temp/" _ _ (
        sym (append_assoc "temp/" (decimal id) (tail i))
        ∙ e
        ∙ append_assoc "temp/" (decimal j) (tail k))) in
    (same, (number_first i k ".part" ".part" refl refl (cancel "/" _ _ rest)).0)
