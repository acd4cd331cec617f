-- ===== src/Base/Lists.antt =====
-- Array methods of the source over lists: length, map, filter with a Boolean test, find, slices.
use Prim.Native.Nat.{ℕ, zero, suc, ◌+◌, ◌-◌, ◌≤◌, min}
use mathlib.Core.Path.{◌≡◌, refl, ap, sym, subst}
use mathlib.Core.Logic.{◌↔◌, ◌⊎◌, inl, inr}
use mathlib.Core.Bool.{Bool, true, false, ◌||◌}
use mathlib.Core.List.{List, [], ◌∷◌, ◌++◌, map}
use mathlib.Core.Option.{Option, none, some, some-injective}
use native.Mathlib.Omega.{arith}
use cloud_file.Base.Tests.{if◌then◌else◌, Bool-cases}

module _ {ℓ} {A : Type ℓ} where
  abbrev pub length : List A → ℕ
  length [] = 0
  length (x ∷ xs) = suc (length xs)

  -- `Array.prototype.filter`
  abbrev pub keep : (A → Bool) → List A → List A
  keep p [] = []
  keep p (x ∷ xs) = let rest = keep p xs in if p x then x ∷ rest else rest

  -- `Array.prototype.find`
  abbrev pub find : (A → Bool) → List A → Option A
  find p [] = none
  find p (x ∷ xs) = let rest = find p xs in if p x then some x else rest

  -- `Array.prototype.some`
  abbrev pub any : (A → Bool) → List A → Bool
  any p [] = false
  any p (x ∷ xs) = p x || any p xs

  abbrev pub take : ℕ → List A → List A
  take zero xs = []
  take (suc n) [] = []
  take (suc n) (x ∷ xs) = x ∷ take n xs

  abbrev pub drop : ℕ → List A → List A
  drop zero xs = xs
  drop (suc n) [] = []
  drop (suc n) (x ∷ xs) = drop n xs

  pub length-append : (xs ys : List A) → length (xs ++ ys) ≡ length xs + length ys
  length-append [] ys = omega arith
  length-append (x ∷ xs) ys = omega (arith, length-append xs ys)

  pub take-append-drop : (n : ℕ) (xs : List A) → take n xs ++ drop n xs ≡ xs
  take-append-drop zero xs = refl
  take-append-drop (suc n) [] = refl
  take-append-drop (suc n) (x ∷ xs) = rw (take-append-drop n xs)

  pub length-take : (n : ℕ) (xs : List A) → length (take n xs) ≡ min n (length xs)
  length-take zero xs = omega arith
  length-take (suc n) [] = omega arith
  length-take (suc n) (x ∷ xs) = omega (arith, length-take n xs)

  pub length-drop : (n : ℕ) (xs : List A) → length (drop n xs) ≡ length xs - n
  length-drop zero xs = omega arith
  length-drop (suc n) [] = omega arith
  length-drop (suc n) (x ∷ xs) = omega (arith, length-drop n xs)

  pub length-keep-le : (p : A → Bool) (xs : List A) → length (keep p xs) ≤ length xs
  length-keep-le p [] = omega arith
  length-keep-le p (x ∷ xs) = ground (arith, length-keep-le p xs)

module _ {ℓ κ} {A : Type ℓ} {B : Type κ} where
  pub length-map : (f : A → B) (xs : List A) → length (map f xs) ≡ length xs
  length-map f [] = refl
  length-map f (x ∷ xs) = ap suc (length-map f xs)

-- Every element satisfies a predicate.
abbrev pub All {ℓ κ} : {A : Type ℓ} → (A → Type κ) → List A → Type κ
All P [] = Unit
All P (x ∷ xs) = P x × All P xs

-- an entry of a list
abbrev pub IsIn : {A : Type 0} → A → List A → Type 0
IsIn x [] = ⊥
IsIn x (a ∷ xs) = (x ≡ a) ⊎ IsIn x xs

pub IsIn-last : {A : Type 0} → (x : A) (xs : List A) → IsIn x (xs ++ x ∷ [])
IsIn-last x [] = inl refl
IsIn-last x (a ∷ xs) = inr (IsIn-last x xs)

pub find-some :
    {A : Type 0}
    → (p : A → Bool) (xs : List A) (a : A) → find p xs ≡ some a
    → IsIn a xs × (p a ≡ true)
find-some p [] a e = cc
find-some p (x ∷ xs) a e = elim (Bool-cases (p x)) [
  | inl f ↦
      let same : x ≡ a = some-injective x a (rw f at e) in
      (inl (sym same), subst (λ y. p y ≡ true) same f)
  | inr f ↦ let rest = find-some p xs a (rw f at e) in (inr rest.0, rest.1)
]

-- the entries of a filtered list
pub IsIn-keep :
    {A : Type 0}
    → (p : A → Bool) (x : A) (xs : List A) → IsIn x (keep p xs) ↔ (IsIn x xs × (p x ≡ true))
IsIn-keep p x [] = (λ h. absurd h, λ h. absurd h.0)
IsIn-keep p x (a ∷ xs) = elim (Bool-cases (p a)) [
  | inl e ↦ rw e (
    λ h. elim h [
      | inl same ↦ (inl same, subst (λ y. p y ≡ true) (sym same) e)
      | inr rest ↦ let k = (IsIn-keep p x xs).0 rest in (inr k.0, k.1)
    ],
    λ h. elim h.0 [ inl same ↦ inl same | inr rest ↦ inr ((IsIn-keep p x xs).1 (rest, h.1)) ],
  )
  | inr e ↦ rw e (
    λ h. let k = (IsIn-keep p x xs).0 h in (inr k.0, k.1),
    λ h. elim h.0 [
      | inl same ↦ let seen : p a ≡ true = subst (λ y. p y ≡ true) same h.1 in cc
      | inr rest ↦ (IsIn-keep p x xs).1 (rest, h.1)
    ],
  )
]
