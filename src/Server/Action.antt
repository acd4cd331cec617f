-- ===== src/Server/Action.antt =====
-- The calls of the service: each may change the state and may fail, and what it changed before it
-- failed stays.
pub mod Rules
use cloud_file.Base.{Bool, String, List, [], ◌∷◌, ◌≡◌, refl, if◌then◌else◌}

-- an error: `gorm.ErrRecordNotFound`, for which the service asks, or another, by its text
pub data Failure : Type 0 where
  not_found : Failure
  failure : String → Failure

pub data Outcome {ℓ} (A : Type ℓ) : Type ℓ where
  done : A → Outcome A
  fails : Failure → Outcome A

abbrev pub Action : Type 0 → Type 0 → Type 0
Action W A = W → Outcome A × W

module _ {W A : Type 0} where
  unfoldable pub pure : A → Action W A
  pure a w = (done a, w)

  unfoldable pub raise : Failure → Action W A
  raise e w = (fails e, w)

  unfoldable pub lift : Outcome A → Action W A
  lift r w = (r, w)

  unfoldable pub reads : (W → A) → Action W A
  reads f w = (done (f w), w)

  -- `value, err := call`: the caller looks at the error itself
  unfoldable pub attempt : Action W A → Action W (Outcome A)
  attempt m w = let (r, w') = m w in (done r, w')

unfoldable pub writes : {W : Type 0} → (W → W) → Action W (Unit {0})
writes f w = (done tt, f w)

abbrev pub after : {W A B : Type 0} → Outcome A → (A → Action W B) → Action W B
after (done a) f w = f a w
after (fails e) f w = (fails e, w)

infixl 5 ◌>>=◌ ◌>>◌
unfoldable pub ◌>>=◌ : {W A B : Type 0} → Action W A → (A → Action W B) → Action W B
◌>>=◌ m f w = let (r, w') = m w in after r f w'

unfoldable pub ◌>>◌ : {W A B : Type 0} → Action W A → Action W B → Action W B
unfolding ◌>>=◌
m >> k = m >>= λ _. k

-- `_ = call`
unfoldable pub ignore : {W A : Type 0} → Action W A → Action W (Unit {0})
unfolding attempt ◌>>◌ ◌>>=◌ pure
ignore m = attempt m >> pure tt

-- a guard that returns an error
unfoldable pub raise_if : {W : Type 0} → Bool → Failure → Action W (Unit {0})
raise_if b e w = (if b then fails e else done tt, w)

-- `for _, item := range items`
unfoldable pub for_each : {W A : Type 0} → List A → (A → Action W (Unit {0})) → Action W (Unit {0})
unfolding pure ◌>>◌ ◌>>=◌
for_each [] f = pure tt
for_each (a ∷ rest) f = f a >> for_each rest f

-- a loop that counts
unfoldable pub fold_each : {W A B : Type 0} → List A → (A → B → Action W B) → B → Action W B
unfolding pure ◌>>=◌
fold_each [] f b = pure b
fold_each (a ∷ rest) f b = f a b >>= fold_each rest f
