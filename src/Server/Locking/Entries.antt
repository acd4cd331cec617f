-- ===== src/Server/Locking/Entries.antt =====
-- backend/internal/lock/lock.go: the entries of the lock, and what taking it adds.
use mathlib.Core.Bool.{true≢false}
use mathlib.Core.Option.{some-injective}
use cloud_file.Base.{
  ℕ, ◌==◌, ◌≡◌, refl, ap, sym, ◌∙◌, Bool, true, false, ◌&&◌, String, List, [], ◌∷◌, none, some, any,
  keep, All, str_eq, eq_refl, Bool-cases, inl, inr,
}
use cloud_file.Server.Action.{done}
use cloud_file.Server.Action.Rules.{done-injective}
use cloud_file.Server.Storage.{ObjectStore}
use cloud_file.Server.World.{Config, World, acquire}
use cloud_file.Server.World.Calm.{Locks}
use cloud_file.Server.Locking.{Phase, outside, holding, set_phase}

abbrev pub is_lock : String → String → String × String → Bool
is_lock key value l = str_eq l.0 key && str_eq l.1 value

-- Each request that holds a lock has its entry, no two hold that of one key, and each entry is of one.
pub record IsGuarded (key : ℕ → String) (phases : ℕ → Phase) (locks : Locks) : Type 0 where
  pub held : (i : ℕ) (v : String) → phases i ≡ holding v → any (is_lock (key i) v) locks ≡ true
  pub one :
      (i j : ℕ) (v u : String) → phases i ≡ holding v → phases j ≡ holding u → key i ≡ key j → i ≡ j
  pub owned : All (λ l. (i : ℕ) × (phases i ≡ holding l.1) × (key i ≡ l.0)) locks

pub holding-injective : (v u : String) → holding v ≡ holding u → v ≡ u
holding-injective v u e = cc

absurd_lock : (v : String) → none ≡ some v → ⊥
absurd_lock v e = cc

pub outside_holding : (v : String) → outside ≡ holding v → ⊥
outside_holding v e = cc

pub any-lock :
    (key value : String) (locks : Locks)
    → any (is_lock key value) locks ≡ true
    → any (λ l. str_eq l.0 key) locks ≡ true
any-lock key value [] h = h
any-lock key value (l ∷ locks) h = elim (Bool-cases (str_eq l.0 key)) [
  | inl e ↦ rw e
  | inr e ↦ rw e (any-lock key value locks (rw e at h))
]

-- what `acquire` does where it gives the lock
pub acquire-some :
    {S : ObjectStore} (c : Config) (key value : String) (w v : World S)
    → acquire c key w ≡ (done (some value), v)
    → (any (λ l. str_eq l.0 key) w.locks ≡ false) × (v.locks ≡ (key, value) ∷ w.locks)
unfolding acquire
acquire-some c key value w v e = elim (Bool-cases (any (λ l. str_eq l.0 key) w.locks)) [
  | inl f ↦
      let bad : (done none, w) ≡ (done (some value), v) = rw f at e in
      absurd (absurd_lock value (done-injective _ _ (ap (λ x. x.0) bad)))
  | inr f ↦
      let given = rw f at e in
      let same : c.new_uuid w.uuids ≡ value =
        some-injective _ _ (done-injective _ _ (ap (λ x. x.0) given)) in
      (f, sym (ap (λ x. x.1.locks) given) ∙ ap (λ u. (key, u) ∷ w.locks) same)
]

pub acquire-none :
    {S : ObjectStore} (c : Config) (key : String) (w v : World S)
    → acquire c key w ≡ (done none, v)
    → v.locks ≡ w.locks
unfolding acquire
acquire-none c key w v e = elim (Bool-cases (any (λ l. str_eq l.0 key) w.locks)) [
  | inl f ↦ sym (ap (λ x. x.1.locks) (rw f at e))
  | inr f ↦
      let bad = rw f at e in absurd (absurd_lock _ (sym (done-injective _ _ (ap (λ x. x.0) bad))))
]

module _ {A : Type 0} (p q : A → Bool) where
  pub any-keep : ((a : A) → p a ≡ true → q a ≡ true) → (xs : List A) → any p (keep q xs) ≡ any p xs
  any-keep h [] = refl
  any-keep h (x ∷ xs) = elim (Bool-cases (q x)) [
    | inl e ↦ rw (e, any-keep h xs)
    | inr e ↦ elim (Bool-cases (p x)) [
      | inl f ↦ absurd (true≢false (sym (h x f) ∙ e))
      | inr f ↦ rw (e, f, any-keep h xs)
    ]
  ]

  pub All-keep :
      (P R : A → Type 0)
      → ((a : A) → q a ≡ true → P a → R a)
      → (xs : List A) → All P xs
      → All R (keep q xs)
  All-keep P R h [] k = tt
  All-keep P R h (x ∷ xs) (k, ks) = elim (Bool-cases (q x)) [
    | inl e ↦ rw e (h x e k, All-keep P R h xs ks)
    | inr e ↦ rw e (All-keep P R h xs ks)
  ]

pub set_phase-hit : (i j : ℕ) (p : Phase) (f : ℕ → Phase) → (j == i) ≡ true → set_phase i p f j ≡ p
set_phase-hit i j p f e = rw e

pub set_phase-miss :
    (i j : ℕ) (p : Phase) (f : ℕ → Phase) → (j == i) ≡ false → set_phase i p f j ≡ f j
set_phase-miss i j p f e = rw e

pub lock_is : (key value : String) → is_lock key value (key, value) ≡ true
lock_is key value = rw (eq_refl key, eq_refl value)
