-- ===== src/Server/Action/Rules.antt =====
-- What an action ensures, by how it ends, with a rule for each way to build an action.
use cloud_file.Base.{Bool, true, false, List, [], ◌∷◌, ◌≡◌, if◌then◌else◌}
use cloud_file.Server.Action.{
  Failure, Outcome, done, fails, Action, pure, raise, lift, reads, attempt, after, ◌>>=◌, ◌>>◌,
  ignore, raise_if, for_each, fold_each,
}

-- `Q` of the value and the state where the call returns, `E` of the state where it fails
abbrev pub Ends : {W A : Type 0} → (A → W → Type 0) → (W → Type 0) → Outcome A × W → Type 0
Ends Q E (done a, w) = Q a w
Ends Q E (fails e, w) = E w

pub record Ensures {W A : Type 0} (P : W → Type 0) (m : Action W A) (Q : A → W → Type 0)
    (E : W → Type 0) : Type 0 where
  pub from : (w : W) → P w → Ends Q E (m w)

-- an invariant: `P` before and after, however the call ends
abbrev pub Keeps : {W A : Type 0} → (W → Type 0) → Action W A → Type 0
Keeps P m = Ensures P m (λ a w. P w) P

module _ {W A B : Type 0} (Q : A → W → Type 0) (E : W → Type 0) (R : B → W → Type 0) where
  Ends-after :
      (x : Outcome A × W) (k : A → Action W B)
      → Ends Q E x
      → ((a : A) (w : W) → Q a w → Ends R E (k a w))
      → Ends R E (after x.0 k x.1)
  Ends-after (done a, w) k h rest = rest a w h
  Ends-after (fails e, w) k h rest = h

module _ {W A : Type 0} (Q : A → W → Type 0) (E F : W → Type 0) where
  Ends-done : (x : Outcome A × W) → Ends Q E x → Ends (λ r w. Ends Q E (r, w)) F (done x.0, x.1)
  Ends-done (done a, w) h = h
  Ends-done (fails e, w) h = h

module _ {W A : Type 0} {E E' : W → Type 0} {Q Q' : A → W → Type 0} where
  Ends-weaken :
      (x : Outcome A × W)
      → ((a : A) (w : W) → Q a w → Q' a w)
      → ((w : W) → E w → E' w)
      → Ends Q E x
      → Ends Q' E' x
  Ends-weaken (done a, w) f g h = f a w h
  Ends-weaken (fails e, w) f g h = g w h

module _ {W A : Type 0} (P : W → Type 0) where
  settle : (r : Outcome A) (w : W) → Ends (λ a w. P w) P (r, w) → P w
  settle (done a) w h = h
  settle (fails e) w h = h

module _ {W A : Type 0} {P E : W → Type 0} {Q : A → W → Type 0} where
  pub Ensures-pure : (a : A) → ((w : W) → P w → Q a w) → Ensures P (pure a) Q E
  unfolding pure
  Ensures-pure a h = record { from = h }

  pub Ensures-raise : (e : Failure) → ((w : W) → P w → E w) → Ensures P (raise {A = A} e) Q E
  unfolding raise
  Ensures-raise e h = record { from = h }

  pub Ensures-reads : (f : W → A) → ((w : W) → P w → Q (f w) w) → Ensures P (reads f) Q E
  unfolding reads
  Ensures-reads f h = record { from = h }

module _ {W A B : Type 0} {P E : W → Type 0} {Q : A → W → Type 0} {R : B → W → Type 0} where
  pub Ensures-bind :
      {m : Action W A} {k : A → Action W B}
      → Ensures P m Q E
      → ((a : A) → Ensures (Q a) (k a) R E)
      → Ensures P (m >>= k) R E
  unfolding ◌>>=◌
  Ensures-bind {m} {k} first rest = record {
    from = λ w h. Ends-after Q E R (m w) k (first.from w h) (λ a. (rest a).from);
  }

  pub Ensures-then :
      {m : Action W A} {k : Action W B}
      → Ensures P m Q E
      → ((a : A) → Ensures (Q a) k R E)
      → Ensures P (m >> k) R E
  unfolding ◌>>◌
  Ensures-then first rest = Ensures-bind first rest

module _ {W A : Type 0} {P E F : W → Type 0} {Q : A → W → Type 0} where
  pub Ensures-attempt :
      {m : Action W A} → Ensures P m Q E → Ensures P (attempt m) (λ r w. Ends Q E (r, w)) F
  unfolding attempt
  Ensures-attempt {m} first = record { from = λ w h. Ends-done Q E F (m w) (first.from w h) }

-- The same call with more assumed and less shown.
module _ {W A : Type 0} {P P' E E' : W → Type 0} {Q Q' : A → W → Type 0} where
  pub Ensures-weaken :
      {m : Action W A}
      → ((w : W) → P' w → P w)
      → ((a : A) (w : W) → Q a w → Q' a w)
      → ((w : W) → E w → E' w)
      → Ensures P m Q E
      → Ensures P' m Q' E'
  Ensures-weaken {m} p f g h = record { from = λ w a. Ends-weaken (m w) f g (h.from w (p w a)) }

module _ {W A : Type 0} (E F : W → Type 0) (Q R : A → W → Type 0) where
  Ends-both :
      (x : Outcome A × W) → Ends Q E x → Ends R F x → Ends (λ a w. Q a w × R a w) (λ w. E w × F w) x
  Ends-both (done a, w) h k = (h, k)
  Ends-both (fails e, w) h k = (h, k)

module _ {W A : Type 0} {P E F : W → Type 0} {Q R : A → W → Type 0} where
  pub Ensures-both :
      {m : Action W A}
      → Ensures P m Q E
      → Ensures P m R F
      → Ensures P m (λ a w. Q a w × R a w) (λ w. E w × F w)
  Ensures-both {m} h k = record { from = λ w p. Ends-both E F Q R (m w) (h.from w p) (k.from w p) }

pub done-injective : {A : Type 0} (a b : A) → done a ≡ done b → a ≡ b
done-injective a b e = cc

pub either_Ensures :
    {W A : Type 0} {P E : W → Type 0} {Q : A → W → Type 0} {m n : Action W A} (b : Bool)
    → Ensures P m Q E
    → Ensures P n Q E
    → Ensures P (if b then m else n) Q E
either_Ensures true h k = h
either_Ensures false h k = k

module _ {W A : Type 0} {P : W → Type 0} where
  pub Keeps-pure : (a : A) → Keeps P (pure a)
  Keeps-pure a = Ensures-pure a (λ w h. h)

  pub Keeps-raise : (e : Failure) → Keeps P (raise {A = A} e)
  Keeps-raise e = Ensures-raise e (λ w h. h)

  pub Keeps-lift : (r : Outcome A) → Keeps P (lift r)
  unfolding lift
  Keeps-lift (done a) = record { from = λ w h. h }
  Keeps-lift (fails e) = record { from = λ w h. h }

  pub Keeps-reads : (f : W → A) → Keeps P (reads f)
  Keeps-reads f = Ensures-reads f (λ w h. h)

  pub Keeps-attempt : {m : Action W A} → Keeps P m → Keeps P (attempt m)
  Keeps-attempt {m} km =
      Ensures-weaken (λ w h. h) (λ r w h. settle P r w h) (λ w h. h) (Ensures-attempt km)

  pub Keeps-if :
      {m n : Action W A} (b : Bool) → Keeps P m → Keeps P n → Keeps P (if b then m else n)
  Keeps-if true km kn = km
  Keeps-if false km kn = kn

module _ {W A B : Type 0} {P : W → Type 0} where
  pub Keeps-bind :
      {m : Action W A} {k : A → Action W B}
      → Keeps P m
      → ((a : A) → Keeps P (k a))
      → Keeps P (m >>= k)
  Keeps-bind km kk = Ensures-bind km kk

  pub Keeps-then : {m : Action W A} {k : Action W B} → Keeps P m → Keeps P k → Keeps P (m >> k)
  Keeps-then km kk = Ensures-then km (λ _. kk)

  pub Keeps-fold :
      {f : A → B → Action W B} (items : List A) (b : B)
      → ((a : A) (b : B) → Keeps P (f a b))
      → Keeps P (fold_each items f b)
  unfolding fold_each
  Keeps-fold [] b h = Keeps-pure b
  Keeps-fold (a ∷ items) b h = Ensures-bind (h a b) (λ c. Keeps-fold items c h)

module _ {W A : Type 0} {P R F : W → Type 0} where
  pub Ensures-ignore : {m : Action W A} → Ensures P m (λ a. R) R → Ensures P (ignore m) (λ a. R) F
  unfolding ignore
  Ensures-ignore {m} h =
      Ensures-then
        (Ensures-weaken (λ w k. k) (λ r w k. settle R r w k) (λ w k. k) (Ensures-attempt {F = F} h))
        (λ _. Ensures-pure tt (λ w k. k))

module _ {W : Type 0} {P : W → Type 0} where
  pub Keeps-raise-if : (b : Bool) (e : Failure) → Keeps P (raise_if b e)
  unfolding raise_if
  Keeps-raise-if true e = record { from = λ w h. h }
  Keeps-raise-if false e = record { from = λ w h. h }

  pub Keeps-ignore : {A : Type 0} {m : Action W A} → Keeps P m → Keeps P (ignore m)
  unfolding ignore
  Keeps-ignore km = Keeps-then (Keeps-attempt km) (Keeps-pure tt)

  pub Keeps-each :
      {A : Type 0} {f : A → Action W (Unit {0})} (items : List A)
      → ((a : A) → Keeps P (f a))
      → Keeps P (for_each items f)
  unfolding for_each
  Keeps-each [] h = Keeps-pure tt
  Keeps-each (a ∷ items) h = Keeps-then (h a) (Keeps-each items h)

pub ruleset keeps_rules = (
  Keeps-pure, Keeps-raise, Keeps-lift, Keeps-reads, Keeps-attempt, Keeps-if, Keeps-bind, Keeps-then,
  Keeps-fold, Keeps-raise-if, Keeps-ignore, Keeps-each,
)
