-- ===== src/Server/World/Quiet.antt =====
-- Calls of a database that refuses nothing.
use cloud_file.Base.{◌≡◌, refl, sym, ap, subst, List, [], ◌∷◌, Option, some, String, ℕ}
use cloud_file.Server.Action.{Outcome, done, fails, Action}
use cloud_file.Server.Action.Rules.{Ends, Ensures, done-injective}
use cloud_file.Server.Storage.{ObjectStore}
use cloud_file.Server.World.{Tables, World, found, answered, statement, first_row, change}

-- no statement is refused, it is `now`, and the rows have the property
pub record Quiet (S : ObjectStore) (now : ℕ) (T : Tables → Type 0) (w : World S) : Type 0 where
  pub open_faults : w.faults ≡ []
  pub time : w.now ≡ now
  pub rows : T w.tables

-- the call cannot fail
abbrev pub Returns : {W A : Type 0} → (W → Type 0) → Action W A → (A → W → Type 0) → Type 0
Returns P m Q = Ensures P m Q (λ w. ⊥)

module _ {S : ObjectStore} {A : Type 0} (now : ℕ) (Q : Tables → Type 0) (a : A) where
  Quiet-by :
      (x : Outcome A × Tables) (w : World S)
      → w.faults ≡ []
      → w.now ≡ now
      → x.0 ≡ done a
      → Q x.1
      → Ends (λ b w. Quiet S now Q w × (b ≡ a)) (λ w. ⊥) (x.0, record w { tables = x.1 })
  Quiet-by (done b, t) w e n d q =
      (record { open_faults = e; time = n; rows = q }, done-injective b a d)
  Quiet-by (fails f, t) w e n d q = cc

  Quiet-at :
      (faults : List (Option String)) (f : Tables → Outcome A × Tables) (w : World S)
      → w.faults ≡ faults
      → w.faults ≡ []
      → w.now ≡ now
      → ((f w.tables).0 ≡ done a) × Q (f w.tables).1
      → Ends (λ b w. Quiet S now Q w × (b ≡ a)) (λ w. ⊥) (answered faults f w)
  Quiet-at [] f w e g n h = Quiet-by (f w.tables) w g n h.0 h.1
  Quiet-at (y ∷ rest) f w e g n h = cc

  pub Quiet-statement :
      {T : Tables → Type 0} (f : Tables → Outcome A × Tables)
      → ((t : Tables) → T t → ((f t).0 ≡ done a) × Q (f t).1)
      → Returns (Quiet S now T) (statement f) (λ b w. Quiet S now Q w × (b ≡ a))
  unfolding statement
  Quiet-statement f h = record {
    from = λ w k. Quiet-at w.faults f w refl k.open_faults k.time (h w.tables k.rows);
  }

  pub Quiet-change :
      {T : Tables → Type 0} (f : Tables → A × Tables)
      → ((t : Tables) → T t → ((f t).0 ≡ a) × Q (f t).1)
      → Returns (Quiet S now T) (change f) (λ b w. Quiet S now Q w × (b ≡ a))
  unfolding change
  Quiet-change f h = Quiet-statement _ (λ t k. (ap done (h t k).0, (h t k).1))

-- the value of a call that is known
pub given :
    {W A B : Type 0} {P : W → Type 0} {R : B → W → Type 0} (a : A) (k : A → Action W B)
    → Returns P (k a) R
    → (b : A) → Returns (λ w. P w × (b ≡ a)) (k b) R
given {P = P} {R = R} a k h b = record {
  from = λ w p. subst (λ x. Ends R (λ w. ⊥) (k x w)) (sym p.1) (h.from w p.0);
}

module _ {S : ObjectStore} {A : Type 0} (now : ℕ) (T : Tables → Type 0) (a : A) where
  pub Quiet-first :
      (f : Tables → Option A)
      → ((t : Tables) → T t → f t ≡ some a)
      → Returns (Quiet S now T) (first_row f) (λ b w. Quiet S now T w × (b ≡ a))
  unfolding first_row
  Quiet-first f h = Quiet-statement now T a _ (λ t k. (ap found (h t k), k))
