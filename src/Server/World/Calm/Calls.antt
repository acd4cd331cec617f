-- ===== src/Server/World/Calm/Calls.antt =====
-- The store, the locks, the queue and transactions, where the database refuses nothing.
use cloud_file.Base.{
  ◌≡◌, refl, Bool, true, false, List, [], ◌∷◌, some, String, ℕ, any, str_eq, ltb, length,
  if◌then◌else◌,
}
use mathlib.Core.Bool.{true≢false}
use cloud_file.Server.Action.{Failure, Outcome, done, fails, Action, raise_if, for_each, ◌>>=◌}
use cloud_file.Server.Action.Rules.{Ends, Ensures, Ensures-bind, Ensures-then, Ensures-pure}
use cloud_file.Server.Storage.{ObjectStore}
use cloud_file.Server.World.{
  Config, Tables, World, change, transaction, undo, stored, acquire, publish_media_task,
}
use cloud_file.Server.World.Quiet.{Returns}
use cloud_file.Server.World.Calm.{Locks, Calm, Any, Calm-change}

module _ {S : ObjectStore} {A : Type 0} {T : Tables → Type 0} {U : S.State → Type 0}
    {L : Locks → Type 0} (V : A → S.State → Type 0) (E : S.State → Type 0) where
  stored_by :
      (x : Outcome A × S.State) (w : World S)
      → Calm S T U L w
      → Ends V E x
      → Ends (λ a. Calm S T (V a) L) (Calm S T E L) (x.0, record w { objects = x.1 })
  stored_by (done a, s) w h v = record {
    open_faults = h.open_faults;
    rows = h.rows;
    objects = v;
    locks = h.locks;
  }
  stored_by (fails e, s) w h v = record {
    open_faults = h.open_faults;
    rows = h.rows;
    objects = v;
    locks = h.locks;
  }

  pub Calm-stored :
      (m : Action S.State A)
      → ((s : S.State) → U s → Ends V E (m s))
      → Ensures (Calm S T U L) (stored {S = S} m) (λ a. Calm S T (V a) L) (Calm S T E L)
  unfolding stored
  Calm-stored m h = record { from = λ w k. stored_by (m w.objects) w k (h w.objects k.objects) }

-- a fact moved out of the objects
module _ {S : ObjectStore} {T : Tables → Type 0} {F : Type 0} {U : S.State → Type 0}
    {L : Locks → Type 0} where
  pub apart_objects : (w : World S) → Calm S T (λ s. U s × F) L w → Calm S T U L w × F
  apart_objects w h = (
    record { open_faults = h.open_faults; rows = h.rows; objects = h.objects.0; locks = h.locks },
    h.objects.1,
  )

-- where the store cannot fail
pub no_objects :
    {S : ObjectStore} {T : Tables → Type 0} {L : Locks → Type 0} (w : World S)
    → Calm S T (λ s. ⊥) L w
    → ⊥
no_objects w h = h.objects

module _ {S : ObjectStore} {A : Type 0} (R : A → World S → Type 0) where
  returned : (x : Outcome A × World S) (t : Tables) → Ends R (λ w. ⊥) x → Ends R (λ w. ⊥) (undo t x)
  returned (done a, w) t h = h
  returned (fails e, w) t h = absurd h

module _ {S : ObjectStore} {A : Type 0} {T : Tables → Type 0} {U : S.State → Type 0}
    {L : Locks → Type 0} {Q : A → Tables → Type 0} where
  pub Calm-transaction :
      {m : Action (World S) A}
      → Returns (Calm S T U L) m (λ a. Calm S (Q a) U L)
      → Returns (Calm S T U L) (transaction m) (λ a. Calm S (Q a) U L)
  unfolding transaction
  Calm-transaction {m} body = record {
    from = λ w h.
        returned _ ((m >>= λ a. change (λ t. (a, t))) w) w.tables
          ((Ensures-bind body (λ a. Calm-change {Q = Q} (λ t. (a, t)) (λ t q. q))).from w h);
  }

module _ {W : Type 0} {P : W → Type 0} where
  -- a guard that does not hold
  pub passes_guard : (b : Bool) (e : Failure) → b ≡ false → Returns P (raise_if b e) (λ a. P)
  unfolding raise_if
  passes_guard true e h = absurd (true≢false h)
  passes_guard false e h = record { from = λ w p. p }

  pub Returns-each :
      {A : Type 0} {f : A → Action W (Unit {0})} (items : List A)
      → ((a : A) → Returns P (f a) (λ b. P))
      → Returns P (for_each items f) (λ b. P)
  unfolding for_each
  Returns-each [] h = Ensures-pure tt (λ w p. p)
  Returns-each (a ∷ items) h = Ensures-then (h a) (λ b. Returns-each items h)

-- one of two
module _ {W A : Type 0} (Q : A → W → Type 0) (E : W → Type 0) where
  false_case :
      (b : Bool) (x y : Outcome A × W) → b ≡ false → Ends Q E y → Ends Q E (if b then x else y)
  false_case true x y e h = absurd (true≢false e)
  false_case false x y e h = h

  either_case :
      (b : Bool) (x y : Outcome A × W) → Ends Q E x → Ends Q E y → Ends Q E (if b then x else y)
  either_case true x y h k = h
  either_case false x y h k = k

-- a lock that is free
module _ {S : ObjectStore} {T : Tables → Type 0} {U : S.State → Type 0} {L : Locks → Type 0} where
  pub Calm-acquire :
      (c : Config) (key : String)
      → ((locks : Locks) → L locks → any (λ l. str_eq l.0 key) locks ≡ false)
      → Returns
          (Calm S T U L)
          (acquire c key)
          (λ v w. Calm S T U Any w × ((value : String) × (v ≡ some value)))
  unfolding acquire
  Calm-acquire c key free = record {
    from = λ w h. false_case _ _ _ _ _ (free w.locks h.locks) (
      record { open_faults = h.open_faults; rows = h.rows; objects = h.objects; locks = tt },
      (c.new_uuid w.uuids, refl),
    );
  }

  pub Calm-publish :
      (id : ℕ) → Ensures (Calm S T U L) (publish_media_task id) (λ a. Calm S T U L) (Calm S T U L)
  unfolding publish_media_task
  Calm-publish id = record {
    from = λ w h.
        either_case _ _ (ltb (length w.queue) 1024) _ _
          (record {
            open_faults = h.open_faults;
            rows = h.rows;
            objects = h.objects;
            locks = h.locks;
          })
          h;
  }
