-- ===== src/Server/World/Rules.antt =====
-- What the calls of the database, the store, the locks and the queue ensure, whatever statements the
-- database refuses.
use cloud_file.Base.{
  ℕ, Bool, true, false, String, List, [], ◌∷◌, Option, none, some, ◌≡◌, refl, any, ltb, length,
  str_eq, if◌then◌else◌,
}
use cloud_file.Server.Action.{Outcome, done, fails, Action, writes, ◌>>=◌}
use cloud_file.Server.Action.Rules.{Ends, Ensures, Keeps, Ensures-bind, Ensures-weaken, Keeps-pure}
use cloud_file.Server.Storage.{ObjectStore}
use cloud_file.Server.World.{
  Config, Tables, World, found, answered, statement, find_rows, first_row, change, transaction,
  undo, stored, is_stored, acquire, release, publish_media_task, publish_dead,
}

-- a property of the rows
pub record On (S : ObjectStore) (T : Tables → Type 0) (w : World S) : Type 0 where
  pub rows : T w.tables

-- a property of the objects
pub record Holds (S : ObjectStore) (T : S.State → Type 0) (w : World S) : Type 0 where
  pub objects : T w.objects

module _ {S : ObjectStore} {A : Type 0} (T E : Tables → Type 0) (Q : A → Tables → Type 0) where
  Ends-row :
      (x : Outcome A × Tables) (w : World S) (rest : List (Option String))
      → Ends Q E x
      → Ends (λ a. On S (Q a)) (On S E) (x.0, record w { tables = x.1; faults = rest })
  Ends-row (done a, t) w rest h = record { rows = h }
  Ends-row (fails e, t) w rest h = record { rows = h }

  -- refused, or run
  at_faults :
      (faults : List (Option String)) (f : Tables → Outcome A × Tables) (w : World S)
      → ((t : Tables) → T t → Ends Q E (f t))
      → ((t : Tables) → T t → E t)
      → T w.tables
      → Ends (λ a. On S (Q a)) (On S E) (answered faults f w)
  at_faults [] f w h g t = Ends-row (f w.tables) w w.faults (h w.tables t)
  at_faults (none ∷ rest) f w h g t = Ends-row (f w.tables) w rest (h w.tables t)
  at_faults (some x ∷ rest) f w h g t = record { rows = g w.tables t }

module _ {S : ObjectStore} {A : Type 0} {T E : Tables → Type 0} {Q : A → Tables → Type 0} where
  pub Ensures-statement :
      (f : Tables → Outcome A × Tables)
      → ((t : Tables) → T t → Ends Q E (f t))
      → ((t : Tables) → T t → E t)
      → Ensures (On S T) (statement f) (λ a. On S (Q a)) (On S E)
  unfolding statement
  Ensures-statement f h g = record { from = λ w t. at_faults T E Q w.faults f w h g t.rows }

  pub Ensures-change :
      (f : Tables → A × Tables)
      → ((t : Tables) → T t → Q (f t).0 (f t).1)
      → ((t : Tables) → T t → E t)
      → Ensures (On S T) (change f) (λ a. On S (Q a)) (On S E)
  unfolding change
  Ensures-change f h g = Ensures-statement (λ t. let (a, t') = f t in (done a, t')) h g

module _ {A : Type 0} (T : Tables → Type 0) where
  answer_of :
      (f : Tables → Option A) (t : Tables) (x : Option A)
      → f t ≡ x
      → T t
      → Ends (λ a u. T u × (f u ≡ some a)) T (found x, t)
  answer_of f t none e h = h
  answer_of f t (some a) e h = (h, e)

  either-Ends :
      {S : ObjectStore} (b : Bool) (x y : Outcome A × World S)
      → Ends (λ a. On S T) (On S T) x
      → Ends (λ a. On S T) (On S T) y
      → Ends (λ a. On S T) (On S T) (if b then x else y)
  either-Ends true x y h k = h
  either-Ends false x y h k = k

  Ends-objects :
      {S : ObjectStore} (x : Outcome A × S.State) (w : World S)
      → T w.tables
      → Ends (λ a. On S T) (On S T) (x.0, record w { objects = x.1 })
  Ends-objects (done a, s) w h = record { rows = h }
  Ends-objects (fails e, s) w h = record { rows = h }

module _ {S : ObjectStore} {A : Type 0} {T : Tables → Type 0} where
  -- a query of any kind, with what it answers
  pub Ensures-find :
      (f : Tables → List A)
      → Ensures (On S T) (find_rows f) (λ a. On S (λ t. T t × (a ≡ f t))) (On S T)
  unfolding find_rows
  Ensures-find f = Ensures-statement (λ t. (done (f t), t)) (λ t h. (h, refl)) (λ t h. h)

  pub Ensures-first :
      (f : Tables → Option A)
      → Ensures (On S T) (first_row f) (λ a. On S (λ t. T t × (f t ≡ some a))) (On S T)
  unfolding first_row
  Ensures-first f =
      Ensures-statement (λ t. (found (f t), t)) (λ t h. answer_of T f t (f t) refl h) (λ t h. h)

  pub Keeps-find : (f : Tables → List A) → Keeps (On S T) (find_rows f)
  Keeps-find f =
      Ensures-weaken (λ w h. h) (λ a w h. record { rows = h.rows.0 }) (λ w h. h) (Ensures-find f)

  pub Keeps-first : (f : Tables → Option A) → Keeps (On S T) (first_row f)
  Keeps-first f =
      Ensures-weaken (λ w h. h) (λ a w h. record { rows = h.rows.0 }) (λ w h. h) (Ensures-first f)

  pub Keeps-change :
      (f : Tables → A × Tables) → ((t : Tables) → T t → T (f t).1) → Keeps (On S T) (change f)
  Keeps-change f h = Ensures-change f h (λ t a. a)

  pub Keeps-stored : (m : Action S.State A) → Keeps (On S T) (stored m)
  unfolding stored
  Keeps-stored m = record { from = λ w h. Ends-objects T {S = S} (m w.objects) w h.rows }

module _ {S : ObjectStore} {T : Tables → Type 0} where
  pub Keeps-is_stored : (key : String) → Keeps (On S T) (is_stored key)
  unfolding is_stored
  Keeps-is_stored key = record { from = λ w h. record { rows = h.rows } }

  pub Keeps-acquire : (c : Config) (key : String) → Keeps (On S T) (acquire c key)
  unfolding acquire
  Keeps-acquire c key = record {
    from =
        λ w h. either-Ends T (any (λ l. str_eq l.0 key) w.locks) _ _ h (record { rows = h.rows });
  }

  pub Keeps-release : (key value : String) → Keeps (On S T) (release key value)
  unfolding release writes
  Keeps-release key value = record { from = λ w h. record { rows = h.rows } }

  pub Keeps-publish : (id : ℕ) → Keeps (On S T) (publish_media_task id)
  unfolding publish_media_task
  Keeps-publish id = record {
    from = λ w h. either-Ends T (ltb (length w.queue) 1024) _ _ (record { rows = h.rows }) h;
  }

  pub Keeps-publish_dead : (id : ℕ) → Keeps (On S T) (publish_dead id)
  Keeps-publish_dead id = Keeps-pure tt

-- A transaction: what its body leaves where it returns, and the rows as they were where it does not.
module _ {S : ObjectStore} {A : Type 0} (T : Tables → Type 0) (Q : A → Tables → Type 0) where
  Ends-undo :
      (x : Outcome A × World S) (t : Tables)
      → T t
      → Ends (λ a. On S (Q a)) (λ w. Unit {0}) x
      → Ends (λ a. On S (Q a)) (On S T) (undo t x)
  Ends-undo (done a, w) t h q = q
  Ends-undo (fails e, w) t h q = record { rows = h }

  pub Ensures-transaction :
      {m : Action (World S) A}
      → Ensures (On S T) m (λ a. On S (Q a)) (λ w. Unit {0})
      → Ensures (On S T) (transaction m) (λ a. On S (Q a)) (On S T)
  unfolding transaction
  Ensures-transaction {m} body = record {
    from = λ w h. Ends-undo ((m >>= λ a. change (λ t. (a, t))) w) w.tables h.rows (
        (Ensures-bind body (λ a.
            Ensures-weaken (λ w q. q) (λ b w q. q) (λ w q. tt)
              (Ensures-change {E = λ t. Unit {0}} {Q = Q} (λ t. (a, t)) (λ t q. q)
                (λ t q. tt)))).from
          w h);
  }

pub ruleset rows_rules = (
  Keeps-find, Keeps-first, Keeps-change, Keeps-stored, Keeps-is_stored, Keeps-acquire,
  Keeps-release, Keeps-publish, Keeps-publish_dead,
)
