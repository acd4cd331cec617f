-- ===== src/Server/World/Objects.antt =====
-- What the calls of the database, the store, the locks and the queue do to the objects.
use cloud_file.Base.{
  ℕ, ◌≡◌, refl, Bool, true, false, String, List, [], ◌∷◌, Option, none, some, ltb, length,
  if◌then◌else◌,
}
use cloud_file.Server.Action.{Outcome, done, fails, Action, ◌>>=◌}
use cloud_file.Server.Action.Rules.{Ends, Ensures, Keeps, Keeps-bind}
use cloud_file.Server.Storage.{ObjectStore}
use cloud_file.Server.World.{
  Tables, World, found, answered, statement, find_rows, first_row, change, transaction, undo,
  stored, publish_media_task,
}
use cloud_file.Server.World.Rules.{Holds}

module _ {S : ObjectStore} {A : Type 0} (T : S.State → Type 0) where
  kept_by :
      (x : Outcome A × Tables) (w : World S) (rest : List (Option String))
      → T w.objects
      → Ends (λ a. Holds S T) (Holds S T) (x.0, record w { tables = x.1; faults = rest })
  kept_by (done a, t) w rest h = record { objects = h }
  kept_by (fails e, t) w rest h = record { objects = h }

  kept_objects :
      (faults : List (Option String)) (f : Tables → Outcome A × Tables) (w : World S)
      → T w.objects
      → Ends (λ a. Holds S T) (Holds S T) (answered faults f w)
  kept_objects [] f w h = kept_by (f w.tables) w w.faults h
  kept_objects (none ∷ rest) f w h = kept_by (f w.tables) w rest h
  kept_objects (some x ∷ rest) f w h = record { objects = h }

  kept_undone :
      (x : Outcome A × World S) (t : Tables)
      → Ends (λ a. Holds S T) (Holds S T) x
      → Ends (λ a. Holds S T) (Holds S T) (undo t x)
  kept_undone (done a, w) t h = h
  kept_undone (fails e, w) t h = record { objects = h.objects }

  either_holds :
      (b : Bool) (x y : Outcome A × World S)
      → Ends (λ a. Holds S T) (Holds S T) x
      → Ends (λ a. Holds S T) (Holds S T) y
      → Ends (λ a. Holds S T) (Holds S T) (if b then x else y)
  either_holds true x y h k = h
  either_holds false x y h k = k

module _ {S : ObjectStore} {A : Type 0} (Q : A → S.State → Type 0) (E : S.State → Type 0) where
  Ends-stored :
      (x : Outcome A × S.State) (w : World S)
      → Ends Q E x
      → Ends (λ a. Holds S (Q a)) (Holds S E) (x.0, record w { objects = x.1 })
  Ends-stored (done a, s) w h = record { objects = h }
  Ends-stored (fails e, s) w h = record { objects = h }

module _ {S : ObjectStore} {A : Type 0} {T : S.State → Type 0} where
  pub Holds-statement : (f : Tables → Outcome A × Tables) → Keeps (Holds S T) (statement f)
  unfolding statement
  Holds-statement f = record { from = λ w h. kept_objects T w.faults f w h.objects }

module _ {S : ObjectStore} {A : Type 0} {T : S.State → Type 0} where
  pub Holds-find : (f : Tables → List A) → Keeps (Holds S T) (find_rows f)
  unfolding find_rows
  Holds-find f = Holds-statement _

  pub Holds-first : (f : Tables → Option A) → Keeps (Holds S T) (first_row f)
  unfolding first_row
  Holds-first f = Holds-statement _

  pub Holds-change : (f : Tables → A × Tables) → Keeps (Holds S T) (change f)
  unfolding change
  Holds-change f = Holds-statement _

  pub Holds-stored :
      {Q : A → S.State → Type 0} {E : S.State → Type 0} (m : Action S.State A)
      → ((s : S.State) → T s → Ends Q E (m s))
      → Ensures (Holds S T) (stored {S = S} m) (λ a. Holds S (Q a)) (Holds S E)
  unfolding stored
  Holds-stored {Q} {E} m h = record {
    from = λ w k. Ends-stored Q E (m w.objects) w (h w.objects k.objects);
  }

module _ {A : Type 0} (F : A → Type 0) where
  fact_found :
      (x : Option A) (t : Tables)
      → ((a : A) → x ≡ some a → F a)
      → Ends (λ a t. F a) (λ t. Unit {0}) (found x, t)
  fact_found none t h = tt
  fact_found (some a) t h = h a refl

-- A statement whose answer has a property, whatever the rows are.
module _ {S : ObjectStore} {A : Type 0} (T : S.State → Type 0) (F : A → Type 0) where
  fact_by :
      (x : Outcome A × Tables) (w : World S) (rest : List (Option String))
      → Ends (λ a t. F a) (λ t. Unit {0}) x
      → T w.objects
      → Ends (λ a w. Holds S T w × F a) (Holds S T) (x.0, record w { tables = x.1; faults = rest })
  fact_by (done a, t) w rest f h = (record { objects = h }, f)
  fact_by (fails e, t) w rest f h = record { objects = h }

  fact_at :
      (faults : List (Option String)) (f : Tables → Outcome A × Tables) (w : World S)
      → ((t : Tables) → Ends (λ a t. F a) (λ t. Unit {0}) (f t))
      → T w.objects
      → Ends (λ a w. Holds S T w × F a) (Holds S T) (answered faults f w)
  fact_at [] f w g h = fact_by (f w.tables) w w.faults (g w.tables) h
  fact_at (none ∷ rest) f w g h = fact_by (f w.tables) w rest (g w.tables) h
  fact_at (some x ∷ rest) f w g h = record { objects = h }

  pub Answers-first :
      (f : Tables → Option A)
      → ((t : Tables) (a : A) → f t ≡ some a → F a)
      → Ensures (Holds S T) (first_row f) (λ a w. Holds S T w × F a) (Holds S T)
  unfolding first_row statement
  Answers-first f h = record {
    from = λ w k. fact_at w.faults _ w (λ t. fact_found F (f t) t (h t)) k.objects;
  }

  pub Answers-change :
      (f : Tables → A × Tables)
      → ((t : Tables) → F (f t).0)
      → Ensures (Holds S T) (change f) (λ a w. Holds S T w × F a) (Holds S T)
  unfolding change statement
  Answers-change f h = record { from = λ w k. fact_at w.faults _ w (λ t. h t) k.objects }

module _ {S : ObjectStore} {A : Type 0} {T : S.State → Type 0} where
  pub Holds-transaction :
      {m : Action (World S) A} → Keeps (Holds S T) m → Keeps (Holds S T) (transaction m)
  unfolding transaction
  Holds-transaction {m} km = record {
    from = λ w h.
        kept_undone T ((m >>= λ a. change (λ t. (a, t))) w) w.tables
          ((Keeps-bind km (λ a. Holds-change (λ t. (a, t)))).from w h);
  }

module _ {S : ObjectStore} {T : S.State → Type 0} where
  pub Holds-publish : (id : ℕ) → Keeps (Holds S T) (publish_media_task id)
  unfolding publish_media_task
  Holds-publish id = record {
    from = λ w h. either_holds T (ltb (length w.queue) 1024) _ _ (record { objects = h.objects }) h;
  }

pub ruleset objects_rules =
    (Holds-statement, Holds-find, Holds-first, Holds-change, Holds-transaction, Holds-publish)
