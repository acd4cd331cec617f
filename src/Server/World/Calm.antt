-- ===== src/Server/World/Calm.antt =====
-- Calls of a database that refuses nothing, with what the rows, the objects and the locks are.
use cloud_file.Base.{
  ◌≡◌, refl, sym, ap, subst, ◌∙◌, Bool, true, false, List, [], ◌∷◌, Option, none, some, String, ℕ,
  any, str_eq, ltb, length, if◌then◌else◌,
}
pub mod Calls
use mathlib.Core.Bool.{true≢false}
use mathlib.Core.Option.{some-injective}
use cloud_file.Server.Action.{
  Failure, not_found, Outcome, done, fails, Action, attempt, raise_if, for_each, ◌>>=◌, ◌>>◌, pure,
  writes,
}
use cloud_file.Server.Action.Rules.{
  Ends, Ensures, Ensures-bind, Ensures-then, Ensures-pure, Ensures-attempt, Ensures-weaken,
}
use cloud_file.Server.Storage.{ObjectStore}
use cloud_file.Server.World.{
  Config, Tables, World, found, answered, statement, find_rows, first_row, change, transaction,
  undo, stored, acquire, release, publish_media_task,
}
use cloud_file.Server.World.Quiet.{Returns}

abbrev pub Locks : Type 0
Locks = List (String × String)

-- no statement is refused, and the rows, the objects and the locks have their properties
pub record Calm (S : ObjectStore) (T : Tables → Type 0) (U : S.State → Type 0) (L : Locks → Type 0)
    (w : World S) : Type 0 where
  pub open_faults : w.faults ≡ []
  pub rows : T w.tables
  pub objects : U w.objects
  pub locks : L w.locks

-- whatever they are
abbrev pub Any : {A : Type 0} → A → Type 0
Any a = Unit {0}

module _ {S : ObjectStore} {A : Type 0} (U : S.State → Type 0) (L : Locks → Type 0)
    (Q : A → Tables → Type 0) (E : Tables → Type 0) where
  calm_by :
      (x : Outcome A × Tables) (w : World S)
      → w.faults ≡ []
      → U w.objects
      → L w.locks
      → Ends Q E x
      → Ends (λ a. Calm S (Q a) U L) (Calm S E U L) (x.0, record w { tables = x.1 })
  calm_by (done a, t) w e u l q = record { open_faults = e; rows = q; objects = u; locks = l }
  calm_by (fails f, t) w e u l q = record { open_faults = e; rows = q; objects = u; locks = l }

  calm_at :
      (faults : List (Option String)) (f : Tables → Outcome A × Tables) (w : World S)
      → w.faults ≡ faults
      → w.faults ≡ []
      → U w.objects
      → L w.locks
      → Ends Q E (f w.tables)
      → Ends (λ a. Calm S (Q a) U L) (Calm S E U L) (answered faults f w)
  calm_at [] f w e g u l q = calm_by (f w.tables) w g u l q
  calm_at (y ∷ rest) f w e g u l q = cc

module _ {S : ObjectStore} {A : Type 0} {T E : Tables → Type 0} {U : S.State → Type 0}
    {L : Locks → Type 0} {Q : A → Tables → Type 0} where
  pub Calm-statement :
      (f : Tables → Outcome A × Tables)
      → ((t : Tables) → T t → Ends Q E (f t))
      → Ensures (Calm S T U L) (statement f) (λ a. Calm S (Q a) U L) (Calm S E U L)
  unfolding statement
  Calm-statement f h = record {
    from = λ w k.
        calm_at U L Q E w.faults f w refl k.open_faults k.objects k.locks (h w.tables k.rows);
  }

module _ {S : ObjectStore} {T E : Tables → Type 0} {U : S.State → Type 0} {L : Locks → Type 0} where
  pub Calm-weaken : ((t : Tables) → T t → E t) → (w : World S) → Calm S T U L w → Calm S E U L w
  Calm-weaken f w h = record {
    open_faults = h.open_faults;
    rows = f w.tables h.rows;
    objects = h.objects;
    locks = h.locks;
  }

module _ {S : ObjectStore} {T : Tables → Type 0} {U V : S.State → Type 0} {L : Locks → Type 0} where
  pub Calm-objects : ((s : S.State) → U s → V s) → (w : World S) → Calm S T U L w → Calm S T V L w
  Calm-objects f w h = record {
    open_faults = h.open_faults;
    rows = h.rows;
    objects = f w.objects h.objects;
    locks = h.locks;
  }

-- what is no row
pub no_rows :
    {S : ObjectStore} {U : S.State → Type 0} {L : Locks → Type 0} (w : World S)
    → Calm S (λ t. ⊥) U L w
    → ⊥
no_rows w h = h.rows

module _ {S : ObjectStore} {A : Type 0} {T : Tables → Type 0} {U : S.State → Type 0}
    {L : Locks → Type 0} where
  pub Calm-change :
      {Q : A → Tables → Type 0} (f : Tables → A × Tables)
      → ((t : Tables) → T t → Q (f t).0 (f t).1)
      → Returns (Calm S T U L) (change f) (λ a. Calm S (Q a) U L)
  unfolding change
  Calm-change {Q} f h =
      Ensures-weaken (λ w k. k) (λ a w k. k) no_rows (Calm-statement {E = λ t. ⊥} {Q = Q} _ h)

module _ {A : Type 0} (T : Tables → Type 0) (F : A → Type 0) where
  fact_found :
      (x : Option A) (t : Tables)
      → T t
      → ((a : A) → x ≡ some a → F a)
      → Ends (λ a t. T t × F a) (λ t. T t × (x ≡ none)) (found x, t)
  fact_found none t k h = (k, refl)
  fact_found (some a) t k h = (k, h a refl)

  fact_there :
      (x : Option A) (t : Tables) (a : A)
      → T t
      → x ≡ some a
      → Ends (λ b t. T t × (b ≡ a)) (λ t. ⊥) (found x, t)
  fact_there none t a k e = cc
  fact_there (some b) t a k e = (k, some-injective b a e)

module _ {A : Type 0} (T : Tables → Type 0) (f : Tables → Option A) where
  fact_some :
      (x : Option A) (t : Tables)
      → f t ≡ x
      → T t
      → (a : A) × (x ≡ some a)
      → Ends (λ a t. T t × (f t ≡ some a)) (λ t. ⊥) (found x, t)
  fact_some none t e k h = let bad : none ≡ some h.0 = h.1 in cc
  fact_some (some a) t e k h = (k, e)

-- a fact moved out of the rows
module _ {S : ObjectStore} {T : Tables → Type 0} {F : Type 0} {U : S.State → Type 0}
    {L : Locks → Type 0} where
  apart : (w : World S) → Calm S (λ t. T t × F) U L w → Calm S T U L w × F
  apart w h = (Calm-weaken (λ t k. k.0) w h, h.rows.1)

module _ {S : ObjectStore} {A : Type 0} {T : Tables → Type 0} {U : S.State → Type 0}
    {L : Locks → Type 0} where
  pub Calm-find :
      (F : List A → Type 0) (f : Tables → List A)
      → ((t : Tables) → T t → F (f t))
      → Returns (Calm S T U L) (find_rows f) (λ a w. Calm S T U L w × F a)
  unfolding find_rows
  Calm-find F f h =
      Ensures-weaken (λ w k. k) (λ a. apart) no_rows
        (Calm-statement {E = λ t. ⊥} {Q = λ a t. T t × F a} _ (λ t k. (k, h t k)))

  -- the row that the query is known to find
  pub Calm-found :
      (a : A) (f : Tables → Option A)
      → ((t : Tables) → T t → f t ≡ some a)
      → Returns (Calm S T U L) (first_row f) (λ b w. Calm S T U L w × (b ≡ a))
  unfolding first_row
  Calm-found a f h =
      Ensures-weaken (λ w k. k) (λ a. apart) no_rows
        (Calm-statement {E = λ t. ⊥} {Q = λ b t. T t × (b ≡ a)} _
          (λ t k. fact_there T (λ a. Unit {0}) (f t) t a k (h t k)))

  -- the query finds a row
  pub Calm-first :
      (f : Tables → Option A)
      → ((t : Tables) → T t → (a : A) × (f t ≡ some a))
      → Returns (Calm S T U L) (first_row f) (λ a. Calm S (λ t. T t × (f t ≡ some a)) U L)
  unfolding first_row
  Calm-first f h =
      Ensures-weaken (λ w k. k) (λ a w k. k) no_rows
        (Calm-statement {E = λ t. ⊥} {Q = λ a t. T t × (f t ≡ some a)} _
          (λ t k. fact_some T f (f t) t refl k (h t k)))

  attempted_at :
      (G : Outcome A → Type 0) (faults : List (Option String)) (f : Tables → Option A) (w : World S)
      → w.faults ≡ faults
      → Calm S T U L w
      → G (found (f w.tables))
      → Ends
          (λ r w. Calm S T U L w × G r)
          (λ w. ⊥)
          (let (r, w') = answered faults (λ t. (found (f t), t)) w in (done r, w'))
  attempted_at G [] f w e h g = (
    record { open_faults = h.open_faults; rows = h.rows; objects = h.objects; locks = h.locks },
    g,
  )
  attempted_at G (y ∷ rest) f w e h g = let bad : y ∷ rest ≡ [] = sym e ∙ h.open_faults in cc

  answered_at :
      (faults : List (Option String)) (f : Tables → Option A) (w : World S)
      → w.faults ≡ faults
      → Calm S T U L w
      → Ends
          (λ r. Calm S (λ t. T t × (r ≡ found (f t))) U L)
          (λ w. ⊥)
          (let (r, w') = answered faults (λ t. (found (f t), t)) w in (done r, w'))
  answered_at [] f w e h = record {
    open_faults = h.open_faults;
    rows = (h.rows, refl);
    objects = h.objects;
    locks = h.locks;
  }
  answered_at (y ∷ rest) f w e h = let bad : y ∷ rest ≡ [] = sym e ∙ h.open_faults in cc

  -- what the query answers, and of which rows
  pub Calm-answer :
      (f : Tables → Option A)
      → Returns
          (Calm S T U L)
          (attempt (first_row f))
          (λ r. Calm S (λ t. T t × (r ≡ found (f t))) U L)
  unfolding attempt first_row statement
  Calm-answer f = record { from = λ w k. answered_at w.faults f w refl k }

  -- what the query answers, to a caller that looks at its error
  pub Calm-attempt :
      (G : Outcome A → Type 0) (f : Tables → Option A)
      → ((t : Tables) → T t → G (found (f t)))
      → Returns (Calm S T U L) (attempt (first_row f)) (λ r w. Calm S T U L w × G r)
  unfolding attempt first_row statement
  Calm-attempt G f h = record {
    from = λ w k. attempted_at G w.faults f w refl k (h w.tables k.rows);
  }
