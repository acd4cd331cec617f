-- ===== src/Server/Locking/Exclusion.antt =====
-- backend/internal/lock/lock.go: of requests that run at the same time, one at most holds the lock of a key.
use cloud_file.Base.{
  ℕ, ◌≡◌, refl, sym, subst, ◌∙◌, false, String, [], ◌∷◌, any, some, All, str_eq, eq_iff, Bool-cases,
  inl, inr,
}
use cloud_file.Server.Action.{writes}
use cloud_file.Server.Storage.{ObjectStore}
use cloud_file.Server.World.{Config, acquire, release}
use cloud_file.Server.Action.{done}
use cloud_file.Server.World.Calm.{Locks}
use cloud_file.Server.Locking.{
  Phase, outside, holding, System, set_phase, Moves, takes, refused, gives_back, works, Reach, here,
  next,
}
use cloud_file.Server.Locking.Entries.{IsGuarded, outside_holding, acquire-some, acquire-none}
use cloud_file.Server.Locking.Guarded.{IsGuarded-take, IsGuarded-give_back}

nobody :
    (key : ℕ → String) (phases : ℕ → Phase) (k : String) (locks : Locks)
    → All (λ l. (i : ℕ) × (phases i ≡ holding l.1) × (key i ≡ l.0)) locks
    → ((i : ℕ) → key i ≡ k → phases i ≡ outside)
    → any (λ l. str_eq l.0 k) locks ≡ false
nobody key phases k [] h out = refl
nobody key phases k (l ∷ locks) ((i, e, f), hs) out = elim (Bool-cases (str_eq l.0 k)) [
  | inl g ↦ absurd (outside_holding l.1 (sym (out i (f ∙ (eq_iff l.0 k).0 g)) ∙ e))
  | inr g ↦ rw (g, nobody key phases k locks hs out)
]

module _ {S : ObjectStore} (c : Config) (key : ℕ → String) where
  moved :
      (s t : System S)
      → IsGuarded key s.phases s.world.locks
      → Moves c key s t
      → IsGuarded key t.phases t.world.locks
  unfolding release writes
  moved s t h (takes i value w out e) =
      let given = acquire-some c (key i) value s.world w e in
      subst (IsGuarded key (set_phase i (holding value) s.phases)) (sym given.1)
        (IsGuarded-take key s.phases s.world.locks h i value out given.0)
  moved s t h (refused i w out e) =
      subst (IsGuarded key s.phases) (sym (acquire-none c (key i) s.world w e)) h
  moved s t h (gives_back i value e) = IsGuarded-give_back key s.phases s.world.locks h i value e
  moved s t h (works w e) = subst (IsGuarded key s.phases) (sym e) h

  reached :
      (s t : System S)
      → IsGuarded key s.phases s.world.locks
      → Reach c key s t
      → IsGuarded key t.phases t.world.locks
  reached s t h here = h
  reached s t h (next u v r m) = moved u t (reached s u h r) m

  started :
      (s : System S)
      → s.world.locks ≡ []
      → ((i : ℕ) → s.phases i ≡ outside)
      → IsGuarded key s.phases s.world.locks
  started s e out = record {
    held = λ i v f. absurd (outside_holding v (sym (out i) ∙ f));
    one = λ i j v u f g k. absurd (outside_holding v (sym (out i) ∙ f));
    owned = rw e tt;
  }

  -- Requests that run at the same time, in any order of their steps: from a state in which nothing is
  -- locked and no request holds a lock, in whatever state they reach, two requests that hold the lock of
  -- one key are the same request.
  pub Reach-exclusive :
      (s t : System S)
      → s.world.locks ≡ []
      → ((i : ℕ) → s.phases i ≡ outside)
      → Reach c key s t
      → (i j : ℕ) (v u : String) → t.phases i ≡ holding v
      → t.phases j ≡ holding u
      → key i ≡ key j
      → i ≡ j
  Reach-exclusive s t e out r = (reached s t (started s e out) r).one

  -- Requests that run at the same time, in any order of their steps, from a state in which nothing is
  -- locked and no request holds a lock: in whatever state they reach, the lock of a key that no request
  -- holds is given to the next that asks for it.
  pub Reach-acquire :
      (s t : System S)
      → s.world.locks ≡ []
      → ((i : ℕ) → s.phases i ≡ outside)
      → Reach c key s t
      → (k : String) → ((i : ℕ) → key i ≡ k → t.phases i ≡ outside)
      → (acquire c k t.world).0 ≡ done (some (c.new_uuid t.world.uuids))
  unfolding acquire
  Reach-acquire s t e out r k free =
      rw (nobody key t.phases k t.world.locks (reached s t (started s e out) r).owned free)
