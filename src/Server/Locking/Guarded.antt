-- ===== src/Server/Locking/Guarded.antt =====
-- backend/internal/lock/lock.go: what is true of the entries stays true when the lock is taken and given back.
use mathlib.Core.Bool.{true≢false}
use cloud_file.Base.{
  ℕ, ◌==◌, ◌≡◌, refl, ap, sym, subst, ◌∙◌, true, false, not, String, ◌∷◌, any, keep, str_eq, eq_iff,
  Bool-cases, inl, inr, arith,
}
use cloud_file.Server.World.Calm.{Locks}
use cloud_file.Server.Locking.{Phase, outside, holding, set_phase}
use cloud_file.Server.Tables.Rows.{All-weaken}
use cloud_file.Server.Ledger.Rows.{or_true}
use cloud_file.Server.Locking.Entries.{
  is_lock, IsGuarded, holding-injective, outside_holding, any-lock, set_phase-hit, set_phase-miss,
  lock_is, any-keep, All-keep,
}

module _ (key : ℕ → String) (phases : ℕ → Phase) (locks : Locks) (h : IsGuarded key phases locks)
    (i : ℕ) (v : String) where
  -- no holder has the key of a lock that is free
  not_key :
      (j : ℕ) (u : String)
      → any (λ l. str_eq l.0 (key i)) locks ≡ false
      → phases j ≡ holding u
      → key i ≡ key j
      → ⊥
  not_key j u free e k = true≢false (
      sym (any-lock (key j) u locks (h.held j u e))
      ∙ subst (λ x. any (λ l. str_eq l.0 x) locks ≡ false) k free)

  -- the new entry is that of the new holder
  new_held : (j : ℕ) (u : String) → j ≡ i → v ≡ u → is_lock (key j) u (key i, v) ≡ true
  new_held j u e f =
      subst (λ x. is_lock (key x) u (key i, v) ≡ true) (sym e)
        (subst (λ y. is_lock (key i) y (key i, v) ≡ true) f (lock_is (key i) v))

  take_one :
      any (λ l. str_eq l.0 (key i)) locks ≡ false
      → (j k : ℕ) (a b : String) → set_phase i (holding v) phases j ≡ holding a
      → set_phase i (holding v) phases k ≡ holding b
      → key j ≡ key k
      → j ≡ k
  take_one free j k a b e f g = elim (Bool-cases (j == i)) [
    | inl m ↦ elim (Bool-cases (k == i)) [
      | inl n ↦ ground (arith, m, n)
      | inr n ↦
          let same : j ≡ i = ground (arith, m) in
          absurd (
            not_key k b free (sym (set_phase-miss i k (holding v) phases n) ∙ f)
              (ap key (sym same) ∙ g))
    ]
    | inr m ↦ elim (Bool-cases (k == i)) [
      | inl n ↦
          let same : k ≡ i = ground (arith, n) in
          absurd (
            not_key j a free (sym (set_phase-miss i j (holding v) phases m) ∙ e)
              (ap key (sym same) ∙ sym g))
      | inr n ↦
          h.one j k a b (sym (set_phase-miss i j (holding v) phases m) ∙ e)
            (sym (set_phase-miss i k (holding v) phases n) ∙ f) g
    ]
  ]

  -- another request keeps its phase
  other_phase :
      (p q : Phase) (j : ℕ) (u : String)
      → (q ≡ holding u → ⊥)
      → phases i ≡ q
      → phases j ≡ holding u
      → set_phase i p phases j ≡ holding u
  other_phase p q j u bad e f = elim (Bool-cases (j == i)) [
    | inl m ↦ let same : i ≡ j = ground (arith, m) in absurd (bad (sym e ∙ ap phases same ∙ f))
    | inr m ↦ set_phase-miss i j p phases m ∙ f
  ]

  pub IsGuarded-take :
      phases i ≡ outside
      → any (λ l. str_eq l.0 (key i)) locks ≡ false
      → IsGuarded key (set_phase i (holding v) phases) ((key i, v) ∷ locks)
  IsGuarded-take out free = record {
    held = λ j u e. elim (Bool-cases (j == i)) [
      | inl f ↦ rw (
          new_held j u (ground (arith, f))
            (holding-injective v u (sym (set_phase-hit i j (holding v) phases f) ∙ e)))
      | inr f ↦
          rw (h.held j u (sym (set_phase-miss i j (holding v) phases f) ∙ e))
            (or_true (is_lock (key j) u (key i, v)))
    ];
    one = take_one free;
    owned = (
      (i, set_phase-hit i i (holding v) phases (ground arith), refl),
      All-weaken _ _ (λ l k. (k.0, other_phase (holding v) outside k.0 l.1 (λ e. cc) out k.1, k.2))
          locks h.owned,
    );
  }

  still : (j : ℕ) (u : String) → set_phase i outside phases j ≡ holding u → phases j ≡ holding u
  still j u f = elim (Bool-cases (j == i)) [
    | inl m ↦ absurd (outside_holding u (sym (set_phase-hit i j outside phases m) ∙ f))
    | inr m ↦ sym (set_phase-miss i j outside phases m) ∙ f
  ]

  -- what another request holds is not given back
  other_entry :
      (j : ℕ) (u : String)
      → phases i ≡ holding v
      → phases j ≡ holding u
      → (j == i) ≡ false
      → (l : String × String) → is_lock (key j) u l ≡ true
      → not (is_lock (key i) v l) ≡ true
  other_entry j u e f n l k = elim (Bool-cases (str_eq l.0 (key i))) [
    | inr g ↦ rw g
    | inl g ↦ elim (Bool-cases (str_eq l.0 (key j))) [
      | inr m ↦ absurd (true≢false (sym (rw m at k)))
      | inl m ↦
          let same : j ≡ i = h.one j i u v f e (sym ((eq_iff _ _).0 m) ∙ (eq_iff _ _).0 g) in
          absurd (true≢false (sym (ground (arith, same)) ∙ n))
    ]
  ]

  gone_entry :
      (l : String × String)
      → not (is_lock (key i) v l) ≡ true
      → (j : ℕ) × (phases j ≡ holding l.1) × (key j ≡ l.0)
      → phases i ≡ holding v
      → (j : ℕ) × (set_phase i outside phases j ≡ holding l.1) × (key j ≡ l.0)
  gone_entry l n (j, f, g) e = elim (Bool-cases (j == i)) [
    | inr m ↦ (j, set_phase-miss i j outside phases m ∙ f, g)
    | inl m ↦
        let same : j ≡ i = ground (arith, m) in
        let value = holding-injective v l.1 (sym e ∙ sym (ap phases same) ∙ f) in
        let entry : is_lock (key i) v l ≡ true =
          rw ((eq_iff l.0 (key i)).1 (sym g ∙ ap key same), (eq_iff l.1 v).1 (sym value)) in
        absurd (true≢false (sym n ∙ rw entry))
  ]

  pub IsGuarded-give_back :
      phases i ≡ holding v
      → IsGuarded key (set_phase i outside phases) (keep (λ l. not (is_lock (key i) v l)) locks)
  IsGuarded-give_back e = record {
    held = λ j u f. elim (Bool-cases (j == i)) [
      | inl m ↦
          let bad = sym (set_phase-hit i j outside phases m) ∙ f in absurd (outside_holding u bad)
      | inr m ↦
          let g = sym (set_phase-miss i j outside phases m) ∙ f in
          any-keep (is_lock (key j) u) (λ l. not (is_lock (key i) v l)) (other_entry j u e g m)
            locks
          ∙ h.held j u g
    ];
    one = λ j k a b f g m. h.one j k a b (still j a f) (still k b g) m;
    owned = All-keep (is_lock (key i) v) _ _ _ (λ l n k. gone_entry l n k e) locks h.owned;
  }
