-- ===== src/Examples/Shelf.antt =====
-- A store as backend/internal/storage/storage.go wants it, for the examples: a function.
use text.Mathlib.Text.{starts_with}
use text.Mathlib.TextEquality.{starts_with_iff}
use text.Mathlib.TextLemmas.{append-nil}
use mathlib.Core.Bool.{true≢false}
use mathlib.Core.Option.{some-injective}
use cloud_file.Base.{
  ℕ, ◌≡◌, refl, Bool, true, false, String, List, Option, none, some, str_eq, eq_refl, eq_iff,
  length, ap, if◌then◌else◌, Bool-cases, inl, inr, sym, ◌∙◌,
}
use cloud_file.Server.Action.{failure, Outcome, done, fails}
use cloud_file.Server.Action.Rules.{Ends}
use cloud_file.Server.Storage.{ObjectStore, IsLawful, IsReliable, IsDone, joined}

-- a store that is a function
abbrev pub Shelf : Type 0
Shelf = String → Option (List ℕ)

abbrev pub got : Option (List ℕ) → Shelf → Outcome (List ℕ) × Shelf
got none s = (fails (failure "no object"), s)
got (some b) s = (done b, s)

abbrev pub statted : Option (List ℕ) → Shelf → Outcome ℕ × Shelf
statted none s = (fails (failure "no object"), s)
statted (some b) s = (done (length b), s)

abbrev pub composed : String → Option (List ℕ) → Shelf → Outcome (Unit {0}) × Shelf
composed k none s = (fails (failure "no object"), s)
composed k (some b) s = (done tt, λ j. if str_eq j k then some b else s j)

abbrev pub is_there : Option (List ℕ) → Bool
is_there none = false
is_there (some b) = true

abbrev pub shelf : ObjectStore
shelf = record {
  State = Shelf;
  bucket = "files";
  put_object = λ k b s. (done tt, λ j. if str_eq j k then some b else s j);
  get_object = λ k s. got (s k) s;
  stat_object = λ k s. statted (s k) s;
  remove_object = λ k s. (done tt, λ j. if str_eq j k then none else s j);
  remove_prefix = λ k s. (done tt, λ j. if starts_with j k then none else s j);
  compose_object = λ k sources s. composed k (joined s sources) s;
  exists_object = λ k s. (is_there (s k), s);
}

pub got_law :
    (x : Option (List ℕ)) (s : Shelf)
    → Ends
        (λ b t. (x ≡ some b) × ((j : String) → t j ≡ s j))
        (λ t. (j : String) → t j ≡ s j)
        (got x s)
got_law none s = λ j. refl
got_law (some b) s = (refl, λ j. refl)

pub statted_law :
    (x : Option (List ℕ)) (s : Shelf)
    → Ends
        (λ n t. ((b : List ℕ) → x ≡ some b → n ≡ length b) × ((j : String) → t j ≡ s j))
        (λ t. (j : String) → t j ≡ s j)
        (statted x s)
statted_law none s = λ j. refl
statted_law (some b) s = (λ c e. ap length (some-injective _ _ e), λ j. refl)

-- an object whose key does not begin with `k` is another one
beside :
    (k : String) (b : List ℕ) (s : Shelf) (j : String)
    → starts_with j k ≡ false
    → (if str_eq j k then some b else s j) ≡ s j
beside k b s j h = elim (Bool-cases (str_eq j k)) [
  | inr e ↦ rw e refl
  | inl e ↦
      let p : j ≡ k = (eq_iff j k).0 e in
      absurd (true≢false (sym ((starts_with_iff j k).1 ("", append-nil k ∙ sym p)) ∙ h))
]

pub composed_law :
    (k : String) (x : Option (List ℕ)) (s : Shelf)
    → Ends
        (λ a t.
          ((b : List ℕ) × (x ≡ some b) × (t k ≡ some b))
          × ((j : String) → starts_with j k ≡ false → t j ≡ s j))
        (λ t. (j : String) → starts_with j k ≡ false → t j ≡ s j)
        (composed k x s)
composed_law k none s = λ j h. refl
composed_law k (some b) s = ((b, refl, rw (eq_refl k) refl), λ j h. beside k b s j h)

abbrev pub shelf_law : IsLawful shelf
shelf_law = record {
  read = λ s. s;
  put = λ k b s j. refl;
  get = λ k s. got_law (s k) s;
  stat = λ k s. statted_law (s k) s;
  compose = λ k sources s. composed_law k (joined s sources) s;
  remove = λ k s j. refl;
  prefix = λ k s j h. rw h refl;
}

got_there : (x : Option (List ℕ)) (b : List ℕ) (s : Shelf) → x ≡ some b → IsDone (got x s).0
got_there none b s e = let bad : none ≡ some b = e in cc
got_there (some a) b s e = tt

statted_there : (x : Option (List ℕ)) (b : List ℕ) (s : Shelf) → x ≡ some b → IsDone (statted x s).0
statted_there none b s e = let bad : none ≡ some b = e in cc
statted_there (some a) b s e = tt

composed_there :
    (k : String) (x : Option (List ℕ)) (b : List ℕ) (s : Shelf)
    → x ≡ some b
    → IsDone (composed k x s).0
composed_there k none b s e = let bad : none ≡ some b = e in cc
composed_there k (some a) b s e = tt

pub shelf-IsReliable : IsReliable shelf shelf_law
shelf-IsReliable = record {
  puts = λ k b s. tt;
  gets = λ k b s e. got_there (s k) b s e;
  stats = λ k b s e. statted_there (s k) b s e;
  composes = λ k sources b s e. composed_there k (joined s sources) b s e;
}
