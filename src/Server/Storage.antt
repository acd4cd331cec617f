-- ===== src/Server/Storage.antt =====
-- backend/internal/storage/storage.go: `ObjectStore`, over an unknown state, and what its clients
-- assume of it. A call may fail, and then may have changed the state.
use cloud_file.Base.{
  ℕ, ◌≡◌, Bool, false, String, List, [], ◌∷◌, ◌++◌, Option, none, some, str_eq, length,
  if◌then◌else◌,
}
use cloud_file.Server.Action.{Outcome, done, fails, Action}
use cloud_file.Server.Action.Rules.{Ends}
use text.Mathlib.Text.{starts_with}

pub record ObjectStore : Type 1 where
  pub State : Type 0
  pub bucket : String
  pub put_object : String → List ℕ → Action State (Unit {0})
  pub get_object : String → Action State (List ℕ)
  -- `StatObject`, of which the size is read
  pub stat_object : String → Action State ℕ
  pub remove_object : String → Action State (Unit {0})
  pub remove_prefix : String → Action State (Unit {0})
  pub compose_object : String → List String → Action State (Unit {0})
  pub exists_object : String → State → Bool × State

-- The bytes of the objects, one after the other, if all are there.
unfoldable pub joined : (String → Option (List ℕ)) → List String → Option (List ℕ)
joined find [] = some []
joined find (key ∷ keys) = elim (find key) [
  | none ↦ none
  | some bytes ↦ elim (joined find keys) [ none ↦ none | some rest ↦ some (bytes ++ rest) ]
]

-- `read` is what the store holds. A call that returns does what its name says and touches no other
-- object; a call that fails touches at most the object that it was for, and one that composes at most
-- objects whose keys begin with it.
pub record IsLawful (S : ObjectStore) : Type 1 where
  pub read : S.State → String → Option (List ℕ)
  pub put :
      (k : String) (b : List ℕ) (s : S.State)
      → Ends
          (λ _ t. (j : String) → read t j ≡ (if str_eq j k then some b else read s j))
          (λ t. (j : String) → str_eq j k ≡ false → read t j ≡ read s j)
          (S.put_object k b s)
  pub get :
      (k : String) (s : S.State)
      → Ends
          (λ b t. (read s k ≡ some b) × ((j : String) → read t j ≡ read s j))
          (λ t. (j : String) → read t j ≡ read s j)
          (S.get_object k s)
  pub stat :
      (k : String) (s : S.State)
      → Ends
          (λ n t.
            ((b : List ℕ) → read s k ≡ some b → n ≡ length b)
            × ((j : String) → read t j ≡ read s j))
          (λ t. (j : String) → read t j ≡ read s j)
          (S.stat_object k s)
  pub compose :
      (k : String) (sources : List String) (s : S.State)
      → Ends
          (λ _ t.
            ((b : List ℕ) × (joined (read s) sources ≡ some b) × (read t k ≡ some b))
            × ((j : String) → starts_with j k ≡ false → read t j ≡ read s j))
          (λ t. (j : String) → starts_with j k ≡ false → read t j ≡ read s j)
          (S.compose_object k sources s)
  pub remove :
      (k : String) (s : S.State)
      → Ends
          (λ _ t. (j : String) → read t j ≡ (if str_eq j k then none else read s j))
          (λ t. (j : String) → str_eq j k ≡ false → read t j ≡ read s j)
          (S.remove_object k s)
  pub prefix :
      (k : String) (s : S.State)
      → Ends
          (λ _ t. (j : String) → starts_with j k ≡ false → read t j ≡ read s j)
          (λ t. (j : String) → starts_with j k ≡ false → read t j ≡ read s j)
          (S.remove_prefix k s)

abbrev pub IsDone : {A : Type 0} → Outcome A → Type 0
IsDone (done a) = Unit
IsDone (fails e) = ⊥

-- A store that is there: it takes what is put, gives what it holds, and composes objects that it holds.
pub record IsReliable (S : ObjectStore) (law : IsLawful S) : Type 0 where
  pub puts : (k : String) (b : List ℕ) (s : S.State) → IsDone (S.put_object k b s).0
  pub gets :
      (k : String) (b : List ℕ) (s : S.State) → law.read s k ≡ some b → IsDone (S.get_object k s).0
  pub stats :
      (k : String) (b : List ℕ) (s : S.State) → law.read s k ≡ some b → IsDone (S.stat_object k s).0
  pub composes :
      (k : String) (sources : List String) (b : List ℕ) (s : S.State)
      → joined (law.read s) sources ≡ some b
      → IsDone (S.compose_object k sources s).0
