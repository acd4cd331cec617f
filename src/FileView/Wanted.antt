-- ===== src/FileView/Wanted.antt =====
-- frontend/src/components/FileList.tsx: which files the filters of the list want.
use text.Mathlib.Text.{find?, starts_with}
use text.Mathlib.TextBridge.{IsPrefix}
use text.Mathlib.TextEquality.{starts_with_iff}
use mathlib.Core.Bool.{and-eq-true_iff, true≢false}
use cloud_file.Base.{
  ◌≡◌, ◌≢◌, ◌↔◌, ◌⊎◌, refl, sym, ◌∙◌, Bool, true, false, ◌&&◌, ◌||◌, String, List, [], ◌∷◌, Option,
  none, some, keep, str_eq, eq_iff, Bool-cases, inl, inr,
}
use cloud_file.Types.{FileItem}
use cloud_file.Card.{status_value}
use cloud_file.FileView.{includes, matches_query, matches_type, matches_status, matching}

-- the name has the query in it, whatever the case, and the type and the status are those asked for
pub record IsWanted (lower : String → String) (query type_filter status_filter : String)
    (file : FileItem) : Type 0 where
  pub name : find? (lower file.name) (lower query) ≢ none
  pub kind : (type_filter ≡ "all") ⊎ IsPrefix type_filter file.file_type
  pub status : (status_filter ≡ "all") ⊎ (status_value file.status ≡ status_filter)

some_iff :
    {A : Type 0} → (o : Option A) → ((elim o [ none ↦ false | some _ ↦ true ]) ≡ true) ↔ (o ≢ none)
some_iff none = (λ h. absurd (true≢false (sym h)), λ h. absurd (h refl))
some_iff (some a) = (λ h e. cc, λ h. refl)

or_iff : {P Q : Type 0} (b c : Bool) → (b ≡ true) ↔ P → (c ≡ true) ↔ Q → ((b || c) ≡ true) ↔ (P ⊎ Q)
or_iff true c p q = (λ h. inl (p.0 refl), λ h. refl)
or_iff false c p q =
    (λ h. inr (q.0 h), λ h. elim h [ inl x ↦ absurd (true≢false (sym (p.1 x))) | inr y ↦ q.1 y ])

same_test : (b c : Bool) → (b ≡ true → c ≡ true) → (c ≡ true → b ≡ true) → b ≡ c
same_test true c h k = sym (h refl)
same_test false false h k = refl
same_test false true h k = k refl

keep-same :
    {A : Type 0} (p q : A → Bool) (xs : List A) → ((x : A) → p x ≡ q x) → keep p xs ≡ keep q xs
keep-same p q [] h = refl
keep-same p q (x ∷ xs) h = rw (h x, keep-same p q xs h) refl

keep-thrice :
    {A : Type 0} (p q r : A → Bool) (xs : List A)
    → keep r (keep q (keep p xs)) ≡ keep (λ x. p x && (q x && r x)) xs
keep-thrice p q r [] = refl
keep-thrice p q r (x ∷ xs) = elim (Bool-cases (p x)) [
  | inr e ↦ rw (e, keep-thrice p q r xs) refl
  | inl e ↦ elim (Bool-cases (q x)) [
    | inr f ↦ rw (e, f, keep-thrice p q r xs) refl
    | inl f ↦ rw (e, f, keep-thrice p q r xs) refl
  ]
]

module _ (lower : String → String) (query type_filter status_filter : String) where
  query_iff :
      (f : FileItem)
      → (matches_query lower query f ≡ true) ↔ (find? (lower f.name) (lower query) ≢ none)
  unfolding matches_query includes
  query_iff f = some_iff (find? (lower f.name) (lower query))

  type_iff :
      (f : FileItem)
      → (matches_type type_filter f ≡ true)
        ↔ ((type_filter ≡ "all") ⊎ IsPrefix type_filter f.file_type)
  unfolding matches_type
  type_iff f =
      or_iff (str_eq type_filter "all") (starts_with f.file_type type_filter)
        (eq_iff type_filter "all") (starts_with_iff f.file_type type_filter)

  status_iff :
      (f : FileItem)
      → (matches_status status_filter f ≡ true)
        ↔ ((status_filter ≡ "all") ⊎ (status_value f.status ≡ status_filter))
  unfolding matches_status
  status_iff f =
      or_iff (str_eq status_filter "all") (str_eq (status_value f.status) status_filter)
        (eq_iff status_filter "all") (eq_iff (status_value f.status) status_filter)

  -- all three tests
  abbrev pub matches : FileItem → Bool
  matches f =
      matches_query lower query f && (matches_type type_filter f && matches_status status_filter f)

  pub matches_iff :
      (f : FileItem) → (matches f ≡ true) ↔ IsWanted lower query type_filter status_filter f
  matches_iff f = (
    λ h.
        let both = (and-eq-true_iff _ _).0 h in
        let rest = (and-eq-true_iff _ _).0 both.1 in
        record {
          name = (query_iff f).0 both.0;
          kind = (type_iff f).0 rest.0;
          status = (status_iff f).0 rest.1;
        },
    λ h. (and-eq-true_iff _ _).1 (
      (query_iff f).1 h.name,
      (and-eq-true_iff _ _).1 ((type_iff f).1 h.kind, (status_iff f).1 h.status),
    ),
  )

  pub matching-keep :
      (files : List FileItem)
      → matching lower query type_filter status_filter files ≡ keep matches files
  unfolding matching
  matching-keep files =
      keep-thrice (matches_query lower query) (matches_type type_filter)
        (matches_status status_filter) files

  -- any other test of what is wanted
  pub matching-wanted :
      (wanted : FileItem → Bool) (files : List FileItem)
      → ((f : FileItem) → (wanted f ≡ true) ↔ IsWanted lower query type_filter status_filter f)
      → matching lower query type_filter status_filter files ≡ keep wanted files
  matching-wanted wanted files h =
      matching-keep files
      ∙ keep-same matches wanted files (λ f.
        same_test (matches f) (wanted f) (λ e. (h f).1 ((matches_iff f).0 e))
          (λ e. (matches_iff f).1 ((h f).0 e)))
