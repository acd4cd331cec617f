-- ===== src/FileView/Stability.antt =====
-- Files that the sort key does not tell apart stay in their order.
use cloud_file.Base.{
  ℕ, ◌==◌, ◌≡◌, ◌↔◌, refl, ◌∙◌, ap, Bool, true, String, List, [], ◌∷◌, keep, Bool-cases, inl, inr,
  arith, if◌then◌else◌,
}
use cloud_file.Types.{FileItem}
use cloud_file.FileView.{
  SortKey, time_desc, time_asc, size_desc, size_asc, goes_before, insert, sort, matching, filtered,
}
use cloud_file.FileView.Wanted.{IsWanted, matching-wanted}

-- what the key compares
abbrev pub compared : SortKey → FileItem → ℕ
compared time_desc f = f.uploaded_at
compared time_asc f = f.uploaded_at
compared size_desc f = f.size
compared size_asc f = f.size

ties-goes_before :
    (key : SortKey) (v : ℕ) (a b : FileItem)
    → (compared key a == v) ≡ true
    → (compared key b == v) ≡ true
    → goes_before key a b ≡ true
unfolding goes_before
ties-goes_before time_desc v a b h k = ground arith
ties-goes_before time_asc v a b h k = ground arith
ties-goes_before size_desc v a b h k = ground arith
ties-goes_before size_asc v a b h k = ground arith

keep-insert :
    (key : SortKey) (v : ℕ) (x : FileItem) (ys : List FileItem)
    → keep (λ f. compared key f == v) (insert key x ys) ≡ keep (λ f. compared key f == v) (x ∷ ys)
unfolding insert
keep-insert key v x [] = refl
keep-insert key v x (y ∷ ys) =
    let rest = keep-insert key v x ys in
    elim (Bool-cases (goes_before key x y)) [
      | inl before ↦ rw before refl
      | inr after ↦ rw after (elim (Bool-cases (compared key x == v)) [
        | inr other ↦ rw other (rw rest (rw other refl))
        | inl tied ↦ elim (Bool-cases (compared key y == v)) [
          | inl both ↦ let clash = ties-goes_before key v x y tied both in cc
          | inr other ↦ rw other (rw tied (rw rest (rw tied refl)))
        ]
      ])
    ]

keep-sort :
    (key : SortKey) (v : ℕ) (xs : List FileItem)
    → keep (λ f. compared key f == v) (sort key xs) ≡ keep (λ f. compared key f == v) xs
unfolding sort
keep-sort key v [] = refl
keep-sort key v (x ∷ xs) =
    keep-insert key v x (sort key xs)
    ∙ ap (λ zs. if compared key x == v then x ∷ zs else zs) (keep-sort key v xs)

-- For any test of what the filters want, and any time of upload or size: of the files that pass the test,
-- those of that time, where the key is a time, or of that size, where it is a size, are shown in the
-- order in which `files` has them, each as often as it is there.
pub filtered-ties :
    (lower : String → String) (query type_filter status_filter : String) (key : SortKey)
    (files : List FileItem) (v : ℕ) (wanted : FileItem → Bool)
    → ((f : FileItem) → (wanted f ≡ true) ↔ IsWanted lower query type_filter status_filter f)
    → keep (λ f. compared key f == v) (filtered lower query type_filter status_filter key files)
      ≡ keep (λ f. compared key f == v) (keep wanted files)
unfolding filtered
filtered-ties lower query type_filter status_filter key files v wanted h =
    keep-sort key v (matching lower query type_filter status_filter files)
    ∙ ap (keep (λ f. compared key f == v))
        (matching-wanted lower query type_filter status_filter wanted files h)
