-- ===== src/FileView/Order.antt =====
-- The order of the file list: it is sorted, stable, and a rearrangement of the matching files.
use mathlib.Core.List.{Perm}
use mathlib.Core.List.Perm
use cloud_file.Base.{
  ◌≡◌, ◌≤◌, ◌↔◌, subst, keep, Bool, true, false, String, List, [], ◌∷◌, All, Bool-cases, inl, inr,
  arith,
}
use cloud_file.Types.{FileItem}
use cloud_file.FileView.{
  SortKey, time_desc, time_asc, size_desc, size_asc, goes_before, insert, sort, matching, filtered,
}
use cloud_file.FileView.Wanted.{IsWanted, matching-wanted}

-- Each file goes before every later one.
abbrev IsSorted : SortKey → List FileItem → Type 0
IsSorted key [] = Unit
IsSorted key (a ∷ xs) = All (λ b. goes_before key a b ≡ true) xs × IsSorted key xs

goes_before_trans :
    (key : SortKey) (a b c : FileItem)
    → goes_before key a b ≡ true
    → goes_before key b c ≡ true
    → goes_before key a c ≡ true
unfolding goes_before
goes_before_trans time_desc a b c h k = ground arith
goes_before_trans time_asc a b c h k = ground arith
goes_before_trans size_desc a b c h k = ground arith
goes_before_trans size_asc a b c h k = ground arith

goes_before_total :
    (key : SortKey) (a b : FileItem) → goes_before key a b ≡ false → goes_before key b a ≡ true
unfolding goes_before
goes_before_total time_desc a b h = ground arith
goes_before_total time_asc a b h = ground arith
goes_before_total size_desc a b h = ground arith
goes_before_total size_asc a b h = ground arith

before-All :
    (key : SortKey) (a b : FileItem) (cs : List FileItem)
    → goes_before key a b ≡ true
    → All (λ c. goes_before key b c ≡ true) cs
    → All (λ c. goes_before key a c ≡ true) cs
before-All key a b [] h k = tt
before-All key a b (c ∷ cs) h (k, ks) =
    (goes_before_trans key a b c h k, before-All key a b cs h ks)

All-insert :
    (P : FileItem → Type 0) (key : SortKey) (a : FileItem) (bs : List FileItem)
    → P a
    → All P bs
    → All P (insert key a bs)
unfolding insert
All-insert P key a [] h hs = (h, tt)
All-insert P key a (b ∷ bs) h (k, ks) = elim (Bool-cases (goes_before key a b)) [
  | inl e ↦ rw e (h, (k, ks))
  | inr e ↦ rw e (k, All-insert P key a bs h ks)
]

insert-IsSorted :
    (key : SortKey) (a : FileItem) (bs : List FileItem)
    → IsSorted key bs
    → IsSorted key (insert key a bs)
unfolding insert
insert-IsSorted key a [] h = (tt, tt)
insert-IsSorted key a (b ∷ bs) (h, hs) = elim (Bool-cases (goes_before key a b)) [
  | inl e ↦ rw e ((e, before-All key a b bs e h), (h, hs))
  | inr e ↦
      rw e (All-insert _ key a bs (goes_before_total key a b e) h, insert-IsSorted key a bs hs)
]

sort-IsSorted : (key : SortKey) (xs : List FileItem) → IsSorted key (sort key xs)
unfolding sort
sort-IsSorted key [] = tt
sort-IsSorted key (a ∷ xs) = insert-IsSorted key a (sort key xs) (sort-IsSorted key xs)

insert-perm : (key : SortKey) (a : FileItem) (bs : List FileItem) → Perm (insert key a bs) (a ∷ bs)
unfolding insert
insert-perm key a [] = Perm.refl _
insert-perm key a (b ∷ bs) = elim (Bool-cases (goes_before key a b)) [
  | inl e ↦ rw e (Perm.refl _)
  | inr e ↦ rw e (Perm.trans (Perm.cons b (insert-perm key a bs)) (Perm.swap a b bs))
]

sort-perm : (key : SortKey) (xs : List FileItem) → Perm (sort key xs) xs
unfolding sort
sort-perm key [] = Perm.refl _
sort-perm key (a ∷ xs) =
    Perm.trans (insert-perm key a (sort key xs)) (Perm.cons a (sort-perm key xs))

-- what each sort key says of two files, of which the first is shown before the second
abbrev pub IsBefore : SortKey → FileItem → FileItem → Type 0
IsBefore time_desc a b = b.uploaded_at ≤ a.uploaded_at
IsBefore time_asc a b = a.uploaded_at ≤ b.uploaded_at
IsBefore size_desc a b = b.size ≤ a.size
IsBefore size_asc a b = a.size ≤ b.size

abbrev pub IsOrdered : SortKey → List FileItem → Type 0
IsOrdered key [] = Unit
IsOrdered key (a ∷ xs) = All (IsBefore key a) xs × IsOrdered key xs

goes_before-IsBefore :
    (key : SortKey) (a b : FileItem) → goes_before key a b ≡ true → IsBefore key a b
unfolding goes_before
goes_before-IsBefore time_desc a b h = ground arith
goes_before-IsBefore time_asc a b h = ground arith
goes_before-IsBefore size_desc a b h = ground arith
goes_before-IsBefore size_asc a b h = ground arith

All-IsBefore :
    (key : SortKey) (a : FileItem) (xs : List FileItem)
    → All (λ b. goes_before key a b ≡ true) xs
    → All (IsBefore key a) xs
All-IsBefore key a [] h = tt
All-IsBefore key a (b ∷ xs) (h, hs) = (goes_before-IsBefore key a b h, All-IsBefore key a xs hs)

IsSorted-IsOrdered : (key : SortKey) (xs : List FileItem) → IsSorted key xs → IsOrdered key xs
IsSorted-IsOrdered key [] h = tt
IsSorted-IsOrdered key (a ∷ xs) (h, hs) = (All-IsBefore key a xs h, IsSorted-IsOrdered key xs hs)

-- For any test of what the filters want: the list shows the files of `files` that pass it, each as often
-- as it is there, and no others; by `time-desc` none is shown after one uploaded earlier, by `time-asc`
-- none after one uploaded later, by `size-desc` none after a smaller one, by `size-asc` none after a
-- larger one.
pub filtered-IsOrdered :
    (lower : String → String) (query type_filter status_filter : String) (key : SortKey)
    (files : List FileItem) (wanted : FileItem → Bool)
    → ((f : FileItem) → (wanted f ≡ true) ↔ IsWanted lower query type_filter status_filter f)
    → let shown = filtered lower query type_filter status_filter key files in
      IsOrdered key shown × Perm shown (keep wanted files)
unfolding filtered
filtered-IsOrdered lower query type_filter status_filter key files wanted h =
    let found = matching lower query type_filter status_filter files in
    (
      IsSorted-IsOrdered key (sort key found) (sort-IsSorted key found),
      subst (Perm (sort key found))
          (matching-wanted lower query type_filter status_filter wanted files h)
          (sort-perm key found),
    )
