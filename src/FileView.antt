-- ===== src/FileView.antt =====
-- components/FileList.tsx: the files that the list shows, filtered and sorted. `lower` is
-- `String.prototype.toLowerCase`.
pub mod Wanted
pub mod Order
pub mod Stability
use text.Mathlib.Text.{starts_with, find?}
use cloud_file.Base.{
  ℕ, Bool, true, false, ◌||◌, ◌≤◌, leb, String, List, [], ◌∷◌, Option, none, some, keep, str_eq,
  if◌then◌else◌,
}
use cloud_file.Types.{FileItem}
use cloud_file.Card.{status_value}

pub data SortKey : Type 0 where
  time_desc time_asc size_desc size_asc : SortKey

-- `String.prototype.includes`
unfoldable pub includes : String → String → Bool
includes text part = elim (find? text part) [ none ↦ false | some _ ↦ true ]

unfoldable pub matches_query : (String → String) → String → FileItem → Bool
unfolding includes
matches_query lower query file = includes (lower file.name) (lower query)

unfoldable pub matches_type : String → FileItem → Bool
matches_type filter file = str_eq filter "all" || starts_with file.file_type filter

unfoldable pub matches_status : String → FileItem → Bool
unfolding status_value
matches_status filter file = str_eq filter "all" || str_eq (status_value file.status) filter

-- The comparison answers 0 or less: the sort, which is stable, leaves `a` before `b`.
unfoldable pub goes_before : SortKey → FileItem → FileItem → Bool
goes_before time_desc a b = leb b.uploaded_at a.uploaded_at
goes_before time_asc a b = leb a.uploaded_at b.uploaded_at
goes_before size_desc a b = leb b.size a.size
goes_before size_asc a b = leb a.size b.size

unfoldable pub insert : SortKey → FileItem → List FileItem → List FileItem
unfolding goes_before
insert key a [] = a ∷ []
insert key a (b ∷ bs) =
    let rest = insert key a bs in if goes_before key a b then a ∷ b ∷ bs else b ∷ rest

-- `Array.prototype.sort`
unfoldable pub sort : SortKey → List FileItem → List FileItem
unfolding insert
sort key [] = []
sort key (a ∷ xs) = insert key a (sort key xs)

unfoldable pub matching :
    (String → String) → String → String → String → List FileItem → List FileItem
unfolding matches_query matches_type matches_status
matching lower query type_filter status_filter files =
    keep (matches_status status_filter)
      (keep (matches_type type_filter) (keep (matches_query lower query) files))

unfoldable pub filtered :
    (String → String) → String → String → String → SortKey → List FileItem → List FileItem
unfolding matching sort
filtered lower query type_filter status_filter key files =
    sort key (matching lower query type_filter status_filter files)
