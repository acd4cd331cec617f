-- ===== src/Server/FileName.antt =====
-- backend/internal/service/service.go, `safeFileName`: the part of an object's key that comes from the
-- user. `regexp` and `strings.Trim` are written out for the one pattern and the one set of characters.
use Prim.Native.String.{[] as nil, ◌∷◌ as ◌:::◌}
use Prim.Native.Char.{Char, code}
use cloud_file.Base.{
  ℕ, ◌≡◌, refl, inl, inr, Bool, true, false, not, ◌≢◌, ◌&&◌, ◌||◌, String, ◌==◌, leb, str_eq,
  eq_iff, if◌then◌else◌, Bool-cases, arith,
}

abbrev within : ℕ → ℕ → ℕ → Bool
within low high n = leb low n && leb n high

-- `[A-Za-z0-9._-]`
unfoldable pub is_allowed : Char → Bool
is_allowed c =
    within b'A' b'Z' (code c)
    || within b'a' b'z' (code c)
    || within b'0' b'9' (code c)
    || code c == b'.'
    || code c == b'_'
    || code c == b'-'

-- `._`
unfoldable pub is_trimmed : Char → Bool
is_trimmed c = code c == b'.' || code c == b'_'

abbrev underscore : Char
underscore = "_"

-- each run of characters that are not allowed becomes one `_`; the flag says that a run has begun
replace_runs : Bool → String → String
unfolding is_allowed
replace_runs in_run nil = nil
replace_runs in_run (c ::: s) =
    let rest = replace_runs (not (is_allowed c)) s in
    if is_allowed c then c ::: rest else if in_run then rest else underscore ::: rest

trim_left : String → String
unfolding is_trimmed
trim_left nil = nil
trim_left (c ::: s) = let rest = trim_left s in if is_trimmed c then rest else c ::: s

trim_right : String → String
unfolding is_trimmed
trim_right nil = nil
trim_right (c ::: s) =
    let rest = trim_right s in if is_trimmed c && str_eq rest "" then nil else c ::: rest

unfoldable pub safe_file_name : String → String
unfolding replace_runs trim_left trim_right
safe_file_name name =
    let safe = trim_right (trim_left (replace_runs false name)) in
    if str_eq safe "" then "file" else safe

abbrev pub AllChars : (Char → Type 0) → String → Type 0
AllChars P nil = Unit
AllChars P (c ::: s) = P c × AllChars P s

abbrev pub StartsClean : String → Type 0
StartsClean nil = Unit
StartsClean (c ::: s) = is_trimmed c ≡ false

abbrev pub EndsClean : String → Type 0
EndsClean nil = Unit
EndsClean (c ::: nil) = is_trimmed c ≡ false
EndsClean (c ::: s) = EndsClean s

-- A name that is a single step of a path and no special one: not empty, of the allowed characters
-- only, and with no dot or underscore at either end.
pub record IsSafe (s : String) : Type 0 where
  pub allowed : AllChars (λ c. is_allowed c ≡ true) s
  pub not_empty : s ≢ ""
  pub starts : StartsClean s
  pub ends : EndsClean s

abbrev Allowed : String → Type 0
Allowed = AllChars (λ c. is_allowed c ≡ true)

either-Allowed : (b : Bool) (s t : String) → Allowed s → Allowed t → Allowed (if b then s else t)
either-Allowed true s t h k = h
either-Allowed false s t h k = k

underscore-allowed : is_allowed underscore ≡ true
unfolding is_allowed
underscore-allowed = refl

replace_runs-Allowed : (in_run : Bool) (s : String) → Allowed (replace_runs in_run s)
unfolding replace_runs
replace_runs-Allowed in_run nil = tt
replace_runs-Allowed in_run (c ::: s) =
    let rest = replace_runs-Allowed (not (is_allowed c)) s in
    elim (Bool-cases (is_allowed c)) [
      | inl good ↦ rw good (good, rw good at rest)
      | inr bad ↦
          let after_run : Allowed (replace_runs true s) = rw bad at rest in
          rw bad (
            either-Allowed in_run (replace_runs true s) (underscore ::: replace_runs true s)
              after_run (underscore-allowed, after_run))
    ]

trim_left-Allowed : (s : String) → Allowed s → Allowed (trim_left s)
unfolding trim_left
trim_left-Allowed nil h = tt
trim_left-Allowed (c ::: s) h = either-Allowed (is_trimmed c) _ _ (trim_left-Allowed s h.1) h

trim_right-Allowed : (s : String) → Allowed s → Allowed (trim_right s)
unfolding trim_right
trim_right-Allowed nil h = tt
trim_right-Allowed (c ::: s) h =
    either-Allowed (is_trimmed c && str_eq (trim_right s) "") _ _ tt (h.0, trim_right-Allowed s h.1)

trim_left-StartsClean : (s : String) → StartsClean (trim_left s)
unfolding trim_left
trim_left-StartsClean nil = tt
trim_left-StartsClean (c ::: s) = elim (Bool-cases (is_trimmed c)) [
  | inl dirty ↦ rw dirty (trim_left-StartsClean s)
  | inr clean ↦ rw clean clean
]

trim_right-StartsClean : (s : String) → StartsClean s → StartsClean (trim_right s)
unfolding trim_right
trim_right-StartsClean nil h = tt
trim_right-StartsClean (c ::: s) h = rw h h

ends_after :
    (c : Char) (s : String) → EndsClean s → (s ≡ "" → is_trimmed c ≡ false) → EndsClean (c ::: s)
ends_after c nil h k = k refl
ends_after c (d ::: s) h k = h

trim_right-EndsClean : (s : String) → EndsClean (trim_right s)
unfolding trim_right
trim_right-EndsClean nil = tt
trim_right-EndsClean (c ::: s) =
    let rest = trim_right-EndsClean s in
    elim (Bool-cases (is_trimmed c && str_eq (trim_right s) "")) [
      | inl dropped ↦ rw dropped tt
      | inr kept ↦
          rw kept
            (ends_after c (trim_right s) rest (λ e. ground (arith, kept, eq_iff (trim_right s) "")))
    ]

file-IsSafe : IsSafe "file"
unfolding is_allowed is_trimmed
file-IsSafe = record {
  allowed = (refl, (refl, (refl, (refl, tt))));
  not_empty = λ e. let same : ◌≡◌ {A = Bool} false true = (eq_iff "file" "").1 e in ground arith;
  starts = refl;
  ends = refl;
}

-- Whatever name a user gives, the part of the object's key that comes from it is a single step of a
-- path: it is not empty, has letters, digits, dots, underscores and dashes only, so no slash, and
-- begins and ends with no dot and no underscore, so it is neither `.` nor `..`.
pub safe_file_name-IsSafe : (name : String) → IsSafe (safe_file_name name)
unfolding safe_file_name
safe_file_name-IsSafe name =
    let trimmed = trim_left (replace_runs false name) in
    let safe = trim_right trimmed in
    elim (Bool-cases (str_eq safe "")) [
      | inl empty ↦ rw empty file-IsSafe
      | inr full ↦ rw full (record {
        allowed =
            trim_right-Allowed trimmed
              (trim_left-Allowed (replace_runs false name) (replace_runs-Allowed false name));
        not_empty = λ e. ground (arith, full, eq_iff safe "");
        starts = trim_right-StartsClean trimmed (trim_left-StartsClean (replace_runs false name));
        ends = trim_right-EndsClean trimmed;
      })
    ]
