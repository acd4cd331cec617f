-- ===== src/Server/Merge/Found.antt =====
-- backend/internal/service/service.go: the file that `MergeUpload` finds, and its key.
use text.Mathlib.Text.{starts_with}
use text.Mathlib.TextEquality.{starts_with_iff}
use text.Mathlib.TextBridge.{IsPrefix}
use Prim.Native.Char.{Char, code}
use Prim.Native.String.append
use Prim.Native.String.{[] as nil, ◌∷◌ as ◌:::◌, ◌++◌ as str_append}
use text.Mathlib.TextLemmas.{append_assoc}
use cloud_file.Text.{decimal}
use mathlib.Core.Bool.{true≢false}
use mathlib.Core.Option.{some-injective}
use cloud_file.Base.{
  ℕ, ◌==◌, ◌≡◌, sym, subst, ap, ◌∙◌, inl, inr, Bool, true, false, String, List, [], ◌∷◌, some,
  str_eq, eq_iff, ==_iff, find, Bool-cases,
}
use cloud_file.Server.Model.{UploadTask, FileMeta}
use cloud_file.Server.Action.{Action}
use cloud_file.Server.Action.Rules.{Ensures}
use cloud_file.Server.Keys.{final_object_key, temp_prefix}
use cloud_file.Server.Rows.{is_same_file}

-- what the row of a file says of an upload
pub record IsFileOf (task : UploadTask) (meta : FileMeta) : Type 0 where
  pub hash : meta.file_hash ≡ task.file_hash
  pub size : meta.file_size ≡ task.file_size

pub same_file :
    (task : UploadTask) (m : FileMeta)
    → is_same_file task.file_hash task.file_size m ≡ true
    → IsFileOf task m
same_file task m e = elim (Bool-cases (str_eq m.file_hash task.file_hash)) [
  | inl f ↦ record {
    hash = (eq_iff m.file_hash task.file_hash).0 f;
    size = (==_iff m.file_size task.file_size).0 (rw f at e);
  }
  | inr f ↦ absurd (true≢false (sym (rw f at e)))
]

pub found_file :
    (task : UploadTask) (metas : List FileMeta) (meta : FileMeta)
    → find (is_same_file task.file_hash task.file_size) metas ≡ some meta
    → IsFileOf task meta
found_file task [] meta e = cc
found_file task (m ∷ metas) meta e =
    elim (Bool-cases (is_same_file task.file_hash task.file_size m)) [
      | inl f ↦ subst (IsFileOf task) (some-injective _ _ (rw f at e)) (same_file task m f)
      | inr f ↦ found_file task metas meta (rw f at e)
    ]

-- a fact that the state has no part in
pub with_fact :
    {W A : Type 0} {P E : W → Type 0} {F : Type 0} {Q : A → W → Type 0} {m : Action W A}
    → (F → Ensures P m Q E)
    → Ensures (λ w. P w × F) m Q E
with_fact h = record { from = λ w p. (h p.1).from w p.0 }

-- whether the first letter is that of `files/`
of_files : String → Bool
of_files nil = false
of_files (c ::: s) = code c == b'f'

of_files-append : (c : Char) (s t : String) → of_files (str_append (c ::: s) t) ≡ (code c == b'f')
unfolding of_files
of_files-append c s t = rw (append.cons c s t)

of_temp : (t u : String) → of_files (str_append (str_append "temp/" t) u) ≡ false
of_temp t u = rw (append_assoc "temp/" t u) (of_files-append "t" "emp/" (str_append t u))

-- the objects that begin with the prefix of the parts do not hold the file
pub final_key-apart :
    (task : UploadTask) (id : ℕ) → starts_with (final_object_key task) (temp_prefix id) ≡ false
unfolding final_object_key temp_prefix
final_key-apart task id = elim (Bool-cases (starts_with (final_object_key task) (temp_prefix id))) [
  | inr e ↦ e
  | inl e ↦
      let h : IsPrefix (temp_prefix id) (final_object_key task) = (starts_with_iff _ _).0 e in
      absurd (
        true≢false
          (sym (of_files-append "f" "iles/" _) ∙ sym (ap of_files h.1) ∙ of_temp (decimal id) h.0))
]
