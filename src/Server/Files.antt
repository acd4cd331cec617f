-- ===== src/Server/Files.antt =====
-- backend/internal/service/service.go: `ListFiles`, `DownloadFile`, `DeletePhysicalFile`.
use cloud_file.Base.{
  ℕ, ◌+◌, ◌==◌, Bool, not, ◌&&◌, String, List, [], ◌∷◌, map, Option, none, some, str_eq, leb, keep,
  find, length, if◌then◌else◌,
}
use cloud_file.Server.Model.{FileMeta, UserFile, no_meta}
use cloud_file.Server.Action.{Action, pure, ◌>>=◌, ◌>>◌, fold_each}
use cloud_file.Server.Storage.{ObjectStore}
use cloud_file.Server.World.{Tables, World, find_rows, first_row, change, transaction, stored}

-- a user's file with its `File`
abbrev pub Joined : Type 0
Joined = UserFile × FileMeta

abbrev pub is_file_of : ℕ → String → UserFile → Bool
is_file_of id user_id f = f.id == id && str_eq f.user_id user_id

-- the `File` of a user's file, zero where it is gone
abbrev pub or_no_meta : Option FileMeta → FileMeta
or_no_meta none = no_meta
or_no_meta (some m) = m

abbrev pub meta_of : Tables → UserFile → FileMeta
meta_of t f = or_no_meta (find (λ m. m.id == f.file_id) t.metas)

-- `ORDER BY created_at DESC`
unfoldable pub insert_file : UserFile → List UserFile → List UserFile
insert_file f [] = f ∷ []
insert_file f (g ∷ files) =
    let rest = insert_file f files in
    if leb g.created_at f.created_at then f ∷ g ∷ files else g ∷ rest

unfoldable pub sort_files : List UserFile → List UserFile
unfolding insert_file
sort_files [] = []
sort_files (f ∷ files) = insert_file f (sort_files files)

-- the answer of `DeletePhysicalFile`, without the constants
pub record Deleted : Type 0 where
  pub file_id : ℕ
  pub removed_refs : ℕ
  pub removed_objects : ℕ

-- the rows of a file, deleted
abbrev pub delete_media : ℕ → Tables → Unit {0} × Tables
delete_media file_id t =
    (tt, record t { media_tasks = keep (λ m. not (m.file_id == file_id)) t.media_tasks })

abbrev pub delete_refs : ℕ → Tables → ℕ × Tables
delete_refs file_id t = (
  length (keep (λ f. f.file_id == file_id) t.user_files),
  record t { user_files = keep (λ f. not (f.file_id == file_id)) t.user_files },
)

abbrev pub delete_meta : ℕ → Tables → Unit {0} × Tables
delete_meta file_id t = (tt, record t { metas = keep (λ m. not (m.id == file_id)) t.metas })

module _ {S : ObjectStore} where
  -- `Preload("File")`, a second query, where the first found rows
  unfoldable pub preload_files : List UserFile → Action (World S) (List Joined)
  unfolding find_rows
  preload_files [] = pure []
  preload_files (f ∷ files) = find_rows (λ t. map (λ g. (g, meta_of t g)) (f ∷ files))

  unfoldable pub list_files : String → Action (World S) (List Joined)
  unfolding find_rows sort_files preload_files
  list_files user_id = do
    files ← find_rows (λ t. sort_files (keep (λ f. str_eq f.user_id user_id) t.user_files))
    preload_files files

  unfoldable pub file_for_user : ℕ → String → Action (World S) Joined
  unfolding first_row
  file_for_user id user_id = do
    file ← first_row (λ t. find (is_file_of id user_id) t.user_files)
    meta ← first_row (λ t. some (meta_of t file))
    pure (file, meta)

  unfoldable pub download_file : String → ℕ → Action (World S) (UserFile × List ℕ)
  unfolding file_for_user stored
  download_file user_id id = do
    file ← file_for_user id user_id
    bytes ← stored {S = S} (S.get_object file.1.object_key)
    pure (file.0, bytes)

  -- an object whose key may be empty, and then is none, counted
  unfoldable pub remove_counted : String → ℕ → Action (World S) ℕ
  unfolding stored
  remove_counted key n =
      if str_eq key "" then pure n else (stored {S = S} (S.remove_object key) >> pure (n + 1))

  unfoldable pub delete_rows : ℕ → Action (World S) ℕ
  unfolding change
  delete_rows file_id = do
    change (delete_media file_id)
    refs ← change (delete_refs file_id)
    change (delete_meta file_id)
    pure refs

  unfoldable pub delete_physical_file : String → ℕ → Action (World S) Deleted
  unfolding file_for_user find_rows remove_counted delete_rows transaction
  delete_physical_file user_id user_file_id = do
    file ← file_for_user user_file_id user_id
    tasks ← find_rows (λ t. keep (λ m. m.file_id == file.0.file_id) t.media_tasks)
    n ← remove_counted file.1.object_key 0
    removed ← fold_each tasks (λ m. remove_counted m.output_object_key) n
    refs ← transaction (delete_rows file.0.file_id)
    pure (record { file_id = file.0.file_id; removed_refs = refs; removed_objects = removed })
