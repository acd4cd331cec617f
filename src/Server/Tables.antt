-- ===== src/Server/Tables.antt =====
-- The rows of backend/internal/model/models.go as the service keeps them: what an upload's chunk rows
-- have to do with its counter.
pub mod Rows
pub mod Stable
pub mod Steps
pub mod Announced
pub mod Chunks
pub mod Merges
pub mod Handled
pub mod Requests
use cloud_file.Base.{
  ℕ, suc, ◌+◌, ◌==◌, ◌<◌, Bool, true, false, List, [], ◌∷◌, ◌++◌, map, any, keep, length, All, ltb,
  String, ◌≡◌, ◌⊎◌, if◌then◌else◌,
}
use cloud_file.Server.Model.{UploadTask, UploadChunk, is_uploaded}
use cloud_file.Server.World.{Tables}
use cloud_file.Server.Keys.{part_key}
use cloud_file.Server.Rows.{is_uploaded_of}

abbrev pub Distinct : List ℕ → Type 0
Distinct [] = Unit
Distinct (i ∷ is) = (any (λ j. j == i) is ≡ false) × Distinct is

abbrev pub indexes : List UploadChunk → List ℕ
indexes rows = map (λ r. r.chunk_index) rows

-- the uploaded chunks of the upload, in the order of the table
abbrev pub own : UploadTask → List UploadChunk → List UploadChunk
own u rows = keep (is_uploaded_of u.id) rows

-- The counter is the number of the upload's uploaded chunks; these are of its range, no two of the
-- same index, and each says where its bytes are.
pub record IsCounted (id count chunk_count : ℕ) (rows : List UploadChunk) : Type 0 where
  pub counted : count ≡ length rows
  pub ranged : All (λ r. ltb r.chunk_index chunk_count ≡ true) rows
  pub placed : All (λ r. r.object_key ≡ part_key id r.chunk_index) rows
  pub distinct : Distinct (indexes rows)

-- Every upload is so counted, every chunk row is an uploaded one of an upload created before, and
-- no id is given twice. `count` is what the counter is to be.
pub record Agrees (count : UploadTask → ℕ) (t : Tables) : Type 0 where
  pub uploads : All (λ u. IsCounted u.id (count u) u.chunk_count (own u t.chunks)) t.uploads
  pub chunks : All (λ r. is_uploaded r.status ≡ true) t.chunks
  pub old_chunks : All (λ r. r.upload_id < t.next_id) t.chunks
  pub old_uploads : All (λ u. u.id < t.next_id) t.uploads
  pub distinct_uploads : Distinct (map (λ u. u.id) t.uploads)

abbrev pub IsConsistent : Tables → Type 0
IsConsistent t = Agrees (λ u. u.uploaded_count) t

-- the counters while the chunk of one upload is added and not yet counted
abbrev pub counted_more : ℕ → UploadTask → ℕ
counted_more id u = if u.id == id then u.uploaded_count + 1 else u.uploaded_count

-- The uploads of the id, which was given, have that many chunks.
pub record Announces (id chunk_count : ℕ) (t : Tables) : Type 0 where
  pub announced : All (λ u. (u.chunk_count ≡ chunk_count) ⊎ ((u.id == id) ≡ false)) t.uploads
  pub given : id < t.next_id
