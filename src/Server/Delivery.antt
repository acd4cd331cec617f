-- ===== src/Server/Delivery.antt =====
-- A whole upload, as the console of frontend/src and the service of backend/internal make it together:
-- announced, sent slice by slice, and merged.
pub mod Rows
pub mod Sending
pub mod Taken
pub mod Composed
pub mod Ready
pub mod Merging
pub mod Claiming
pub mod Opening
pub mod Delivered
use cloud_file.Base.{
  ℕ, zero, suc, ◌<◌, ◌≤◌, ◌≡◌, Bool, false, String, List, Option, none, some, find, any, length,
}
use cloud_file.Base.Int.{pos}
use cloud_file.Api.{slice_of, chunk_count_of}
use cloud_file.Server.Model.{UploadStatus, UploadTask}
use cloud_file.Server.Action.{Action, done, ◌>>=◌, ◌>>◌, pure}
use cloud_file.Server.Storage.{ObjectStore, IsLawful}
use cloud_file.Server.World.{Config, Tables, World}
use cloud_file.Server.Keys.{part_key}
use cloud_file.Server.Rows.{InitRequest, InitAnswer, instant, to_upload, is_upload_of, is_chunk_of}
use cloud_file.Server.Uploads.{init_upload, upload_chunk}
use cloud_file.Server.Merge.{Merged, merge_upload}
use cloud_file.Server.Tables.{IsConsistent}

-- What the console announces of a file: its size, its hash, and how many chunks it is cut into.
pub record IsHonest (sha256_hex : List ℕ → String) (bytes : List ℕ) (req : InitRequest)
    : Type 0 where
  pub not_empty : 0 < length bytes
  pub chunked : 0 < req.chunk_size
  pub size : req.file_size ≡ length bytes
  pub count : req.chunk_count ≡ chunk_count_of req.chunk_size (length bytes)
  pub hash : req.file_hash ≡ sha256_hex bytes

-- the upload of the request, with its first `n` chunks sent
pub record IsSent (req : InitRequest) (id n : ℕ) (task : UploadTask) : Type 0 where
  pub id_of : task.id ≡ id
  pub open_still : task.status ≡ UploadStatus.uploading
  pub counted : task.uploaded_count ≡ n
  pub size : task.chunk_size ≡ req.chunk_size
  pub count : task.chunk_count ≡ req.chunk_count
  pub file_size : task.file_size ≡ req.file_size
  pub hash : task.file_hash ≡ req.file_hash

-- the row counts `n` chunks, and no chunk from `k` on is known
pub record Sent (req : InitRequest) (id n k : ℕ) (t : Tables) : Type 0 where
  pub task : UploadTask
  pub row : find (is_upload_of id req.user_id) t.uploads ≡ some task
  pub sent : IsSent req id n task
  pub fresh : (i : ℕ) → k ≤ i → any (is_chunk_of id i) t.chunks ≡ false

-- the store holds the first `n` slices
abbrev pub Parts : {S : ObjectStore} → IsLawful S → InitRequest → List ℕ → ℕ → ℕ → S.State → Type 0
Parts law req bytes id n s =
    (i : ℕ)
    → i < n
    → law.read s (part_key id i) ≡ some (slice_of req.chunk_size (length bytes) bytes i)

module _ {S : ObjectStore} (c : Config) (sha256_hex : List ℕ → String) where
  -- the slice of that index, with no hash of its own, as `uploadChunk` of frontend/src/mockApi.ts sends it
  unfoldable pub send_slice : InitRequest → List ℕ → ℕ → ℕ → Action (World S) (UploadTask × Bool)
  unfolding upload_chunk slice_of
  send_slice req bytes id i =
      upload_chunk sha256_hex id req.user_id (pos i) ""
        (done (slice_of req.chunk_size (length bytes) bytes i))

  -- the slices from `i` on
  unfoldable pub send_slices : InitRequest → List ℕ → ℕ → ℕ → ℕ → Action (World S) (Unit {0})
  unfolding send_slice ◌>>◌ ◌>>=◌ pure
  send_slices req bytes id i zero = pure tt
  send_slices req bytes id i (suc n) =
      send_slice req bytes id i >> send_slices req bytes id (suc i) n

  -- the slices and the merge; the service may have the file already
  unfoldable pub deliver : InitRequest → List ℕ → InitAnswer → Action (World S) (Option Merged)
  unfolding send_slices merge_upload ◌>>◌ ◌>>=◌ pure
  deliver req bytes (instant meta_id file_id) = pure none
  deliver req bytes (to_upload id) =
      send_slices req bytes id 0 req.chunk_count
      >> merge_upload c sha256_hex id req.user_id
      >>= λ m. pure (some m)

  unfoldable pub deliver_file : InitRequest → List ℕ → Action (World S) (Option Merged)
  unfolding init_upload deliver ◌>>=◌
  deliver_file req bytes = init_upload req >>= deliver req bytes
