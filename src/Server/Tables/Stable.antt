-- ===== src/Server/Tables/Stable.antt =====
-- What the rows must be kept by, for every request of backend/internal/http/router.go to keep them but those
-- that open an upload or send a chunk: the changes of the other rows, and of the state of uploads.
use cloud_file.Base.{◌≤◌, ◌≡◌, Bool}
use cloud_file.Server.Model.{UploadTask}
use cloud_file.Server.World.{Tables, change_rows}

-- `grow`: neither uploads nor chunks change, and ids may be given. `update`: uploads change, but neither
-- their ids, their users, their sizes nor their counts.
pub record IsStable (T : Tables → Type 0) : Type 0 where
  pub grow :
      (t t' : Tables)
      → t'.uploads ≡ t.uploads
      → t'.chunks ≡ t.chunks
      → t.next_id ≤ t'.next_id
      → T t
      → T t'
  pub update :
      (t : Tables) (test : UploadTask → Bool) (f : UploadTask → UploadTask)
      → ((u : UploadTask) → (f u).id ≡ u.id)
      → ((u : UploadTask) → (f u).user_id ≡ u.user_id)
      → ((u : UploadTask) → (f u).uploaded_count ≡ u.uploaded_count)
      → ((u : UploadTask) → (f u).chunk_size ≡ u.chunk_size)
      → ((u : UploadTask) → (f u).chunk_count ≡ u.chunk_count)
      → T t
      → T (record t { uploads = change_rows test f t.uploads })
