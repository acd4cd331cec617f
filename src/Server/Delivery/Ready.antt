-- ===== src/Server/Delivery/Ready.antt =====
-- The rows of an upload all of whose chunks are there, before and after `MergeUpload` of
-- backend/internal/service/service.go claims it.
use cloud_file.Base.{
  ℕ, ◌<◌, ◌≡◌, refl, ap, sym, subst, ◌∙◌, true, String, List, map, Option, some, find, length,
  arith,
}
use cloud_file.App.Invariant.{All-find}
use cloud_file.Api.{slice_of, chunk_count_of}
use cloud_file.Server.Model.{UploadStatus, UploadTask, UploadChunk}
use cloud_file.Server.Storage.{joined}
use cloud_file.Server.World.{Tables}
use cloud_file.Server.Keys.{part_key}
use cloud_file.Server.Rows.{InitRequest, is_upload_of, uploaded_chunks}
use cloud_file.Server.Merge.Rows.{can_merge, start_merge}
use cloud_file.Server.Tables.{IsConsistent, IsCounted, own}
use cloud_file.Server.Parts.{joined-uploaded_chunks}
use cloud_file.Server.Parts.Order.{length-sort}
use cloud_file.Server.Ledger.Rows.{find-test}
use cloud_file.Server.Delivery.{IsHonest, IsSent, Sent}
use cloud_file.Server.Delivery.Rows.{find-change, length-keep_one}

-- The chunk rows that a merge lists, as many as announced; where the parts are there, their objects are
-- the bytes.
pub record IsListed (req : InitRequest) (bytes : List ℕ) (id : ℕ) (rows : List UploadChunk)
    : Type 0 where
  pub all : length rows ≡ req.chunk_count
  pub whole :
      (read : String → Option (List ℕ))
      → ((i : ℕ)
          → i < req.chunk_count
          → read (part_key id i) ≡ some (slice_of req.chunk_size (length bytes) bytes i))
      → joined read (map (λ r. r.object_key) rows) ≡ some bytes

-- the upload that is claimed
pub record IsClaimed (sha256_hex : List ℕ → String) (req : InitRequest) (bytes : List ℕ)
    (task : UploadTask) : Type 0 where
  pub count : task.chunk_count ≡ req.chunk_count
  pub size : task.file_size ≡ length bytes
  pub hash : task.file_hash ≡ sha256_hex bytes

pub record Claimed (sha256_hex : List ℕ → String) (req : InitRequest) (bytes : List ℕ) (id : ℕ)
    (t : Tables) : Type 0 where
  pub task : UploadTask
  pub row : find (is_upload_of id req.user_id) t.uploads ≡ some task
  pub claimed : IsClaimed sha256_hex req bytes task
  pub listed : IsListed req bytes id (uploaded_chunks id t)

merges_own :
    (id : ℕ) (user_id : String) (u : UploadTask)
    → can_merge id user_id u ≡ true
    → is_upload_of id user_id u ≡ true
merges_own id user_id u h = ground (arith, h)

own_id : (id : ℕ) (user_id : String) (u : UploadTask) → is_upload_of id user_id u ≡ true → u.id ≡ id
own_id id user_id u h = ground (arith, h)

mergeable :
    (id : ℕ) (user_id : String) (u : UploadTask)
    → is_upload_of id user_id u ≡ true
    → u.status ≡ UploadStatus.uploading
    → u.uploaded_count ≡ u.chunk_count
    → can_merge id user_id u ≡ true
mergeable id user_id u h e f = rw e (ground (arith, h, f))

module _ (sha256_hex : List ℕ → String) (req : InitRequest) (bytes : List ℕ)
    (honest : IsHonest sha256_hex bytes req) (id : ℕ) where
  listed_by :
      (t : Tables)
      → IsConsistent t
      → (task : UploadTask) → find (is_upload_of id req.user_id) t.uploads ≡ some task
      → IsSent req task.id req.chunk_count task
      → IsListed req bytes task.id (uploaded_chunks task.id t)
  unfolding uploaded_chunks
  listed_by t h task e s =
      let mine : IsCounted task.id task.uploaded_count task.chunk_count (own task t.chunks) =
        All-find (λ v. IsCounted v.id v.uploaded_count v.chunk_count (own v t.chunks)) _ t.uploads e
          h.uploads in
      record {
        all = length-sort (own task t.chunks) ∙ sym mine.counted ∙ s.counted;
        whole = λ read parts.
            joined-uploaded_chunks t (is_upload_of id req.user_id) task bytes read h e
              (s.counted ∙ sym s.count) (omega (arith, honest.chunked, s.size))
              (s.count ∙ honest.count ∙ ap (λ n. chunk_count_of n (length bytes)) (sym s.size))
              (λ i l. rw s.size (parts i (omega (arith, l, s.count))));
      }

  listed_as :
      (t : Tables)
      → IsConsistent t
      → (task : UploadTask) → find (is_upload_of id req.user_id) t.uploads ≡ some task
      → IsSent req id req.chunk_count task
      → IsListed req bytes id (uploaded_chunks id t)
  listed_as t h task e s =
      subst (λ i. IsSent req i req.chunk_count task → IsListed req bytes i (uploaded_chunks i t))
        s.id_of (listed_by t h task e) s

  -- the update that claims the upload finds it, and no other
  pub start_merge-Claimed :
      (now : ℕ) (t : Tables)
      → Sent req id req.chunk_count req.chunk_count t × IsConsistent t
      → ((start_merge id req.user_id now t).0 ≡ 1)
        × Claimed sha256_hex req bytes id (start_merge id req.user_id now t).1
  unfolding uploaded_chunks
  start_merge-Claimed now t (h, k) =
      let own = find-test (is_upload_of id req.user_id) t.uploads h.task h.row in
      let can =
        mergeable id req.user_id h.task own h.sent.open_still (h.sent.counted ∙ sym h.sent.count) in
      (
        length-keep_one (is_upload_of id req.user_id) (can_merge id req.user_id) id t.uploads h.task
            (own_id id req.user_id) (merges_own id req.user_id) k.distinct_uploads h.row can,
        record {
          task = record h.task { status = UploadStatus.merging; updated_at = now };
          row =
              find-change (is_upload_of id req.user_id) (can_merge id req.user_id)
                (λ u. record u { status = UploadStatus.merging; updated_at = now }) (λ u. refl)
                t.uploads h.task h.row can;
          claimed = record {
            count = h.sent.count;
            size = h.sent.file_size ∙ honest.size;
            hash = h.sent.hash ∙ honest.hash;
          };
          listed = listed_as t k h.task h.row h.sent;
        },
      )
