-- ===== src/Server/Parts.antt =====
-- backend/internal/service/service.go: the parts that `MergeUpload` composes are the slices that
-- frontend/src/api.ts sent, in their order.
pub mod Order
use cloud_file.Base.{
  ℕ, zero, suc, ◌+◌, ◌<◌, ◌≤◌, ◌≡◌, refl, sym, ap, ◌∙◌, Bool, true, String, List, [], ◌∷◌, ◌++◌,
  map, find, keep, length, length-map, All, Option, none, some, ltb, ltb→lt, arith,
}
use cloud_file.App.Invariant.{All-find}
use cloud_file.Api.{slice_of, chunk_count_of}
use cloud_file.Api.Slices.{slices_from, slices_from-eq-bytes}
use cloud_file.Server.Model.{UploadTask, UploadChunk}
use cloud_file.Server.World.{Tables}
use cloud_file.Server.Keys.{part_key}
use cloud_file.Server.Storage.{joined}
use cloud_file.Server.Rows.{is_uploaded_of, sort_chunks, uploaded_chunks}
use cloud_file.Server.Tables.{IsConsistent, IsCounted, indexes, own}
use cloud_file.Server.Parts.Order.{up_from, sorted_range, All-sort, length-sort}

-- the keys of rows that stand where they should
keys_of :
    (id : ℕ) (rows : List UploadChunk)
    → All (λ r. r.object_key ≡ part_key id r.chunk_index) rows
    → map (λ r. r.object_key) rows ≡ map (part_key id) (indexes rows)
keys_of id [] h = refl
keys_of id (r ∷ rows) (h, hs) = rw (h, keys_of id rows hs)

-- the slices from `lo` on, one after the other
joined-slices :
    (read : String → Option (List ℕ)) (id chunk : ℕ) (bytes : List ℕ) (lo n : ℕ)
    → ((i : ℕ) → i < lo + n → read (part_key id i) ≡ some (slice_of chunk (length bytes) bytes i))
    → joined read (map (part_key id) (up_from lo n)) ≡ some (slices_from chunk bytes lo n)
unfolding joined slices_from up_from
joined-slices read id chunk bytes lo zero h = refl
joined-slices read id chunk bytes lo (suc n) h =
    rw (h lo (omega arith), joined-slices read id chunk bytes (lo + 1) n (λ i l. h i (omega arith)))

-- Of consistent tables, an upload all of whose chunks are counted, and a file of as many chunks: where
-- the store holds under the key of each part the slice that the console sends for it, the objects that
-- a merge composes are, one after the other, the bytes of the file.
pub joined-uploaded_chunks :
    (t : Tables) (test : UploadTask → Bool) (u : UploadTask) (bytes : List ℕ)
    (read : String → Option (List ℕ))
    → IsConsistent t
    → find test t.uploads ≡ some u
    → u.uploaded_count ≡ u.chunk_count
    → 0 < u.chunk_size
    → u.chunk_count ≡ chunk_count_of u.chunk_size (length bytes)
    → ((i : ℕ)
        → i < u.chunk_count
        → read (part_key u.id i) ≡ some (slice_of u.chunk_size (length bytes) bytes i))
    → joined read (map (λ r. r.object_key) (uploaded_chunks u.id t)) ≡ some bytes
unfolding uploaded_chunks
joined-uploaded_chunks t test u bytes read h e full pos n parts =
    let mine : IsCounted u.id u.uploaded_count u.chunk_count (own u t.chunks) =
      All-find (λ v. IsCounted v.id v.uploaded_count v.chunk_count (own v t.chunks)) test t.uploads
        e h.uploads in
    let order : indexes (sort_chunks (own u t.chunks)) ≡ up_from 0 u.chunk_count =
      sorted_range (own u t.chunks) u.chunk_count (sym mine.counted ∙ full) mine.ranged
        mine.distinct in
    rw
      (
        keys_of u.id (sort_chunks (own u t.chunks)) (All-sort _ (own u t.chunks) mine.placed),
        order,
        joined-slices read u.id u.chunk_size bytes 0 u.chunk_count (λ i l. parts i (omega arith)),
      )
      (rw n (ap some (slices_from-eq-bytes u.chunk_size bytes pos)))
