-- ===== src/Server/Tables/Steps.antt =====
-- The changes of rows, of backend/internal/service/service.go, that keep the tables consistent.
use mathlib.Core.Bool.{true≢false}
use cloud_file.Base.{
  ℕ, ◌+◌, ◌==◌, ◌<◌, ◌≤◌, Bool, true, false, String, List, [], ◌∷◌, ◌++◌, map, any, keep,
  length-append, All, ltb, ◌≡◌, refl, ◌⊎◌, Bool-cases, inl, inr, arith,
}
use cloud_file.Server.Model.{UploadTask, UploadChunk}
use cloud_file.Server.World.{Tables, change_rows}
use cloud_file.Server.Rows.{
  InitRequest, is_uploaded_of, is_chunk_of, new_upload, create_upload, new_chunk, count_chunk,
  counted_one,
}
use cloud_file.Server.Tables.{
  indexes, own, IsCounted, Agrees, IsConsistent, counted_more, Announces,
}
use cloud_file.Server.Tables.Rows.{
  All-change, All-weaken, All-add, All-both, keep-add, keep_none, map-change, append_nil,
  indexes-add, Distinct-add, any-own,
}

pub IsConsistent-grow :
    (t t' : Tables)
    → t'.uploads ≡ t.uploads
    → t'.chunks ≡ t.chunks
    → t.next_id ≤ t'.next_id
    → IsConsistent t
    → IsConsistent t'
IsConsistent-grow t t' e f n h = record {
  uploads = rw (e, f) h.uploads;
  chunks = rw f h.chunks;
  old_chunks = rw f (All-weaken _ _ (λ r k. omega arith) t.chunks h.old_chunks);
  old_uploads = rw e (All-weaken _ _ (λ u k. omega arith) t.uploads h.old_uploads);
  distinct_uploads = rw e h.distinct_uploads;
}

-- an update that leaves the id and the counts
pub IsConsistent-update :
    (t : Tables) (test : UploadTask → Bool) (f : UploadTask → UploadTask)
    → ((u : UploadTask) → (f u).id ≡ u.id)
    → ((u : UploadTask) → (f u).uploaded_count ≡ u.uploaded_count)
    → ((u : UploadTask) → (f u).chunk_count ≡ u.chunk_count)
    → IsConsistent t
    → IsConsistent (record t { uploads = change_rows test f t.uploads })
IsConsistent-update t test f ids counts chunks h = record {
  uploads =
      All-change _ _ test f (λ u e k. rw (ids u, counts u, chunks u) k) (λ u e k. k) t.uploads
        h.uploads;
  chunks = h.chunks;
  old_chunks = h.old_chunks;
  old_uploads = All-change _ _ test f (λ u e k. rw (ids u) k) (λ u e k. k) t.uploads h.old_uploads;
  distinct_uploads = rw (map-change (λ u. u.id) test f ids t.uploads) h.distinct_uploads;
}

no_ids :
    (n : ℕ) (us : List UploadTask)
    → All (λ u. u.id < n) us
    → any (λ j. j == n) (map (λ u. u.id) us) ≡ false
no_ids n [] h = refl
no_ids n (u ∷ us) (h, hs) = let e : (u.id == n) ≡ false = ground arith in rw (e, no_ids n us hs)

map_add :
    (us : List UploadTask) (v : UploadTask)
    → map (λ u. u.id) (us ++ v ∷ []) ≡ map (λ u. u.id) us ++ v.id ∷ []
map_add [] v = refl
map_add (u ∷ us) v = rw (map_add us v)

not_yet : (n : ℕ) (r : UploadChunk) → r.upload_id < n → is_uploaded_of n r ≡ false
not_yet n r h = let e : (r.upload_id == n) ≡ false = ground arith in rw e

pub IsConsistent-create_upload :
    (req : InitRequest) (now : ℕ) (t : Tables)
    → IsConsistent t
    → IsConsistent (create_upload req now t).1
IsConsistent-create_upload req now t h = record {
  uploads = All-add _ t.uploads (new_upload req t.next_id now) h.uploads (
      let e : keep (is_uploaded_of t.next_id) t.chunks ≡ [] =
        keep_none _ t.chunks
          (All-weaken _ _ (λ r k. not_yet t.next_id r k) t.chunks h.old_chunks) in
      rw e (record { counted = refl; ranged = tt; placed = tt; distinct = tt }));
  chunks = h.chunks;
  old_chunks = All-weaken _ _ (λ r k. omega arith) t.chunks h.old_chunks;
  old_uploads =
      All-add _ t.uploads _ (All-weaken _ _ (λ u k. omega arith) t.uploads h.old_uploads)
        (omega arith);
  distinct_uploads =
      rw (map_add t.uploads (new_upload req t.next_id now))
        (Distinct-add _ t.next_id h.distinct_uploads (no_ids t.next_id t.uploads h.old_uploads));
}

-- the upload's own chunks, with one more
IsCounted-add :
    (id i count chunk_count : ℕ) (hash : String) (size : ℕ) (rows : List UploadChunk)
    → ltb i chunk_count ≡ true
    → any (λ j. j == i) (indexes rows) ≡ false
    → IsCounted id count chunk_count rows
    → IsCounted id (count + 1) chunk_count (rows ++ new_chunk id i hash size ∷ [])
IsCounted-add id i count chunk_count hash size rows l new h = record {
  counted = omega (arith, h.counted, length-append rows (new_chunk id i hash size ∷ []));
  ranged = All-add _ rows _ h.ranged l;
  placed = All-add _ rows _ h.placed refl;
  distinct = rw (indexes-add rows (new_chunk id i hash size)) (Distinct-add _ i h.distinct new);
}

own-IsCounted :
    (i : ℕ) (hash : String) (size : ℕ) (rows : List UploadChunk) (u : UploadTask)
    → ltb i u.chunk_count ≡ true
    → (id : ℕ) → id ≡ u.id
    → any (is_chunk_of id i) rows ≡ false
    → IsCounted u.id u.uploaded_count u.chunk_count (own u rows)
    → IsCounted u.id
        (counted_more id u)
        u.chunk_count
        (own u (rows ++ new_chunk id i hash size ∷ []))
own-IsCounted i hash size rows u l id p new h =
    let e : (u.id == u.id) ≡ true = ground arith in
    rw (p, keep-add (is_uploaded_of u.id) rows (new_chunk u.id i hash size), e)
      (IsCounted-add u.id i u.uploaded_count u.chunk_count hash size (own u rows) l
        (any-own u.id i rows (rw p at new)) h)

-- an upload, before and after the row of the chunk is there
own-create_chunk :
    (id i chunk_count : ℕ) (hash : String) (size : ℕ) (rows : List UploadChunk) (u : UploadTask)
    → ltb i chunk_count ≡ true
    → any (is_chunk_of id i) rows ≡ false
    → (u.chunk_count ≡ chunk_count) ⊎ ((u.id == id) ≡ false)
    → IsCounted u.id u.uploaded_count u.chunk_count (own u rows)
    → IsCounted u.id
        (counted_more id u)
        u.chunk_count
        (own u (rows ++ new_chunk id i hash size ∷ []))
own-create_chunk id i chunk_count hash size rows u l new a h = elim (Bool-cases (u.id == id)) [
  | inl e ↦
      own-IsCounted i hash size rows u
        (elim a [ inl c ↦ rw c l | inr f ↦ absurd (true≢false (rw e at f)) ]) id (ground (arith, e))
        new h
  | inr e ↦
      let ne : (id == u.id) ≡ false = ground (arith, e) in
      rw
        (
          keep-add (is_uploaded_of u.id) rows (new_chunk id i hash size),
          e,
          ne,
          append_nil (own u rows),
        )
        h
]

-- the row of the chunk, created
pub Agrees-create_chunk :
    (id i chunk_count : ℕ) (hash : String) (size : ℕ) (t : Tables)
    → ltb i chunk_count ≡ true
    → any (is_chunk_of id i) t.chunks ≡ false
    → Announces id chunk_count t
    → IsConsistent t
    → Agrees (counted_more id) (record t { chunks = t.chunks ++ new_chunk id i hash size ∷ [] })
Agrees-create_chunk id i chunk_count hash size t l new a h = record {
  uploads =
      All-weaken _ _ (λ u k. own-create_chunk id i chunk_count hash size t.chunks u l new k.0 k.1)
        t.uploads (All-both _ _ t.uploads a.announced h.uploads);
  chunks = All-add _ t.chunks _ h.chunks refl;
  old_chunks = All-add _ t.chunks _ h.old_chunks a.given;
  old_uploads = h.old_uploads;
  distinct_uploads = h.distinct_uploads;
}

IsCounted-hit :
    (id now : ℕ) (u : UploadTask) (rows : List UploadChunk)
    → (u.id == id) ≡ true
    → IsCounted u.id (counted_more id u) u.chunk_count (own u rows)
    → IsCounted u.id (u.uploaded_count + 1) u.chunk_count (own u rows)
IsCounted-hit id now u rows e h = rw e at h

IsCounted-miss :
    (id : ℕ) (u : UploadTask) (rows : List UploadChunk)
    → (u.id == id) ≡ false
    → IsCounted u.id (counted_more id u) u.chunk_count (own u rows)
    → IsCounted u.id u.uploaded_count u.chunk_count (own u rows)
IsCounted-miss id u rows e h = rw e at h

pub IsConsistent-count_chunk :
    (id now : ℕ) (t : Tables) → Agrees (counted_more id) t → IsConsistent (count_chunk id now t).1
IsConsistent-count_chunk id now t h = record {
  uploads =
      All-change _ _ (λ u. u.id == id) (counted_one now)
        (λ u e k. IsCounted-hit id now u t.chunks e k) (λ u e k. IsCounted-miss id u t.chunks e k)
        t.uploads h.uploads;
  chunks = h.chunks;
  old_chunks = h.old_chunks;
  old_uploads =
      All-change _ _ (λ u. u.id == id) (counted_one now) (λ u e k. k) (λ u e k. k) t.uploads
        h.old_uploads;
  distinct_uploads =
      rw (map-change (λ u. u.id) (λ u. u.id == id) (counted_one now) (λ u. refl) t.uploads)
        h.distinct_uploads;
}
