-- ===== src/Server/Listing.antt =====
-- backend/internal/service/service.go: what `UploadStatus` answers, the indexes of an upload's chunks, is
-- what the ledger has received.
use cloud_file.Base.{
  ℕ, zero, suc, ◌+◌, ◌==◌, ◌<◌, ◌≤◌, ◌≡◌, refl, ap, sym, subst, ◌∙◌, Bool, true, false, ◌||◌,
  String, List, [], ◌∷◌, some, find, any, keep, All, leb, Bool-cases, inl, inr, arith,
}
use cloud_file.App.Invariant.{All-find}
use cloud_file.Server.Model.{UploadTask, UploadChunk, is_uploaded}
use cloud_file.Server.Action.{done, pure, ◌>>=◌}
use cloud_file.Server.Storage.{ObjectStore}
use cloud_file.Server.World.{Tables, World, statement, first_row, find_rows}
use cloud_file.Server.Rows.{
  is_upload_of, is_uploaded_of, insert_chunk, sort_chunks, uploaded_chunks,
}
use cloud_file.Server.Uploads.{upload_for_user, upload_status}
use cloud_file.Server.Tables.{IsConsistent, IsCounted, indexes, own}
use cloud_file.Server.Tables.Rows.{All-weaken}
use cloud_file.Server.Parts.Order.{up_from, Rising, Rising-sorted, All-sort, All-indexes, below}
use cloud_file.Server.Ledger.Rows.{find-test, and_true}
use cloud_file.Server.Delivery.Rows.{and_false}
use cloud_file.Server.Ledger.{ledger, is_received}

none_above : (lo : ℕ) (is : List ℕ) → All (λ i. lo + 1 ≤ i) is → any (λ j. j == lo) is ≡ false
none_above lo [] h = refl
none_above lo (i ∷ is) (h, hs) =
    let e : (i == lo) ≡ false = ground (arith, h) in rw (e, none_above lo is hs)

-- a rising list is what a test of membership keeps of a range
Rising-keep :
    (p : ℕ → Bool) (lo n : ℕ) (is : List ℕ)
    → Rising is
    → All (λ i. lo ≤ i) is
    → All (λ i. i < lo + n) is
    → ((i : ℕ) → lo ≤ i → p i ≡ any (λ j. j == i) is)
    → is ≡ keep p (up_from lo n)
unfolding Rising up_from
Rising-keep p lo zero [] r l h m = refl
Rising-keep p lo zero (i ∷ is) r (l, ls) (h, hs) m = absurd (omega (arith, l, h))
Rising-keep p lo (suc n) [] r l h m =
    rw (m lo (omega arith)) (Rising-keep p (lo + 1) n [] tt tt tt (λ i k. m i (omega (arith, k))))
Rising-keep p lo (suc n) (i ∷ is) (r, rs) (l, ls) (h, hs) m = elim (Bool-cases (i == lo)) [
  | inl e ↦
      let same : i ≡ lo = ground (arith, e) in
      let hit : p lo ≡ true = m lo (omega arith) ∙ rw e in
      rw (hit, ← same)
        (ap (λ js. i ∷ js)
          (Rising-keep p (i + 1) n is rs (All-weaken _ _ (λ j k. omega (arith, k)) is r)
            (All-weaken _ _ (λ j k. omega (arith, k, same)) is hs)
            (λ j k.
              let other : (i == j) ≡ false = ground (arith, k) in
              m j (omega (arith, k, same)) ∙ rw other)))
  | inr e ↦
      let above : All (λ j. lo + 1 ≤ j) (i ∷ is) =
        (ground (arith, e, l), All-weaken _ _ (λ j k. omega (arith, k, l)) is r) in
      let miss : p lo ≡ false = m lo (omega arith) ∙ none_above lo (i ∷ is) above in
      rw miss (
        Rising-keep p (lo + 1) n (i ∷ is) (r, rs) above
          (omega (arith, h), All-weaken _ _ (λ j k. omega (arith, k)) is hs)
          (λ j k. m j (omega (arith, k))))
]

or_swap : (a b c : Bool) → (a || (b || c)) ≡ (b || (a || c))
or_swap true true c = refl
or_swap true false c = refl
or_swap false true c = refl
or_swap false false c = refl

module _ (p : UploadChunk → Bool) where
  any-insert :
      (r : UploadChunk) (rows : List UploadChunk)
      → any p (insert_chunk r rows) ≡ (p r || any p rows)
  unfolding insert_chunk
  any-insert r [] = refl
  any-insert r (s ∷ rows) = elim (Bool-cases (leb r.chunk_index s.chunk_index)) [
    | inl e ↦ rw e
    | inr e ↦ rw (e, any-insert r rows) (or_swap (p s) (p r) (any p rows))
  ]

  any-sort : (rows : List UploadChunk) → any p (sort_chunks rows) ≡ any p rows
  unfolding sort_chunks
  any-sort [] = refl
  any-sort (r ∷ rows) = rw (any-insert r (sort_chunks rows), any-sort rows)

any-indexes :
    (i : ℕ) (rows : List UploadChunk)
    → any (λ j. j == i) (indexes rows) ≡ any (λ r. r.chunk_index == i) rows
any-indexes i [] = refl
any-indexes i (r ∷ rows) = rw (any-indexes i rows)

any-own :
    (id i : ℕ) (rows : List UploadChunk)
    → any (λ r. r.chunk_index == i) (keep (is_uploaded_of id) rows) ≡ any (is_received id i) rows
any-own id i [] = refl
any-own id i (r ∷ rows) = elim (Bool-cases (r.upload_id == id)) [
  | inr e ↦ rw (e, any-own id i rows)
  | inl e ↦ elim (Bool-cases (is_uploaded r.status)) [
    | inl u ↦ rw (e, u, any-own id i rows, and_true (r.chunk_index == i))
    | inr u ↦ rw (e, u, any-own id i rows, and_false (r.chunk_index == i))
  ]
]

-- the indexes that a status request lists, by the ledger
abbrev pub listing : ℕ → ℕ → Tables → List ℕ
listing id count t = keep (λ i. (ledger t).received id i) (up_from 0 count)

indexes-listing :
    (t : Tables) (task : UploadTask)
    → IsCounted task.id task.uploaded_count task.chunk_count (own task t.chunks)
    → indexes (uploaded_chunks task.id t) ≡ listing task.id task.chunk_count t
unfolding uploaded_chunks
indexes-listing t task mine =
    let rows = own task t.chunks in
    Rising-keep (λ i. any (is_received task.id i) t.chunks) 0 task.chunk_count
      (indexes (sort_chunks rows)) (Rising-sorted rows mine.distinct)
      (All-indexes _ _ (All-sort _ rows (All-weaken _ _ (λ r h. omega arith) rows mine.ranged)))
      (All-indexes _ _
        (All-sort _ rows (All-weaken _ _ (λ r h. below r task.chunk_count h) rows mine.ranged)))
      (λ i l. sym (
        any-indexes i (sort_chunks rows)
        ∙ any-sort (λ r. r.chunk_index == i) rows
        ∙ any-own task.id i t.chunks))

-- the same, of an upload found by its id
listing_as :
    (t : Tables) (id : ℕ) (user_id : String) (task : UploadTask)
    → IsConsistent t
    → find (is_upload_of id user_id) t.uploads ≡ some task
    → indexes (uploaded_chunks id t) ≡ listing id task.chunk_count t
listing_as t id user_id task h e =
    let same : task.id ≡ id =
      ground (arith, find-test (is_upload_of id user_id) t.uploads task e) in
    let mine : IsCounted task.id task.uploaded_count task.chunk_count (own task t.chunks) =
      All-find (λ v. IsCounted v.id v.uploaded_count v.chunk_count (own v t.chunks)) _ t.uploads e
        h.uploads in
    subst (λ i. indexes (uploaded_chunks i t) ≡ listing i task.chunk_count t) same
      (indexes-listing t task mine)

-- Of consistent tables, with a database that refuses nothing and an upload of that id and user: a status
-- request returns, changes no row, and answers the indexes below the chunk count that the ledger has
-- received, each once and in rising order.
pub upload_status-lists :
    {S : ObjectStore} (id : ℕ) (user_id : String) (w : World S) (task : UploadTask)
    → w.faults ≡ []
    → IsConsistent w.tables
    → find (is_upload_of id user_id) w.tables.uploads ≡ some task
    → ((upload_status id user_id w).0 ≡ done (listing id task.chunk_count w.tables))
      × ((upload_status id user_id w).1.tables ≡ w.tables)
unfolding upload_status upload_for_user first_row find_rows statement ◌>>=◌ pure
upload_status-lists id user_id w task e h f =
    rw (e, f) (ap done (listing_as w.tables id user_id task h f), refl)
