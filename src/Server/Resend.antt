-- ===== src/Server/Resend.antt =====
-- backend/internal/service/service.go: a chunk that the service has is not taken again.
use mathlib.Core.Bool.{true≢false}
use cloud_file.Base.{
  ℕ, ◌<◌, ◌≡◌, sym, subst, true, String, List, [], ◌∷◌, some, find, any, ltb, Bool-cases, inl, inr,
  arith,
}
use cloud_file.Base.Int.{pos}
use cloud_file.App.Invariant.{All-find}
use cloud_file.Server.Model.{UploadStatus, UploadTask, UploadChunk, is_uploaded}
use cloud_file.Server.Action.{Outcome, done, attempt, pure, ◌>>=◌}
use cloud_file.Server.Storage.{ObjectStore}
use cloud_file.Server.World.{World, statement, first_row}
use cloud_file.Server.Rows.{is_upload_of, is_chunk_of}
use cloud_file.Server.Uploads.{upload_for_user, admit_known, admit_index, admit_chunk, upload_chunk}
use cloud_file.Server.Tables.{IsConsistent}
use cloud_file.Server.Ledger.{ledger, is_received}
use cloud_file.Server.Ledger.Rows.{find-test}

received_row :
    (id i : ℕ) (rows : List UploadChunk)
    → any (is_received id i) rows ≡ true
    → (r : UploadChunk) × (find (is_chunk_of id i) rows ≡ some r)
received_row id i [] h = absurd (true≢false (sym h))
received_row id i (r ∷ rows) h = elim (Bool-cases (is_chunk_of id i r)) [
  | inl e ↦ (r, rw e)
  | inr e ↦ let (q, f) = received_row id i rows (rw e at h) in (q, rw (e, f))
]

-- Of consistent tables, with a database that refuses nothing: a chunk of an open upload that the ledger
-- has received is answered as uploaded already, whatever bytes and hash come with it, even where the file
-- cannot be read, and neither rows nor objects nor anything else change.
pub upload_chunk-again :
    {S : ObjectStore} (sha256_hex : List ℕ → String) (id : ℕ) (user_id : String) (i : ℕ)
    (hash : String) (file : Outcome (List ℕ)) (w : World S) (task : UploadTask)
    → w.faults ≡ []
    → IsConsistent w.tables
    → find (is_upload_of id user_id) w.tables.uploads ≡ some task
    → task.status ≡ UploadStatus.uploading
    → i < task.chunk_count
    → (ledger w.tables).received id i ≡ true
    → upload_chunk sha256_hex id user_id (pos i) hash file w ≡ (done (task, true), w)
unfolding upload_chunk upload_for_user admit_chunk admit_index admit_known first_row statement
    attempt ◌>>=◌ pure
upload_chunk-again sha256_hex id user_id i hash file w task e h f going l r =
    let same : id ≡ task.id =
      ground (arith, find-test (is_upload_of id user_id) w.tables.uploads task f) in
    let (old, k) =
      received_row task.id i w.tables.chunks
        (subst (λ n. any (is_received n i) w.tables.chunks ≡ true) same r) in
    let taken : is_uploaded old.status ≡ true =
      All-find (λ c. is_uploaded c.status ≡ true) (is_chunk_of task.id i) w.tables.chunks k
        h.chunks in
    let below : ltb i task.chunk_count ≡ true = ground (arith, l) in
    rw (e, f, going, below, k, taken)
