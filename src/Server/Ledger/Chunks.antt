-- ===== src/Server/Ledger/Chunks.antt =====
-- backend/internal/service/service.go: `UploadChunk` receives what the ledger allows.
use cloud_file.Base.{
  ℕ, ◌==◌, ◌≡◌, refl, ap, ◌∙◌, Bool, true, false, String, find, any, some, Bool-cases, inl, inr,
  if◌then◌else◌,
}
use cloud_file.Server.Model.{UploadChunk, is_uploaded}
use cloud_file.Server.Action.{not_found, failure, Outcome, done, fails, pure, ◌>>◌}
use cloud_file.Server.Action.Rules.{
  Ends, Ensures, Ensures-pure, Ensures-raise, Ensures-bind, Ensures-then, Ensures-attempt,
  Ensures-weaken,
}
use cloud_file.Server.Storage.{ObjectStore}
use cloud_file.Server.World.{Tables, change, transaction}
use cloud_file.Server.World.Rules.{
  On, Ensures-statement, Ensures-change, Ensures-first, Ensures-transaction,
}
use cloud_file.Server.Rows.{
  is_chunk_of, new_chunk, create_chunk, save_chunk, count_chunk, counted_one,
}
use cloud_file.Server.Uploads.{record_known, record_chunk}
use cloud_file.Server.Ledger.{Ledger, ledger, Has, receiving}
use cloud_file.Server.Ledger.Rows.{
  ledger-update, ledger-create_chunk, ledger-save_chunk, ledger-known,
}

create_chunk-Has :
    (id i : ℕ) (hash : String) (size : ℕ) (l : Ledger) (t : Tables)
    → ledger t ≡ l
    → Ends (λ a. Has (receiving id i l)) (λ t. Unit {0}) (create_chunk (new_chunk id i hash size) t)
create_chunk-Has id i hash size l t h = elim (Bool-cases (any (is_chunk_of id i) t.chunks)) [
  | inl e ↦ rw e tt
  | inr e ↦ rw e (ledger-create_chunk id i hash size t ∙ ap (receiving id i) h)
]

module _ {S : ObjectStore} where
  counted :
      (id now : ℕ) (l : Ledger)
      → Ensures (On S (Has l)) (change (count_chunk id now)) (λ a. On S (Has l)) (λ w. Unit {0})
  counted id now l =
      Ensures-weaken (λ w h. h) (λ a w h. h) (λ w h. tt)
        (Ensures-change {E = λ t. Unit {0}} (count_chunk id now)
          (λ t h.
            ledger-update t (λ u. u.id == id) (counted_one now) (λ u. refl) (λ u. refl) (λ u. refl)
              (λ u. refl)
            ∙ h)
          (λ t h. tt))

  record_old :
      (id i : ℕ) (hash : String) (size now : ℕ) (l : Ledger) (old : UploadChunk) (b : Bool)
      → is_uploaded old.status ≡ b
      → Ensures
          (On S (λ t. Has l t × (find (is_chunk_of id i) t.chunks ≡ some old)))
          (if b
            then pure tt
            else change (save_chunk (new_chunk id i hash size)) >> change (count_chunk id now))
          (λ a. On S (Has (receiving id i l)))
          (λ w. Unit {0})
  record_old id i hash size now l old true e = Ensures-pure tt (λ w h. record {
    rows = ledger-known id i hash size w.tables old h.rows.1 e ∙ ap (receiving id i) h.rows.0;
  })
  record_old id i hash size now l old false e =
      Ensures-then
        (Ensures-weaken (λ w h. h) (λ a w h. h) (λ w h. tt)
          (Ensures-change {E = λ t. Unit {0}} {Q = λ a. Has (receiving id i l)}
            (save_chunk (new_chunk id i hash size))
            (λ t h. ledger-save_chunk id i hash size t old h.1 ∙ ap (receiving id i) h.0)
            (λ t h. tt)))
        (λ a. counted id now (receiving id i l))

  record_by :
      (id i : ℕ) (hash : String) (size now : ℕ) (l : Ledger) (r : Outcome UploadChunk)
      → Ensures
          (λ w.
            Ends
              (λ old. On S (λ t. Has l t × (find (is_chunk_of id i) t.chunks ≡ some old)))
              (On S (Has l))
              (r, w))
          (record_known (new_chunk id i hash size) now r)
          (λ a. On S (Has (receiving id i l)))
          (λ w. Unit {0})
  unfolding record_known
  record_by id i hash size now l (done old) = record_old id i hash size now l old _ refl
  record_by id i hash size now l (fails not_found) =
      Ensures-then
        (Ensures-weaken (λ w h. h) (λ a w h. h) (λ w h. tt)
          (Ensures-statement {E = λ t. Unit {0}} {Q = λ a. Has (receiving id i l)}
            (create_chunk (new_chunk id i hash size)) (λ t h. create_chunk-Has id i hash size l t h)
            (λ t h. tt)))
        (λ a. counted id now (receiving id i l))
  record_by id i hash size now l (fails (failure e)) = Ensures-raise (failure e) (λ w h. tt)

  pub recorded :
      (id i : ℕ) (hash : String) (size now : ℕ) (l : Ledger)
      → Ensures
          (On S (Has l))
          (transaction (record_chunk (new_chunk id i hash size) now))
          (λ a. On S (Has (receiving id i l)))
          (On S (Has l))
  unfolding record_chunk
  recorded id i hash size now l =
      Ensures-transaction (Has l) (λ a. Has (receiving id i l))
        (Ensures-bind
          (Ensures-attempt {F = λ w. Unit {0}}
            (Ensures-first (λ t. find (is_chunk_of id i) t.chunks)))
          (record_by id i hash size now l))
