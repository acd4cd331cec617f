-- ===== src/Server/Tables/Chunks.antt =====
-- backend/internal/service/service.go: `UploadChunk` keeps the tables consistent.
use cloud_file.Base.{
  ℕ, Bool, true, false, String, List, find, length, Option, none, some, ltb, ◌≡◌, refl,
}
use cloud_file.Base.Int.{ℤ}
use cloud_file.App.Invariant.{All-find}
use cloud_file.Server.Model.{UploadTask, UploadChunk, is_uploaded}
use cloud_file.Server.Action.{not_found, failure, Outcome, done, fails, Action, pure, ◌>>=◌, ◌>>◌}
use cloud_file.Server.Action.Rules.{
  Ends, Ensures, Keeps, Ensures-raise, Ensures-bind, Ensures-then, Ensures-attempt, Ensures-weaken,
  keeps_rules, Keeps-pure, Keeps-raise, Keeps-lift, Keeps-raise-if, Keeps-reads, either_Ensures,
}
use cloud_file.Server.Storage.{ObjectStore}
use cloud_file.Server.World.{Tables, World, change, transaction}
use cloud_file.Server.World.Rules.{
  On, Ensures-statement, Ensures-change, Ensures-first, Ensures-transaction, rows_rules,
  Keeps-stored,
}
use cloud_file.Server.Keys.{part_key}
use cloud_file.Server.Rows.{is_upload_of, is_chunk_of, new_chunk, create_chunk, count_chunk}
use cloud_file.Server.Uploads.{
  upload_for_user, record_known, record_chunk, receive_chunk, admit_known, admit_index, admit_chunk,
  upload_chunk,
}
use cloud_file.Server.Tables.{Agrees, IsConsistent, counted_more}
use cloud_file.Server.Tables.Steps.{IsConsistent-count_chunk}
use cloud_file.Server.Tables.Announced.{Admits, create_chunk-Agrees, Announces-find, in_range-lt}

module _ {S : ObjectStore} where
  count-Ensures :
      (id n now : ℕ)
      → Ensures
          (On S (Agrees (counted_more id)))
          (change (count_chunk id now))
          (λ a. On S IsConsistent)
          (λ w. Unit {0})
  count-Ensures id n now =
      Ensures-weaken (λ w h. h) (λ a w h. h) (λ w h. tt)
        (Ensures-change {E = λ t. Unit {0}} (count_chunk id now)
          (λ t h. IsConsistent-count_chunk id now t h) (λ t h. tt))

  -- an uploaded chunk is in the table already
  record_old :
      (id i n : ℕ) (hash : String) (size now : ℕ) (old : UploadChunk)
      → Ensures
          (On S (λ t. Admits id n t × (find (is_chunk_of id i) t.chunks ≡ some old)))
          (record_known (new_chunk id i hash size) now (done old))
          (λ a. On S IsConsistent)
          (λ w. Unit {0})
  unfolding record_known pure
  record_old id i n hash size now old = record {
    from = λ w h.
        let e : is_uploaded old.status ≡ true =
          All-find (λ r. is_uploaded r.status ≡ true) (is_chunk_of id i) w.tables.chunks h.rows.1
            h.rows.0.0.chunks in
        rw e (record { rows = h.rows.0.0 });
  }

  record_new :
      (id i n : ℕ) (hash : String) (size now : ℕ)
      → ltb i n ≡ true
      → Ensures
          (On S (Admits id n))
          (record_known (new_chunk id i hash size) now (fails not_found))
          (λ a. On S IsConsistent)
          (λ w. Unit {0})
  unfolding record_known
  record_new id i n hash size now l =
      Ensures-then
        (Ensures-weaken (λ w h. h) (λ a w h. h) (λ w h. tt)
          (Ensures-statement {E = λ t. Unit {0}} {Q = λ a. Agrees (counted_more id)}
            (create_chunk (new_chunk id i hash size))
            (λ t h. create_chunk-Agrees id i n hash size t l h) (λ t h. tt)))
        (λ a. count-Ensures id n now)

  record_by :
      (id i n : ℕ) (hash : String) (size now : ℕ)
      → ltb i n ≡ true
      → (r : Outcome UploadChunk)
      → Ensures
          (λ w.
            Ends
              (λ old. On S (λ t. Admits id n t × (find (is_chunk_of id i) t.chunks ≡ some old)))
              (On S (Admits id n))
              (r, w))
          (record_known (new_chunk id i hash size) now r)
          (λ a. On S IsConsistent)
          (λ w. Unit {0})
  unfolding record_known
  record_by id i n hash size now l (done old) = record_old id i n hash size now old
  record_by id i n hash size now l (fails not_found) = record_new id i n hash size now l
  record_by id i n hash size now l (fails (failure e)) = Ensures-raise (failure e) (λ w h. tt)

  record_chunk-Ensures :
      (id i n : ℕ) (hash : String) (size now : ℕ)
      → ltb i n ≡ true
      → Ensures
          (On S (Admits id n))
          (record_chunk (new_chunk id i hash size) now)
          (λ a. On S IsConsistent)
          (λ w. Unit {0})
  unfolding record_chunk
  record_chunk-Ensures id i n hash size now l =
      Ensures-bind
        (Ensures-attempt {F = λ w. Unit {0}}
          (Ensures-first (λ t. find (is_chunk_of id i) t.chunks)))
        (record_by id i n hash size now l)

  -- a call that does not touch the rows, before one that needs the upload announced
  before :
      {A B : Type 0} (id n : ℕ) {m : Action (World S) A} {k : A → Action (World S) B}
      → Keeps (On S (Admits id n)) m
      → ((a : A) → Ensures (On S (Admits id n)) (k a) (λ b. On S IsConsistent) (On S IsConsistent))
      → Ensures (On S (Admits id n)) (m >>= k) (λ b. On S IsConsistent) (On S IsConsistent)
  before id n first rest =
      Ensures-bind
        (Ensures-weaken (λ w h. h) (λ a w h. h) (λ w h. record { rows = h.rows.0 }) first) rest

  admitted :
      {A : Type 0} (id n : ℕ) {m : Action (World S) A}
      → Keeps (On S IsConsistent) m
      → Ensures (On S (Admits id n)) m (λ a. On S IsConsistent) (On S IsConsistent)
  admitted id n h = Ensures-weaken (λ w h. record { rows = h.rows.0 }) (λ a w h. h) (λ w h. h) h

  Keeps-upload_for_user :
      (T : Tables → Type 0) (id : ℕ) (user_id : String)
      → Keeps (On S T) (upload_for_user id user_id)
  unfolding upload_for_user
  Keeps-upload_for_user T id user_id = search (keeps_rules, rows_rules)

  recorded :
      (id i n : ℕ) (hash : String) (size now : ℕ)
      → ltb i n ≡ true
      → Ensures
          (On S (Admits id n))
          (transaction (record_chunk (new_chunk id i hash size) now))
          (λ a. On S IsConsistent)
          (On S IsConsistent)
  recorded id i n hash size now l =
      Ensures-weaken (λ w h. h) (λ a w h. h) (λ w h. record { rows = h.rows.0 })
        (Ensures-transaction (Admits id n) (λ a. IsConsistent)
          (record_chunk-Ensures id i n hash size now l))

  end_of :
      (task : UploadTask) (user_id : String)
      → Keeps {A = UploadTask × Bool}
          (On S IsConsistent)
          (upload_for_user task.id user_id >>= λ latest. pure (latest, false))
  end_of task user_id = search (keeps_rules, Keeps-upload_for_user)

  received :
      (sha256_hex : List ℕ → String) (task : UploadTask) (user_id : String) (i : ℕ) (hash : String)
      (file : Outcome (List ℕ))
      → ltb i task.chunk_count ≡ true
      → Ensures
          (On S (Admits task.id task.chunk_count))
          (receive_chunk sha256_hex task user_id i hash file)
          (λ a. On S IsConsistent)
          (On S IsConsistent)
  unfolding receive_chunk ◌>>◌
  received sha256_hex task user_id i hash file l = before _ _ (Keeps-lift file) (λ bytes.
      before _ _ (Keeps-raise-if _ _) (λ _. before _ _ (Keeps-raise-if _ _) (λ _.
        before _ _ (Keeps-raise-if _ _) (λ _.
          before _ _ (Keeps-stored (S.put_object (part_key task.id i) bytes)) (λ _.
            before _ _ (Keeps-reads (λ w. w.now)) (λ now.
              Ensures-bind (recorded task.id i task.chunk_count hash (length bytes) now l)
                (λ _. end_of task user_id)))))))

  -- a chunk of an upload that was found
  admitted_known :
      (sha256_hex : List ℕ → String) (task : UploadTask) (user_id : String) (i : ℕ) (hash : String)
      (file : Outcome (List ℕ))
      → ltb i task.chunk_count ≡ true
      → (r : Outcome UploadChunk)
      → Ensures
          (On S (Admits task.id task.chunk_count))
          (admit_known sha256_hex task user_id i hash file r)
          (λ a. On S IsConsistent)
          (On S IsConsistent)
  unfolding admit_known
  admitted_known sha256_hex task user_id i hash file l (done old) =
      either_Ensures (is_uploaded old.status) (admitted _ _ (Keeps-pure (task, true)))
        (received sha256_hex task user_id i hash file l)
  admitted_known sha256_hex task user_id i hash file l (fails not_found) =
      received sha256_hex task user_id i hash file l
  admitted_known sha256_hex task user_id i hash file l (fails (failure e)) =
      admitted _ _ (Keeps-raise (failure e))

  admitted_index :
      (sha256_hex : List ℕ → String) (task : UploadTask) (user_id : String) (i : Option ℕ)
      (hash : String) (file : Outcome (List ℕ))
      → ((k : ℕ) → i ≡ some k → ltb k task.chunk_count ≡ true)
      → Ensures
          (On S (Admits task.id task.chunk_count))
          (admit_index sha256_hex task user_id i hash file)
          (λ a. On S IsConsistent)
          (On S IsConsistent)
  unfolding admit_index
  admitted_index sha256_hex task user_id none hash file l = admitted _ _ (Keeps-raise _)
  admitted_index sha256_hex task user_id (some i) hash file l =
      before _ _ (search (keeps_rules, rows_rules))
        (admitted_known sha256_hex task user_id i hash file (l i refl))

  admit_chunk-Ensures :
      (sha256_hex : List ℕ → String) (task : UploadTask) (user_id : String) (i : ℤ) (hash : String)
      (file : Outcome (List ℕ))
      → Ensures
          (On S (Admits task.id task.chunk_count))
          (admit_chunk sha256_hex task user_id i hash file)
          (λ a. On S IsConsistent)
          (On S IsConsistent)
  unfolding admit_chunk
  admit_chunk-Ensures sha256_hex task user_id i hash file =
      either_Ensures _ (admitted _ _ (Keeps-pure (task, true))) (
        either_Ensures _ (admitted _ _ (Keeps-raise _))
          (admitted_index sha256_hex task user_id _ hash file (in_range-lt i task.chunk_count)))

  pub upload_chunk-Keeps :
      (sha256_hex : List ℕ → String) (id : ℕ) (user_id : String) (i : ℤ) (hash : String)
      (file : Outcome (List ℕ))
      → Keeps (On S IsConsistent) (upload_chunk sha256_hex id user_id i hash file)
  unfolding upload_chunk upload_for_user
  upload_chunk-Keeps sha256_hex id user_id i hash file =
      Ensures-bind (Ensures-first (λ t. find (is_upload_of id user_id) t.uploads)) (λ task.
        Ensures-weaken
          (λ w h. record {
            rows = (
              h.rows.0,
              Announces-find (is_upload_of id user_id) task w.tables h.rows.0 h.rows.1,
            );
          })
          (λ a w h. h) (λ w h. h) (admit_chunk-Ensures sha256_hex task user_id i hash file))
