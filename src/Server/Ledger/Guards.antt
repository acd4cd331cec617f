-- ===== src/Server/Ledger/Guards.antt =====
-- backend/internal/service/service.go: the guards of `UploadChunk` let through what the ledger allows.
use mathlib.Core.Bool.{true≢false}
use cloud_file.Base.{
  ℕ, suc, ◌==◌, ◌≡◌, ◌⊎◌, refl, sym, subst, Bool, true, false, not, ◌&&◌, ◌||◌, String, List,
  length, str_eq, eq_iff, ltb, Bool-cases, inl, inr, arith, ltb→lt,
}
use cloud_file.Base.Int.{ℤ, pos, negsuc}
use cloud_file.Server.Model.{UploadTask, UploadChunk, is_uploaded}
use cloud_file.Server.Action.{
  Failure, not_found, failure, Outcome, done, fails, Action, pure, lift, raise_if, reads, ◌>>=◌,
  ◌>>◌,
}
use cloud_file.Server.Action.Rules.{
  Ensures, Keeps, Ensures-bind, Ensures-weaken, either_Ensures, keeps_rules, Keeps-reads,
  Keeps-pure, Keeps-raise,
}
use cloud_file.Server.Storage.{ObjectStore}
use cloud_file.Server.World.{Tables, World, transaction, stored}
use cloud_file.Server.World.Rules.{On, rows_rules, Keeps-stored}
use cloud_file.Server.Keys.{part_key}
use cloud_file.Server.Rows.{new_chunk, in_range}
use cloud_file.Server.Uploads.{
  upload_for_user, record_chunk, receive_chunk, admit_known, admit_index, admit_chunk,
}
use cloud_file.Server.Routes.{Request, chunk_request}
use cloud_file.Server.Merge.Found.{with_fact}
use cloud_file.Server.Ledger.{Ledger, Has, Meets, receiving, IsChunkSize, Allows, nothing, receives}
use cloud_file.Server.Ledger.Chunks.{recorded}

-- a guard that was passed
guarded :
    {W : Type 0} {P : W → Type 0} (b : Bool) (e : Failure)
    → Ensures P (raise_if b e) (λ a w. P w × (b ≡ false)) P
unfolding raise_if
guarded true e = record { from = λ w h. h }
guarded false e = record { from = λ w h. (h, refl) }

pub lifted :
    {W A B : Type 0} {P E : W → Type 0} {R : B → W → Type 0} (a : A) (k : A → Action W B)
    → Ensures P (k a) R E
    → Ensures P (lift (done a) >>= k) R E
unfolding lift ◌>>=◌
lifted a k h = record { from = h.from }

sized :
    (size count i n : ℕ)
    → (n == 0) ≡ false
    → (ltb size n || (not (suc i == count) && not (n == size))) ≡ false
    → IsChunkSize size count i n
sized size count i n e f = record {
  filled = ground arith;
  fits = ground arith;
  whole = elim (Bool-cases (suc i == count)) [
    | inl g ↦ inl (ground (arith, g))
    | inr g ↦ inr (ground (arith, g, f))
  ];
}

hashed : (a b : String) → (not (str_eq b "") && not (str_eq a b)) ≡ false → (b ≡ "") ⊎ (a ≡ b)
hashed a b e = elim (Bool-cases (str_eq b "")) [
  | inl f ↦ inl ((eq_iff b "").0 f)
  | inr f ↦ elim (Bool-cases (str_eq a b)) [
    | inl g ↦ inr ((eq_iff a b).0 g)
    | inr g ↦ absurd (true≢false (rw (f, g) at e))
  ]
]

pub Meets-nothing :
    (sha256_hex : List ℕ → String) (l : Ledger) (req : Request) (t : Tables)
    → Has l t
    → Meets sha256_hex l req t
Meets-nothing sha256_hex l req t h = subst (Allows sha256_hex l req) (sym h) (nothing req)

lift_fails :
    {W A B : Type 0} {P : W → Type 0} (e : Failure) (k : A → Action W B)
    → Keeps P (lift (fails e) >>= k)
unfolding lift ◌>>=◌
lift_fails e k = record { from = λ w h. h }

module _ {S : ObjectStore} (sha256_hex : List ℕ → String) (l : Ledger) (req : Request) where
  met : (w : World S) → On S (Has l) w → On S (Meets sha256_hex l req) w
  met w h = record { rows = Meets-nothing sha256_hex l req w.tables h.rows }

  -- a call that leaves the ledger, before the rest
  before :
      {A B : Type 0} (F : A → Type 0) {m : Action (World S) A} {k : A → Action (World S) B}
      → Ensures (On S (Has l)) m (λ a w. On S (Has l) w × F a) (On S (Has l))
      → ((a : A)
          → F a
          → Ensures
              (On S (Has l))
              (k a)
              (λ b. On S (Meets sha256_hex l req))
              (On S (Meets sha256_hex l req)))
      → Ensures
          (On S (Has l))
          (m >>= k)
          (λ b. On S (Meets sha256_hex l req))
          (On S (Meets sha256_hex l req))
  before F first rest =
      Ensures-bind (Ensures-weaken (λ w h. h) (λ a w h. h) met first) (λ a. with_fact (rest a))

  unchanged :
      {A : Type 0} {m : Action (World S) A}
      → Keeps (On S (Has l)) m
      → Ensures
          (On S (Has l))
          m
          (λ a. On S (Meets sha256_hex l req))
          (On S (Meets sha256_hex l req))
  unchanged h = Ensures-weaken (λ w h. h) (λ a. met) met h

  -- a call that keeps the rows, before the rest
  then_ready :
      {A B : Type 0} {m : Action (World S) A} {k : A → Action (World S) B}
      → Keeps (On S (Has l)) m
      → ((a : A)
          → Ensures
              (On S (Has l))
              (k a)
              (λ b. On S (Meets sha256_hex l req))
              (On S (Meets sha256_hex l req)))
      → Ensures
          (On S (Has l))
          (m >>= k)
          (λ b. On S (Meets sha256_hex l req))
          (On S (Meets sha256_hex l req))
  then_ready first rest = Ensures-bind (Ensures-weaken (λ w h. h) (λ a w h. h) met first) rest

  -- the transaction, and the query for the answer
  ended :
      (m : Ledger)
      → Allows sha256_hex l req m
      → (task : UploadTask) (user_id : String)
      → Ensures {A = UploadTask × Bool}
          (On S (Has m))
          (upload_for_user task.id user_id >>= λ latest. pure (latest, false))
          (λ b. On S (Meets sha256_hex l req))
          (On S (Meets sha256_hex l req))
  unfolding upload_for_user
  ended m a task user_id =
      let moved : (w : World S) → On S (Has m) w → On S (Meets sha256_hex l req) w =
        λ w h. record { rows = subst (Allows sha256_hex l req) (sym h.rows) a } in
      Ensures-weaken (λ w h. h) (λ b. moved) moved (search (keeps_rules, rows_rules))

  stored_chunk :
      (task : UploadTask) (user_id : String) (i : ℕ) (hash : String) (bytes : List ℕ)
      → Allows sha256_hex l req (receiving task.id i l)
      → Ensures {A = UploadTask × Bool}
          (On S (Has l))
          (stored {S = S} (S.put_object (part_key task.id i) bytes) >>= λ _.
            reads (λ w. w.now) >>= λ now.
            transaction (record_chunk (new_chunk task.id i hash (length bytes)) now) >>= λ _.
            upload_for_user task.id user_id >>= λ latest. pure (latest, false))
          (λ b. On S (Meets sha256_hex l req))
          (On S (Meets sha256_hex l req))
  stored_chunk task user_id i hash bytes a =
      then_ready (Keeps-stored (S.put_object (part_key task.id i) bytes)) (λ _.
        then_ready (Keeps-reads (λ w. w.now)) (λ now.
          Ensures-bind
            (Ensures-weaken (λ w h. h) (λ b w h. h) met
              (recorded task.id i hash (length bytes) now l))
            (λ _. ended (receiving task.id i l) a task user_id)))

  received :
      (task : UploadTask) (user_id : String) (i : ℕ) (hash : String) (file : Outcome (List ℕ))
      → req ≡ chunk_request task.id user_id (pos i) hash file
      → l.opened task.id user_id task.chunk_size task.chunk_count ≡ true
      → ltb i task.chunk_count ≡ true
      → Ensures
          (On S (Has l))
          (receive_chunk sha256_hex task user_id i hash file)
          (λ b. On S (Meets sha256_hex l req))
          (On S (Meets sha256_hex l req))
  unfolding receive_chunk ◌>>◌
  received task user_id i hash (fails e) r o b = unchanged (lift_fails e _)
  received task user_id i hash (done bytes) r o b = lifted bytes _ (
      before (λ a. _) (guarded _ _)
        (λ _ f.
          before (λ a. _) (guarded _ _)
            (λ _ g.
              before (λ a. _) (guarded _ _)
                (λ _ h. stored_chunk task user_id i hash bytes (
                  subst (λ q. Allows sha256_hex l q (receiving task.id i l)) (sym r)
                    (receives task.id user_id i task.chunk_size task.chunk_count hash bytes o
                      (ltb→lt i task.chunk_count b)
                      (sized task.chunk_size task.chunk_count i (length bytes) f g)
                      (hashed (sha256_hex bytes) hash h)))))))

  -- a chunk of an upload that was found
  admitted_known :
      (task : UploadTask) (user_id : String) (i : ℕ) (hash : String) (file : Outcome (List ℕ))
      → req ≡ chunk_request task.id user_id (pos i) hash file
      → l.opened task.id user_id task.chunk_size task.chunk_count ≡ true
      → ltb i task.chunk_count ≡ true
      → (known : Outcome UploadChunk)
      → Ensures
          (On S (Has l))
          (admit_known sha256_hex task user_id i hash file known)
          (λ b. On S (Meets sha256_hex l req))
          (On S (Meets sha256_hex l req))
  unfolding admit_known
  admitted_known task user_id i hash file r o b (done old) =
      either_Ensures (is_uploaded old.status) (unchanged (Keeps-pure (task, true)))
        (received task user_id i hash file r o b)
  admitted_known task user_id i hash file r o b (fails not_found) =
      received task user_id i hash file r o b
  admitted_known task user_id i hash file r o b (fails (failure e)) =
      unchanged (Keeps-raise (failure e))

  admitted_index :
      (task : UploadTask) (user_id : String) (i : ℤ) (hash : String) (file : Outcome (List ℕ))
      → req ≡ chunk_request task.id user_id i hash file
      → l.opened task.id user_id task.chunk_size task.chunk_count ≡ true
      → Ensures
          (On S (Has l))
          (admit_index sha256_hex task user_id (in_range i task.chunk_count) hash file)
          (λ b. On S (Meets sha256_hex l req))
          (On S (Meets sha256_hex l req))
  unfolding admit_index
  admitted_index task user_id (negsuc i) hash file r o = unchanged (Keeps-raise _)
  admitted_index task user_id (pos i) hash file r o = elim (Bool-cases (ltb i task.chunk_count)) [
    | inr e ↦ rw e (unchanged (Keeps-raise _))
    | inl e ↦ rw e (
        then_ready (search (keeps_rules, rows_rules))
          (admitted_known task user_id i hash file r o e))
  ]

  pub admitted :
      (task : UploadTask) (user_id : String) (i : ℤ) (hash : String) (file : Outcome (List ℕ))
      → req ≡ chunk_request task.id user_id i hash file
      → l.opened task.id user_id task.chunk_size task.chunk_count ≡ true
      → Ensures
          (On S (Has l))
          (admit_chunk sha256_hex task user_id i hash file)
          (λ b. On S (Meets sha256_hex l req))
          (On S (Meets sha256_hex l req))
  unfolding admit_chunk
  admitted task user_id i hash file r o =
      either_Ensures _ (unchanged (Keeps-pure (task, true)))
        (either_Ensures _ (unchanged (Keeps-raise _)) (admitted_index task user_id i hash file r o))
