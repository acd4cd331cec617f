-- ===== src/Server/Delivery/Sending.antt =====
-- backend/internal/service/service.go: what `UploadChunk` does with a slice that the console sends, where
-- the database refuses nothing and the store is there.
use mathlib.Core.Bool.{true≢false}
use cloud_file.Base.{
  ℕ, suc, ◌==◌, ◌<◌, ◌≡◌, refl, ap, sym, subst, ◌∙◌, false, not, ◌&&◌, ◌||◌, String, List, none,
  some, find, length, ltb, str_eq, eq_refl, eq_iff, Bool-cases, inl, inr, arith, if◌then◌else◌,
}
use cloud_file.Api.{slice_of}
use cloud_file.Api.Slices.{length-slice_of, length-slice_of_last}
use cloud_file.Server.Action.{not_found, Outcome, done, fails, attempt}
use cloud_file.Server.Action.Rules.{Ends, Ensures-bind, Ensures-then, Ensures-weaken}
use cloud_file.Server.Storage.{ObjectStore, IsLawful, IsReliable, IsDone}
use cloud_file.Server.World.{Tables, transaction, stored, first_row, found}
use cloud_file.Server.World.Quiet.{Returns, given}
use cloud_file.Server.World.Calm.{
  Locks, Calm, Calm-weaken, Calm-statement, Calm-change, Calm-first, Calm-attempt, no_rows,
}
use cloud_file.Server.World.Calm.Calls.{Calm-stored, Calm-transaction, no_objects}
use cloud_file.Server.Keys.{part_key}
use cloud_file.Server.Keys.Apart.{part_key-injective}
use cloud_file.Server.Rows.{InitRequest, is_chunk_of, new_chunk, create_chunk, count_chunk}
use cloud_file.Server.Uploads.{upload_for_user, record_known, record_chunk}
use cloud_file.Server.Delivery.{IsHonest, Sent, Parts}
use cloud_file.Server.Delivery.Rows.{find-none, Sent-create_chunk, Sent-count_chunk}

-- the store takes the slice, and keeps the others
module _ {S : ObjectStore} (law : IsLawful S) (reliable : IsReliable S law) (req : InitRequest)
    (bytes : List ℕ) where
  put_by :
      (id n : ℕ) (s : S.State)
      → Parts law req bytes id n s
      → (x : Outcome (Unit {0}) × S.State) → IsDone x.0
      → Ends
          (λ _ t.
            (j : String)
            → law.read t j ≡ (
                if str_eq j (part_key id n)
                then some (slice_of req.chunk_size (length bytes) bytes n)
                else law.read s j))
          (λ t. (j : String) → str_eq j (part_key id n) ≡ false → law.read t j ≡ law.read s j)
          x
      → Ends (λ _. Parts law req bytes id (suc n)) (λ t. ⊥) x
  put_by id n s h (done a, t) d l = λ i k. elim (Bool-cases (i == n)) [
    | inl e ↦
        let same : n ≡ i = ground (arith, e) in
        subst
          (λ m. law.read t (part_key id m) ≡ some (slice_of req.chunk_size (length bytes) bytes m))
          same (l (part_key id n) ∙ rw (eq_refl (part_key id n)) refl)
    | inr e ↦
        let other : str_eq (part_key id i) (part_key id n) ≡ false =
          elim (Bool-cases (str_eq (part_key id i) (part_key id n))) [
            | inr f ↦ f
            | inl f ↦
                let same : i ≡ n = (part_key-injective id i id n ((eq_iff _ _).0 f)).1 in
                absurd (true≢false (sym (ground (arith, same)) ∙ e))
          ] in
        l (part_key id i) ∙ rw other (h i (ground (arith, k, e)))
  ]
  put_by id n s h (fails e, t) d l = d

  pub put_slice :
      {T : Tables → Type 0} {L : Locks → Type 0} (id n : ℕ)
      → Returns
          (Calm S T (Parts law req bytes id n) L)
          (stored {S = S}
            (S.put_object (part_key id n) (slice_of req.chunk_size (length bytes) bytes n)))
          (λ a. Calm S T (Parts law req bytes id (suc n)) L)
  put_slice id n =
      Ensures-weaken (λ w h. h) (λ a w h. h) no_objects
        (Calm-stored (λ a. Parts law req bytes id (suc n)) (λ s. ⊥) _
          (λ s h.
            put_by id n s h (S.put_object (part_key id n) _ s) (reliable.puts (part_key id n) _ s)
              (law.put (part_key id n) _ s)))

-- the sizes of slices
pub record IsSlice (req : InitRequest) (bytes : List ℕ) (n : ℕ) : Type 0 where
  pub filled : (length (slice_of req.chunk_size (length bytes) bytes n) == 0) ≡ false
  pub fits :
      (ltb req.chunk_size (length (slice_of req.chunk_size (length bytes) bytes n))
        || (not (suc n == req.chunk_count)
            && not (length (slice_of req.chunk_size (length bytes) bytes n) == req.chunk_size)))
      ≡ false

pub chunk-IsSlice :
    (sha256_hex : List ℕ → String) (req : InitRequest) (bytes : List ℕ) (n : ℕ)
    → IsHonest sha256_hex bytes req
    → n < req.chunk_count
    → IsSlice req bytes n
chunk-IsSlice sha256_hex req bytes n h l = elim (Bool-cases (suc n == req.chunk_count)) [
  | inl e ↦
      let last =
        length-slice_of_last req.chunk_size bytes n h.chunked h.not_empty
          (ground (arith, e, h.count)) in
      record { filled = ground (arith, last.0); fits = rw e (ground (arith, last.1)) }
  | inr e ↦
      let whole =
        length-slice_of req.chunk_size bytes n h.chunked (ground (arith, e, l, h.count)) in
      record { filled = ground (arith, whole, h.chunked); fits = rw e (ground (arith, whole)) }
]

not_known :
    (req : InitRequest) (id n : ℕ) (t : Tables)
    → Sent req id n n t
    → find (is_chunk_of id n) t.chunks ≡ none
not_known req id n t h = find-none (is_chunk_of id n) t.chunks (h.fresh n (omega arith))

-- the transaction
module _ {S : ObjectStore} {U : S.State → Type 0} {L : Locks → Type 0} (req : InitRequest)
    (id : ℕ) where
  record_new :
      (n : ℕ) (hash : String) (size now : ℕ)
      → Returns
          (Calm S (Sent req id n n) U L)
          (record_known (new_chunk id n hash size) now (fails not_found))
          (λ a. Calm S (Sent req id (suc n) (suc n)) U L)
  unfolding record_known
  record_new n hash size now =
      Ensures-then
        (Ensures-weaken (λ w h. h) (λ a w h. h) no_rows
          (Calm-statement {E = λ t. ⊥} {Q = λ a. Sent req id n (suc n)}
            (create_chunk (new_chunk id n hash size))
            (λ t h. Sent-create_chunk req id n hash size t h)))
        (λ a.
          Calm-change {Q = λ a. Sent req id (suc n) (suc n)} (count_chunk id now)
            (λ t h. Sent-count_chunk req id n now t h))

  pub unknown :
      (n : ℕ)
      → Returns
          (Calm S (Sent req id n n) U L)
          (attempt (first_row (λ t. find (is_chunk_of id n) t.chunks)))
          (λ r w. Calm S (Sent req id n n) U L w × (r ≡ fails not_found))
  unknown n =
      Calm-attempt (λ r. r ≡ fails not_found) (λ t. find (is_chunk_of id n) t.chunks)
        (λ t h. ap found (not_known req id n t h))

  pub recorded :
      (n : ℕ) (hash : String) (size now : ℕ)
      → Returns
          (Calm S (Sent req id n n) U L)
          (transaction (record_chunk (new_chunk id n hash size) now))
          (λ a. Calm S (Sent req id (suc n) (suc n)) U L)
  unfolding record_chunk
  recorded n hash size now =
      Calm-transaction
        (Ensures-bind (unknown n) (given (fails not_found) _ (record_new n hash size now)))

  -- the row of the upload, whatever it is
  pub reloaded :
      (n k : ℕ)
      → Returns
          (Calm S (Sent req id n k) U L)
          (upload_for_user id req.user_id)
          (λ a. Calm S (Sent req id n k) U L)
  unfolding upload_for_user
  reloaded n k =
      Ensures-weaken (λ w h. h) (λ a. Calm-weaken (λ t h. h.0)) (λ w h. h)
        (Calm-first _ (λ t h. (h.task, h.row)))
