-- ===== src/Server/Delivery/Taken.antt =====
-- backend/internal/service/service.go: `UploadChunk` takes every slice that the console sends, one after
-- the other.
use mathlib.Core.Option.{some-injective}
use cloud_file.Base.{
  ℕ, zero, suc, ◌+◌, ◌<◌, ◌≡◌, refl, sym, subst, ◌∙◌, true, String, List, length, ltb, arith,
}
use cloud_file.Base.Int.{pos}
use cloud_file.Api.{slice_of}
use cloud_file.Server.Model.{UploadTask}
use cloud_file.Server.Action.{not_found, done, fails, pure, ◌>>◌}
use cloud_file.Server.Action.Rules.{Ensures-pure, Ensures-bind, Ensures-then, Ensures-reads}
use cloud_file.Server.Storage.{ObjectStore, IsLawful, IsReliable}
use cloud_file.Server.World.Quiet.{Returns, given}
use cloud_file.Server.World.Calm.{Locks, Calm, Calm-weaken}
use cloud_file.Server.World.Calm.Calls.{passes_guard}
use cloud_file.Server.Rows.{InitRequest}
use cloud_file.Server.Uploads.{
  upload_for_user, receive_chunk, admit_known, admit_index, admit_chunk, upload_chunk,
}
use cloud_file.Server.Ledger.Guards.{lifted}
use cloud_file.Server.Delivery.{IsHonest, IsSent, Sent, Parts, send_slice}
use cloud_file.Server.World.Calm.{Calm-first}
use cloud_file.Server.World.{Config}
use cloud_file.Server.Delivery.{send_slices}
use cloud_file.Server.Delivery.Sending.{put_slice, chunk-IsSlice, unknown, recorded, reloaded}

-- the slice of an upload that is open
module _ {S : ObjectStore} {L : Locks → Type 0} (law : IsLawful S) (reliable : IsReliable S law)
    (c : Config) (sha256_hex : List ℕ → String) (req : InitRequest) (bytes : List ℕ)
    (honest : IsHonest sha256_hex bytes req) where
  taken :
      (task : UploadTask) (n : ℕ)
      → IsSent req task.id n task
      → n < req.chunk_count
      → Returns
          (Calm S (Sent req task.id n n) (Parts law req bytes task.id n) L)
          (receive_chunk sha256_hex task req.user_id n ""
            (done (slice_of req.chunk_size (length bytes) bytes n)))
          (λ a. Calm S (Sent req task.id (suc n) (suc n)) (Parts law req bytes task.id (suc n)) L)
  unfolding receive_chunk ◌>>◌
  taken task n s l =
      let slice = slice_of req.chunk_size (length bytes) bytes n in
      let sizes = chunk-IsSlice sha256_hex req bytes n honest l in
      lifted slice _ (
        Ensures-bind (passes_guard _ _ sizes.filled) (λ _.
          Ensures-bind (passes_guard _ _ (rw (s.size, s.count) sizes.fits)) (λ _.
            Ensures-bind (passes_guard _ _ refl) (λ _.
              Ensures-bind (put_slice law reliable req bytes task.id n) (λ _.
                Ensures-bind
                  {Q = λ now. Calm S (Sent req task.id n n) (Parts law req bytes task.id (suc n)) L}
                  (Ensures-reads (λ w. w.now) (λ w h. h))
                  (λ now. Ensures-bind (recorded req task.id n "" (length slice) now) (λ _.
                    Ensures-bind (reloaded req task.id (suc n) (suc n))
                      (λ latest. Ensures-pure _ (λ w h. h)))))))))

  admitted :
      (task : UploadTask) (n : ℕ)
      → IsSent req task.id n task
      → n < req.chunk_count
      → Returns
          (Calm S (Sent req task.id n n) (Parts law req bytes task.id n) L)
          (admit_chunk sha256_hex task req.user_id
            (pos n)
            ""
            (done (slice_of req.chunk_size (length bytes) bytes n)))
          (λ a. Calm S (Sent req task.id (suc n) (suc n)) (Parts law req bytes task.id (suc n)) L)
  unfolding admit_chunk admit_index admit_known
  admitted task n s l =
      let below : ltb n task.chunk_count ≡ true = rw s.count (ground (arith, l)) in
      rw (s.open_still, below)
        (Ensures-bind (unknown req task.id n) (given (fails not_found) _ (taken task n s l)))

  -- the same, for an upload found by its id
  admitted_as :
      (task : UploadTask) (id n : ℕ)
      → task.id ≡ id
      → IsSent req id n task
      → n < req.chunk_count
      → Returns
          (Calm S (Sent req id n n) (Parts law req bytes id n) L)
          (admit_chunk sha256_hex task req.user_id
            (pos n)
            ""
            (done (slice_of req.chunk_size (length bytes) bytes n)))
          (λ a. Calm S (Sent req id (suc n) (suc n)) (Parts law req bytes id (suc n)) L)
  admitted_as task id n e s l =
      subst
        (λ i.
          IsSent req i n task
          → Returns (Calm S (Sent req i n n) (Parts law req bytes i n) L)
              (admit_chunk sha256_hex task req.user_id (pos n) ""
                (done (slice_of req.chunk_size (length bytes) bytes n)))
              (λ a. Calm S (Sent req i (suc n) (suc n)) (Parts law req bytes i (suc n)) L))
        e (λ s. admitted task n s l) s

  -- one slice
  sent :
      (id n : ℕ)
      → n < req.chunk_count
      → Returns
          (Calm S (Sent req id n n) (Parts law req bytes id n) L)
          (send_slice c sha256_hex req bytes id n)
          (λ a. Calm S (Sent req id (suc n) (suc n)) (Parts law req bytes id (suc n)) L)
  unfolding send_slice upload_chunk upload_for_user
  sent id n l = Ensures-bind (Calm-first _ (λ t h. (h.task, h.row))) (λ task. record {
    from = λ w h.
        let s : IsSent req id n task =
          subst (IsSent req id n) (some-injective h.rows.0.task task (sym h.rows.0.row ∙ h.rows.1))
            h.rows.0.sent in
        (admitted_as task id n s.id_of s l).from w (Calm-weaken (λ t k. k.0) w h);
  })

  -- Of an upload that is open, with the rows and the parts of its first `n` slices: the next ones.
  pub taken_from :
      (id n left : ℕ)
      → n + left ≡ req.chunk_count
      → Returns
          (Calm S (Sent req id n n) (Parts law req bytes id n) L)
          (send_slices c sha256_hex req bytes id n left)
          (λ a.
            Calm S
              (Sent req id req.chunk_count req.chunk_count)
              (Parts law req bytes id req.chunk_count)
              L)
  unfolding send_slices
  taken_from id n zero e =
      let all : n ≡ req.chunk_count = omega (arith, e) in
      subst
        (λ m.
          Returns (Calm S (Sent req id n n) (Parts law req bytes id n) L) (pure tt)
            (λ a. Calm S (Sent req id m m) (Parts law req bytes id m) L))
        all (Ensures-pure tt (λ w h. h))
  taken_from id n (suc left) e =
      Ensures-then (sent id n (omega (arith, e)))
        (λ a. taken_from id (suc n) left (omega (arith, e)))
