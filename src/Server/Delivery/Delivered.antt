-- ===== src/Server/Delivery/Delivered.antt =====
-- A whole upload goes through: announced by the console of frontend/src, sent slice by slice, and merged by
-- the service of backend/internal.
use cloud_file.Base.{
  ℕ, zero, suc, ◌≡◌, refl, sym, subst, false, String, List, [], Option, none, some, any, length,
  str_eq, arith,
}
use cloud_file.Base.Int.{pos}
use cloud_file.Api.{slice_of}
use cloud_file.Server.Action.{Outcome, done, fails}
use cloud_file.Server.Action.Rules.{
  Ends, Keeps, Ensures-pure, Ensures-bind, Ensures-then, Ensures-weaken, Ensures-both, Keeps-pure,
  Keeps-then,
}
use cloud_file.Server.Storage.{ObjectStore, IsLawful, IsReliable}
use cloud_file.Server.World.{Config, Tables, World}
use cloud_file.Server.World.Rules.{On}
use cloud_file.Server.World.Quiet.{Returns}
use cloud_file.Server.World.Calm.{Locks, Calm, Any}
use cloud_file.Server.Keys.{merge_lock_key}
use cloud_file.Server.Rows.{InitRequest, InitAnswer, to_upload}
use cloud_file.Server.Merge.{Merged}
use cloud_file.Server.Tables.{IsConsistent}
use cloud_file.Server.Tables.Chunks.{upload_chunk-Keeps}
use cloud_file.Server.Delivery.{
  IsHonest, Sent, Parts, send_slice, send_slices, deliver, deliver_file,
}
use cloud_file.Server.Delivery.Taken.{taken_from}
use cloud_file.Server.Delivery.Opening.{Opened, IsNew, init_upload-Opened}
use cloud_file.Server.Delivery.Merging.{IsDelivered, IsFiled}
use cloud_file.Server.Delivery.Claiming.{merge_upload-Returns}

-- the row of the user that there is
abbrev IsFiledAs : String → Option Merged → Tables → Type 0
IsFiledAs user_id none t = ⊥
IsFiledAs user_id (some m) t = IsFiled user_id m t

-- the merge that there was
abbrev pub IsDeliveredAs :
    {S : ObjectStore} → IsLawful S → List ℕ → Option Merged → S.State → Type 0
IsDeliveredAs law bytes none s = ⊥
IsDeliveredAs law bytes (some m) s = IsDelivered law bytes m s

-- where the calls of the file start: the service does not have it, and nothing is locked
pub record IsIdle (S : ObjectStore) (req : InitRequest) (w : World S) : Type 0 where
  pub open_faults : w.faults ≡ []
  pub fresh : IsNew req w.tables
  pub consistent : IsConsistent w.tables
  pub unlocked : w.locks ≡ []

module _ {S : ObjectStore} (law : IsLawful S) (reliable : IsReliable S law) (c : Config)
    (sha256_hex : List ℕ → String) (req : InitRequest) (bytes : List ℕ)
    (honest : IsHonest sha256_hex bytes req) where
  sent_slices-Keeps :
      (id i n : ℕ) → Keeps (On S IsConsistent) (send_slices c sha256_hex req bytes id i n)
  unfolding send_slices send_slice
  sent_slices-Keeps id i zero = Keeps-pure tt
  sent_slices-Keeps id i (suc n) =
      Keeps-then
        (upload_chunk-Keeps sha256_hex id req.user_id (pos i) ""
          (done (slice_of req.chunk_size (length bytes) bytes i)))
        (sent_slices-Keeps id (suc i) n)

  free :
      (id : ℕ) (locks : Locks)
      → locks ≡ []
      → any (λ l. str_eq l.0 (merge_lock_key id)) locks ≡ false
  free id locks e = rw e

  -- the slices of the upload that was opened
  slices_taken :
      (id : ℕ)
      → Returns
          (Calm S
            (λ t. Sent req id 0 0 t × IsConsistent t)
            (Parts law req bytes id 0)
            (λ locks. locks ≡ []))
          (send_slices c sha256_hex req bytes id 0 req.chunk_count)
          (λ a.
            Calm S
              (λ t. Sent req id req.chunk_count req.chunk_count t × IsConsistent t)
              (Parts law req bytes id req.chunk_count)
              (λ locks. any (λ l. str_eq l.0 (merge_lock_key id)) locks ≡ false))
  slices_taken id =
      Ensures-weaken (λ w h. h)
        (λ a w h. record {
          open_faults = h.0.open_faults;
          rows = (h.0.rows, h.1.rows);
          objects = h.0.objects;
          locks = free id w.locks h.0.locks;
        })
        (λ w h. h.0)
        (Ensures-both
          (Ensures-weaken
            (λ w h. record {
              open_faults = h.open_faults;
              rows = h.rows.0;
              objects = h.objects;
              locks = h.locks;
            })
            (λ a w h. h) (λ w h. h)
            (taken_from {L = λ locks. locks ≡ []} law reliable c sha256_hex req bytes honest id 0
              req.chunk_count (omega arith)))
          (Ensures-weaken (λ w h. record { rows = h.rows.1 }) (λ a w h. h) (λ w h. h)
            (sent_slices-Keeps id 0 req.chunk_count)))

  delivered_to :
      (id : ℕ)
      → Returns
          (Calm S
            (λ t. Sent req id 0 0 t × IsConsistent t)
            (Parts law req bytes id 0)
            (λ locks. locks ≡ []))
          (deliver c sha256_hex req bytes (to_upload id))
          (λ r. Calm S (IsFiledAs req.user_id r) (IsDeliveredAs law bytes r) Any)
  unfolding deliver
  delivered_to id =
      Ensures-bind
        (Ensures-then (slices_taken id)
          (λ _. merge_upload-Returns law reliable c sha256_hex req bytes honest id))
        (λ m. Ensures-pure _ (λ w h. h))

  delivered :
      (a : InitAnswer)
      → Returns
          (Calm S (Opened req a) Any (λ locks. locks ≡ []))
          (deliver c sha256_hex req bytes a)
          (λ r. Calm S (IsFiledAs req.user_id r) (IsDeliveredAs law bytes r) Any)
  delivered a = record {
    from = λ w h.
        (subst
            (λ b.
              Returns
                (Calm S (λ t. Sent req h.rows.0 0 0 t × IsConsistent t)
                  (Parts law req bytes h.rows.0 0) (λ locks. locks ≡ []))
                (deliver c sha256_hex req bytes b)
                (λ r. Calm S (IsFiledAs req.user_id r) (IsDeliveredAs law bytes r) Any))
            (sym h.rows.1) (delivered_to h.rows.0)).from
          w
          (record {
            open_faults = h.open_faults;
            rows = (h.rows.2, h.rows.3);
            objects = λ i l. absurd (omega (arith, l));
            locks = h.locks;
          });
  }

  IsDelivered-as :
      (x : Outcome (Option Merged) × World S)
      → Ends (λ r. Calm S (IsFiledAs req.user_id r) (IsDeliveredAs law bytes r) Any) (λ w. ⊥) x
      → (m : Merged) × (x.0 ≡ done (some m))
        × IsDelivered law bytes m x.1.objects
        × IsFiled req.user_id m x.1.tables
  IsDelivered-as (done (some m), w) h = (m, refl, h.objects, h.rows)
  IsDelivered-as (done none, w) h = absurd h.objects
  IsDelivered-as (fails e, w) h = absurd h

  -- A whole upload, by the console and the service together. The database refuses no statement, the store
  -- is lawful and reliable, the tables are consistent, nothing is locked, and the service does not have
  -- the file yet. The console announces the size, the hash and the number of chunks of a file with bytes,
  -- sends the slices in order, and asks for the merge. Then every call returns, the upload is finished,
  -- the store holds under its object key the bytes of the file, and the rows hold a file row of the user,
  -- the one of the answer, which names a row of files with the hash and the size of the upload.
  pub deliver_file-IsDelivered :
      (w : World S)
      → IsIdle S req w
      → (m : Merged) × ((deliver_file c sha256_hex req bytes w).0 ≡ done (some m))
        × IsDelivered law bytes m (deliver_file c sha256_hex req bytes w).1.objects
        × IsFiled req.user_id m (deliver_file c sha256_hex req bytes w).1.tables
  unfolding deliver_file
  deliver_file-IsDelivered w h = IsDelivered-as (deliver_file c sha256_hex req bytes w) (
      (Ensures-bind (init_upload-Opened req) delivered).from w (record {
        open_faults = h.open_faults;
        rows = (h.fresh, h.consistent);
        objects = tt;
        locks = h.unlocked;
      }))
