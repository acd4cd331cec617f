-- ===== src/Server/Delivery/Opening.antt =====
-- backend/internal/service/service.go: `InitUpload` of a file that the service does not have opens an upload
-- without chunks.
use mathlib.Core.Bool.{true≢false}
use cloud_file.Base.{
  ℕ, ◌==◌, ◌<◌, ◌≡◌, refl, ap, Bool, true, false, ◌&&◌, String, List, [], ◌∷◌, ◌++◌, none, some,
  find, any, All, eq_refl, Bool-cases, inl, inr, arith,
}
use cloud_file.Server.Model.{UploadTask, UploadChunk, is_available}
use cloud_file.Server.Action.{not_found, fails}
use cloud_file.Server.Action.Rules.{Ensures-pure, Ensures-bind, Ensures-reads}
use cloud_file.Server.Storage.{ObjectStore}
use cloud_file.Server.World.{Tables, found}
use cloud_file.Server.World.Quiet.{Returns, given}
use cloud_file.Server.World.Calm.{Locks, Calm, Calm-change, Calm-attempt}
use cloud_file.Server.Rows.{
  InitRequest, InitAnswer, to_upload, is_upload_of, is_chunk_of, is_same_file, new_upload,
  create_upload,
}
use cloud_file.Server.Uploads.{init_known, init_upload}
use cloud_file.Server.Tables.{IsConsistent}
use cloud_file.Server.Tables.Steps.{IsConsistent-create_upload}
use cloud_file.Server.Delivery.{Sent}

find-add :
    {A : Type 0} (p : A → Bool) (rows : List A) (a : A)
    → any p rows ≡ false
    → p a ≡ true
    → find p (rows ++ a ∷ []) ≡ some a
find-add p [] a h e = rw e
find-add p (b ∷ rows) a h e = elim (Bool-cases (p b)) [
  | inl f ↦ absurd (true≢false (rw f at h))
  | inr f ↦ rw f (find-add p rows a (rw f at h) e)
]

no_upload_of :
    (n : ℕ) (user_id : String) (us : List UploadTask)
    → All (λ u. u.id < n) us
    → any (is_upload_of n user_id) us ≡ false
no_upload_of n user_id [] h = refl
no_upload_of n user_id (u ∷ us) (h, hs) =
    let e : (u.id == n) ≡ false = ground arith in rw (e, no_upload_of n user_id us hs)

no_chunk_of :
    (n i : ℕ) (rows : List UploadChunk)
    → All (λ r. r.upload_id < n) rows
    → any (is_chunk_of n i) rows ≡ false
no_chunk_of n i [] h = refl
no_chunk_of n i (r ∷ rows) (h, hs) =
    let e : (r.upload_id == n) ≡ false = ground arith in rw (e, no_chunk_of n i rows hs)

opened_row :
    (req : InitRequest) (now n : ℕ) → is_upload_of n req.user_id (new_upload req n now) ≡ true
opened_row req now n = let e : (n == n) ≡ true = ground arith in rw (e, eq_refl req.user_id)

-- the upload that was opened, and the tables with it
abbrev pub Opened : InitRequest → InitAnswer → Tables → Type 0
Opened req a t = (id : ℕ) × (a ≡ to_upload id) × Sent req id 0 0 t × IsConsistent t

create_upload-Sent :
    (req : InitRequest) (now : ℕ) (t : Tables)
    → IsConsistent t
    → Sent req t.next_id 0 0 (create_upload req now t).1
create_upload-Sent req now t h = record {
  task = new_upload req t.next_id now;
  row =
      find-add (is_upload_of t.next_id req.user_id) t.uploads (new_upload req t.next_id now)
        (no_upload_of t.next_id req.user_id t.uploads h.old_uploads) (opened_row req now t.next_id);
  sent = record {
    id_of = refl;
    open_still = refl;
    counted = refl;
    size = refl;
    count = refl;
    file_size = refl;
    hash = refl;
  };
  fresh = λ i l. no_chunk_of t.next_id i t.chunks h.old_chunks;
}

-- the service does not have the file
abbrev pub IsNew : InitRequest → Tables → Type 0
IsNew req t =
    find (λ m. is_same_file req.file_hash req.file_size m && is_available m.status) t.metas ≡ none

module _ {S : ObjectStore} {U : S.State → Type 0} {L : Locks → Type 0} (req : InitRequest) where
  created :
      (now : ℕ)
      → Returns
          (Calm S (λ t. IsNew req t × IsConsistent t) U L)
          (init_known req now (fails not_found))
          (λ a. Calm S (Opened req a) U L)
  unfolding init_known
  created now =
      Ensures-bind
        (Calm-change {Q = λ id t. Sent req id 0 0 t × IsConsistent t} (create_upload req now)
          (λ t h. (create_upload-Sent req now t h.1, IsConsistent-create_upload req now t h.1)))
        (λ id. Ensures-pure _ (λ w h. record {
          open_faults = h.open_faults;
          rows = (id, refl, h.rows.0, h.rows.1);
          objects = h.objects;
          locks = h.locks;
        }))

  pub init_upload-Opened :
      Returns
        (Calm S (λ t. IsNew req t × IsConsistent t) U L)
        (init_upload req)
        (λ a. Calm S (Opened req a) U L)
  unfolding init_upload
  init_upload-Opened =
      Ensures-bind {Q = λ now. Calm S (λ t. IsNew req t × IsConsistent t) U L}
        (Ensures-reads (λ w. w.now) (λ w h. h))
        (λ now.
          Ensures-bind (Calm-attempt (λ r. r ≡ fails not_found) _ (λ t h. ap found h.0))
            (given (fails not_found) _ (created now)))
