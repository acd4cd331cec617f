-- ===== src/Server/Tables/Handled.antt =====
-- backend/internal/service/service.go: what every request keeps but those that open an upload or send a chunk.
use cloud_file.Base.{
  ℕ, ◌≡◌, Bool, true, false, String, List, [], ◌∷◌, refl, arith, if◌then◌else◌, ◌==◌, Bool-cases,
  inl, inr,
}
use cloud_file.Server.Model.{UploadTask, UserFile, MediaTask}
use cloud_file.Server.Action.{Outcome, done, fails, Action, ignore}
use cloud_file.Server.Action.Rules.{
  Keeps, keeps_rules, Keeps-bind, Keeps-then, Keeps-pure, Keeps-ignore, Ensures, Ensures-weaken,
  Ensures-ignore,
}
use cloud_file.Server.Storage.{ObjectStore}
use cloud_file.Server.World.{Config, Tables, World, change}
use cloud_file.Server.World.Rules.{On, Keeps-change, rows_rules}
use cloud_file.Server.Rows.{InitRequest}
use cloud_file.Server.Media.{ack, start_media, end_media, run_started, run_media_task, media_task}
use cloud_file.Server.Compensate.{
  Counts, set_upload, set_media, set_repaired, set_reset, object_hash, is_composed, repair_upload,
  retry_media, publish_pending, compensate, repair_key,
}
use cloud_file.Server.Files.{
  preload_files, list_files, file_for_user, download_file, remove_counted, delete_rows,
  delete_physical_file, delete_media, delete_refs, delete_meta,
}
use cloud_file.Server.Routes.{
  Request, init_request, status_request, chunk_request, merge_request, list_request,
  download_request, delete_request, media_request, run_request, compensate_request, handle,
}
use cloud_file.Server.Tables.Merges.{Keeps-transaction, merge_upload-Keeps}
use cloud_file.Server.Uploads.{upload_for_user, init_upload, upload_status, upload_chunk}
use cloud_file.Base.Int.{ℤ}
use cloud_file.Server.Tables.Stable.{IsStable}

-- the reset of an upload leaves its id and its counts
module _ (upload u : UploadTask) where
  reset_id : (set_reset upload u).id ≡ u.id
  reset_id = elim (Bool-cases (upload.uploaded_count == upload.chunk_count)) [
    | inl e ↦ rw e
    | inr e ↦ rw e
  ]

  reset_user : (set_reset upload u).user_id ≡ u.user_id
  reset_user = elim (Bool-cases (upload.uploaded_count == upload.chunk_count)) [
    | inl e ↦ rw e
    | inr e ↦ rw e
  ]

  reset_size : (set_reset upload u).chunk_size ≡ u.chunk_size
  reset_size = elim (Bool-cases (upload.uploaded_count == upload.chunk_count)) [
    | inl e ↦ rw e
    | inr e ↦ rw e
  ]

  reset_count : (set_reset upload u).uploaded_count ≡ u.uploaded_count
  reset_count = elim (Bool-cases (upload.uploaded_count == upload.chunk_count)) [
    | inl e ↦ rw e
    | inr e ↦ rw e
  ]

  reset_chunks : (set_reset upload u).chunk_count ≡ u.chunk_count
  reset_chunks = elim (Bool-cases (upload.uploaded_count == upload.chunk_count)) [
    | inl e ↦ rw e
    | inr e ↦ rw e
  ]

module _ {S : ObjectStore} {T : Tables → Type 0} (stable : IsStable T) where
  pub upload_status-Keeps : (id : ℕ) (user_id : String) → Keeps (On S T) (upload_status id user_id)
  unfolding upload_status upload_for_user
  upload_status-Keeps id user_id = search (keeps_rules, rows_rules)

  -- a change that touches neither uploads nor chunks nor ids
  Keeps-beside :
      {A : Type 0} (f : Tables → A × Tables)
      → ((t : Tables) → (f t).1.uploads ≡ t.uploads)
      → ((t : Tables) → (f t).1.chunks ≡ t.chunks)
      → ((t : Tables) → (f t).1.next_id ≡ t.next_id)
      → Keeps (On S T) (change f)
  Keeps-beside f us cs ids =
      Keeps-change f (λ t h. stable.grow t (f t).1 (us t) (cs t) (omega (arith, ids t)) h)

  delete_rows-Keeps : (id : ℕ) → Keeps (On S T) (delete_rows id)
  unfolding delete_rows
  delete_rows-Keeps id =
      Keeps-then (Keeps-beside (delete_media id) (λ t. refl) (λ t. refl) (λ t. refl)) (
        Keeps-bind (Keeps-beside (delete_refs id) (λ t. refl) (λ t. refl) (λ t. refl)) (λ n.
          Keeps-then (Keeps-beside (delete_meta id) (λ t. refl) (λ t. refl) (λ t. refl))
            (Keeps-pure n)))

  preload-Keeps : (files : List UserFile) → Keeps (On S T) (preload_files files)
  unfolding preload_files
  preload-Keeps [] = search keeps_rules
  preload-Keeps (f ∷ files) = search rows_rules

  pub list_files-Keeps : (user_id : String) → Keeps (On S T) (list_files user_id)
  unfolding list_files
  list_files-Keeps user_id = search (keeps_rules, rows_rules, preload-Keeps)

  pub delete-Keeps : (user_id : String) (id : ℕ) → Keeps (On S T) (delete_physical_file user_id id)
  unfolding delete_physical_file file_for_user remove_counted
  delete-Keeps user_id id =
      search (keeps_rules, rows_rules, Keeps-transaction, delete_rows-Keeps) depth 20

  pub download-Keeps : (user_id : String) (id : ℕ) → Keeps (On S T) (download_file user_id id)
  unfolding download_file file_for_user
  download-Keeps user_id id = search (keeps_rules, rows_rules) depth 10

  Keeps-set_media :
      (id : ℕ) (f : MediaTask → MediaTask) (now : ℕ) → Keeps (On S T) (change (set_media id f now))
  Keeps-set_media id f now = Keeps-beside _ (λ t. refl) (λ t. refl) (λ t. refl)

  end_media-Keeps :
      (task : MediaTask) (now : ℕ) (r : Outcome (Unit {0})) → Keeps (On S T) (end_media task now r)
  unfolding end_media
  end_media-Keeps task now (done x) =
      Keeps-then (Keeps-beside _ (λ t. refl) (λ t. refl) (λ t. refl)) (Keeps-pure ack)
  end_media-Keeps task now (fails e) =
      Keeps-then (Keeps-ignore (Keeps-beside _ (λ t. refl) (λ t. refl) (λ t. refl))) (Keeps-pure _)

  Keeps-start_media : (id now : ℕ) → Keeps (On S T) (change (start_media id now))
  Keeps-start_media id now = Keeps-beside _ (λ t. refl) (λ t. refl) (λ t. refl)

  pub media_task-Keeps : (id : ℕ) → Keeps (On S T) (media_task id)
  unfolding media_task
  media_task-Keeps id = search (keeps_rules, rows_rules)

  run_started-Keeps :
      (process : MediaTask → Action S.State (Unit {0})) (id : ℕ)
      → Keeps (On S T) (run_started {S = S} process id)
  unfolding run_started
  run_started-Keeps process id = search (keeps_rules, rows_rules, end_media-Keeps)

  pub run_media-Keeps :
      (process : MediaTask → Action S.State (Unit {0})) (id : ℕ)
      → Keeps (On S T) (run_media_task {S = S} process id)
  unfolding run_media_task
  run_media-Keeps process id =
      search (keeps_rules, rows_rules, Keeps-start_media, run_started-Keeps) depth 10

module _ {S : ObjectStore} {T : Tables → Type 0} (stable : IsStable T) (c : Config)
    (sha256_hex : List ℕ → String) where
  is_composed-Keeps : (upload : UploadTask) → Keeps (On S T) (is_composed c sha256_hex upload)
  unfolding is_composed object_hash
  is_composed-Keeps upload = search (keeps_rules, rows_rules) depth 16

  retry_media-Keeps :
      (task : MediaTask) (counts : Counts) → Keeps (On S T) (retry_media c sha256_hex task counts)
  unfolding retry_media
  retry_media-Keeps task counts = search (keeps_rules, rows_rules, Keeps-set_media) depth 12

  publish-Keeps :
      (task : MediaTask) (counts : Counts)
      → Keeps (On S T) (publish_pending c sha256_hex task counts)
  unfolding publish_pending
  publish-Keeps task counts = search (keeps_rules, rows_rules)

  Keeps-set_upload :
      (whole : Bool) (upload : UploadTask) (now : ℕ)
      → Keeps (On S T) (
          change (
            set_upload upload.id
              (if whole then set_repaired (repair_key upload) else set_reset upload)
              now))
  Keeps-set_upload true upload now =
      Keeps-change _
        (λ t h. stable.update t _ _ (λ u. refl) (λ u. refl) (λ u. refl) (λ u. refl) (λ u. refl) h)
  Keeps-set_upload false upload now = Keeps-change _ (λ t h.
      stable.update t _ _ (λ u. reset_id upload u) (λ u. reset_user upload u)
        (λ u. reset_count upload u) (λ u. reset_size upload u) (λ u. reset_chunks upload u) h)

  repair_upload-Keeps :
      (upload : UploadTask) (counts : Counts)
      → Keeps (On S T) (repair_upload c sha256_hex upload counts)
  unfolding repair_upload
  repair_upload-Keeps upload counts = search (keeps_rules, is_composed-Keeps, Keeps-set_upload)

  pub compensate-Keeps : Keeps (On S T) (compensate c sha256_hex)
  unfolding compensate
  compensate-Keeps =
      search (keeps_rules, rows_rules, repair_upload-Keeps, retry_media-Keeps, publish-Keeps) depth
        16

-- What a request leads to, which is answered in any case: the requests that open an upload or send a chunk are given, and the others
-- keep the rows.
module _ {S : ObjectStore} {T : Tables → Type 0} (stable : IsStable T) (c : Config)
    (sha256_hex : List ℕ → String) (process : MediaTask → Action S.State (Unit {0}))
    (M : Request → World S → Type 0) (kept : (r : Request) (w : World S) → On S T w → M r w) where
  led :
      {A : Type 0} (r : Request) {m : Action (World S) A}
      → Keeps (On S T) m
      → Ensures (On S T) (ignore m) (λ a. M r) (λ w. ⊥)
  led r km = Ensures-ignore (Ensures-weaken (λ w h. h) (λ a. kept r) (kept r) km)

  pub handle-Ensures :
      ((req : InitRequest)
        → Ensures
            (On S T)
            (init_upload {S = S} req)
            (λ a. M (init_request req))
            (M (init_request req)))
      → ((id : ℕ) (user_id : String) (i : ℤ) (hash : String) (file : Outcome (List ℕ))
          → Ensures
              (On S T)
              (upload_chunk {S = S} sha256_hex id user_id i hash file)
              (λ a. M (chunk_request id user_id i hash file))
              (M (chunk_request id user_id i hash file)))
      → (r : Request) → Ensures (On S T) (handle {S = S} c sha256_hex process r) (λ a. M r) (λ w. ⊥)
  unfolding handle
  handle-Ensures opens chunks (init_request req) = Ensures-ignore (opens req)
  handle-Ensures opens chunks (status_request id user_id) =
      led _ (upload_status-Keeps stable id user_id)
  handle-Ensures opens chunks (chunk_request id user_id index hash file) =
      Ensures-ignore (chunks id user_id index hash file)
  handle-Ensures opens chunks (merge_request id user_id) =
      led _ (merge_upload-Keeps stable c sha256_hex id user_id)
  handle-Ensures opens chunks (list_request user_id) = led _ (list_files-Keeps stable user_id)
  handle-Ensures opens chunks (download_request user_id id) =
      led _ (download-Keeps stable user_id id)
  handle-Ensures opens chunks (delete_request user_id id) = led _ (delete-Keeps stable user_id id)
  handle-Ensures opens chunks (media_request id) = led _ (media_task-Keeps stable id)
  handle-Ensures opens chunks (run_request id) =
      led _ (Keeps-then (run_media-Keeps stable process id) (media_task-Keeps stable id))
  handle-Ensures opens chunks compensate_request = led _ (compensate-Keeps stable c sha256_hex)

module _ {S : ObjectStore} {T : Tables → Type 0} (stable : IsStable T) (c : Config)
    (sha256_hex : List ℕ → String) (process : MediaTask → Action S.State (Unit {0})) where
  pub handle-Keeps :
      ((req : InitRequest) → Keeps (On S T) (init_upload {S = S} req))
      → ((id : ℕ) (user_id : String) (i : ℤ) (hash : String) (file : Outcome (List ℕ))
          → Keeps (On S T) (upload_chunk {S = S} sha256_hex id user_id i hash file))
      → (r : Request) → Keeps (On S T) (handle {S = S} c sha256_hex process r)
  handle-Keeps opens chunks r =
      Ensures-weaken (λ w h. h) (λ a w h. h) (λ w h. absurd h)
        (handle-Ensures stable c sha256_hex process (λ r. On S T) (λ r w h. h) opens chunks r)
