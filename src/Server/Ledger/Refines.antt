-- ===== src/Server/Ledger/Refines.antt =====
-- backend/internal: the service does what the ledger allows, request by request.
use cloud_file.Base.{
  ℕ, ◌==◌, ◌<◌, ◌≡◌, refl, ap, sym, ◌∙◌, subst, true, false, String, List, [], ◌∷◌, find, any, some,
  arith, All,
}
use cloud_file.Base.Int.{ℤ}
use cloud_file.Server.Model.{UploadTask, UploadChunk, FileMeta, MediaTask}
use cloud_file.Server.Action.{not_found, failure, Outcome, done, fails, Action, for_each}
use cloud_file.Server.Action.Rules.{
  Ends, Ensures, Keeps, Ensures-pure, Ensures-bind, Ensures-weaken, Ensures-then, Ensures-both,
  keeps_rules,
}
use cloud_file.Server.Storage.{ObjectStore}
use cloud_file.Server.World.{Config, Tables, World, change}
use cloud_file.Server.World.Rules.{On, Ensures-change, Ensures-first, rows_rules}
use cloud_file.Server.Rows.{InitRequest, is_upload_of, create_upload}
use cloud_file.Server.Uploads.{upload_for_user, upload_chunk, init_known, init_upload}
use cloud_file.Server.Routes.{Request, init_request, chunk_request, handle, handle_all}
use cloud_file.Server.Tables.{IsConsistent}
use cloud_file.Server.Tables.Stable.{IsStable}
use cloud_file.Server.Tables.Merges.{Keeps-create_user_file}
use cloud_file.Server.Tables.Handled.{handle-Ensures}
use cloud_file.Server.Tables.Requests.{IsConsistent-IsStable, handle-IsConsistent}
use cloud_file.Server.Ledger.{
  Ledger, ledger, Has, Meets, is_open_as, is_received, Allows, opens, AllowsAll, stop, step,
}
use cloud_file.Server.Ledger.Rows.{
  ledger_same, ledger-update, ledger-create_upload, find-any, find-test,
}
use cloud_file.Server.Ledger.Guards.{Meets-nothing, admitted}

-- an upload that a query found was opened
opened_by :
    (id : ℕ) (user_id : String) (task : UploadTask) (t : Tables)
    → find (is_upload_of id user_id) t.uploads ≡ some task
    → (ledger t).opened task.id user_id task.chunk_size task.chunk_count ≡ true
opened_by id user_id task t e =
    let mine : is_upload_of id user_id task ≡ true = find-test _ t.uploads task e in
    find-any (is_open_as task.id user_id task.chunk_size task.chunk_count) _ t.uploads task e
      (ground (arith, mine))

found_id :
    (id : ℕ) (user_id : String) (task : UploadTask)
    → is_upload_of id user_id task ≡ true
    → id ≡ task.id
found_id id user_id task h = ground (arith, h)

Has-IsStable : (l : Ledger) → IsStable (Has l)
Has-IsStable l = record {
  grow = λ t t' e f n h. ledger_same t t' e f ∙ h;
  update =
      λ t test f ids users counts sizes chunks h. ledger-update t test f ids users sizes chunks ∙ h;
}

module _ {S : ObjectStore} (sha256_hex : List ℕ → String) (l : Ledger) where
  upload_chunk-Meets :
      (id : ℕ) (user_id : String) (i : ℤ) (hash : String) (file : Outcome (List ℕ))
      → Ensures
          (On S (Has l))
          (upload_chunk sha256_hex id user_id i hash file)
          (λ a. On S (Meets sha256_hex l (chunk_request id user_id i hash file)))
          (On S (Meets sha256_hex l (chunk_request id user_id i hash file)))
  unfolding upload_chunk upload_for_user
  upload_chunk-Meets id user_id i hash file =
      let req = chunk_request id user_id i hash file in
      Ensures-bind
        (Ensures-weaken (λ w h. h) (λ a w h. h)
          (λ w h. record { rows = Meets-nothing sha256_hex l req w.tables h.rows })
          (Ensures-first (λ t. find (is_upload_of id user_id) t.uploads)))
        (λ task. record {
          from = λ w h.
              let same : id ≡ task.id =
                found_id id user_id task (find-test _ w.tables.uploads task h.rows.1) in
              let o = opened_by id user_id task w.tables h.rows.1 in
              (admitted sha256_hex l req task user_id i hash file
                  (ap (λ n. chunk_request n user_id i hash file) same)
                  (subst (λ m. m.opened task.id user_id task.chunk_size task.chunk_count ≡ true)
                    h.rows.0 o)).from
                w (record { rows = h.rows.0 });
        })

-- the rows, consistent, have that ledger
abbrev Kept : Ledger → Tables → Type 0
Kept l t = Has l t × IsConsistent t

Kept-IsStable : (l : Ledger) → IsStable (Kept l)
Kept-IsStable l =
    let a = Has-IsStable l in
    let b = IsConsistent-IsStable in
    record {
      grow = λ t t' e f n h. (a.grow t t' e f n h.0, b.grow t t' e f n h.1);
      update = λ t test f ids users counts sizes chunks h. (
        a.update t test f ids users counts sizes chunks h.0,
        b.update t test f ids users counts sizes chunks h.1,
      );
    }

-- the next id is of no upload, and of no chunk
not_opened :
    (n : ℕ) (user_id : String) (size count : ℕ) (us : List UploadTask)
    → All (λ u. u.id < n) us
    → any (is_open_as n user_id size count) us ≡ false
not_opened n user_id size count [] h = refl
not_opened n user_id size count (u ∷ us) (h, hs) =
    let e : (u.id == n) ≡ false = ground arith in rw (e, not_opened n user_id size count us hs)

not_received :
    (n i : ℕ) (rows : List UploadChunk)
    → All (λ r. r.upload_id < n) rows
    → any (is_received n i) rows ≡ false
not_received n i [] h = refl
not_received n i (r ∷ rows) (h, hs) =
    let e : (r.upload_id == n) ≡ false = ground arith in rw (e, not_received n i rows hs)

opens_next :
    (sha256_hex : List ℕ → String) (req : InitRequest) (now : ℕ) (t : Tables)
    → IsConsistent t
    → Allows sha256_hex (ledger t) (init_request req) (ledger (create_upload req now t).1)
opens_next sha256_hex req now t h =
    subst (Allows sha256_hex (ledger t) (init_request req)) (sym (ledger-create_upload req now t)) (
      opens req t.next_id
        (λ user_id size count. not_opened t.next_id user_id size count t.uploads h.old_uploads)
        (λ i. not_received t.next_id i t.chunks h.old_chunks))

module _ {S : ObjectStore} (sha256_hex : List ℕ → String) (l : Ledger) where
  left : (req : Request) (w : World S) → On S (Kept l) w → On S (Meets sha256_hex l req) w
  left req w h = record { rows = Meets-nothing sha256_hex l req w.tables h.rows.0 }

  unmoved :
      {A : Type 0} (req : Request) {m : Action (World S) A}
      → Keeps (On S (Kept l)) m
      → Ensures
          (On S (Kept l))
          m
          (λ a. On S (Meets sha256_hex l req))
          (On S (Meets sha256_hex l req))
  unmoved req h = Ensures-weaken (λ w h. h) (λ a. left req) (left req) h

  opened_next :
      (req : InitRequest) (now : ℕ)
      → Ensures
          (On S (Kept l))
          (change (create_upload req now))
          (λ a. On S (Meets sha256_hex l (init_request req)))
          (On S (Meets sha256_hex l (init_request req)))
  opened_next req now =
      Ensures-change (create_upload req now)
        (λ t h.
          subst (λ m. Allows sha256_hex m (init_request req) (ledger (create_upload req now t).1))
            h.0 (opens_next sha256_hex req now t h.1))
        (λ t h. Meets-nothing sha256_hex l (init_request req) t h.0)

  init_known-Meets :
      (req : InitRequest) (now : ℕ) (known : Outcome FileMeta)
      → Ensures
          (On S (Kept l))
          (init_known req now known)
          (λ a. On S (Meets sha256_hex l (init_request req)))
          (On S (Meets sha256_hex l (init_request req)))
  unfolding init_known
  init_known-Meets req now (done meta) =
      unmoved _ (search (keeps_rules, Keeps-create_user_file (Kept-IsStable l)))
  init_known-Meets req now (fails not_found) =
      Ensures-bind (opened_next req now) (λ id. Ensures-pure _ (λ w h. h))
  init_known-Meets req now (fails (failure e)) = unmoved _ (search keeps_rules)

  init_upload-Meets :
      (req : InitRequest)
      → Ensures
          (On S (Kept l))
          (init_upload req)
          (λ a. On S (Meets sha256_hex l (init_request req)))
          (On S (Meets sha256_hex l (init_request req)))
  unfolding init_upload
  init_upload-Meets req =
      Ensures-bind {Q = λ now. On S (Kept l)}
        (Ensures-weaken (λ w h. h) (λ a w h. h) (left _) (search keeps_rules))
        (λ now.
          Ensures-bind {Q = λ known. On S (Kept l)}
            (Ensures-weaken (λ w h. h) (λ a w h. h) (left _) (search (keeps_rules, rows_rules)))
            (init_known-Meets req now))

module _ {S : ObjectStore} (c : Config) (sha256_hex : List ℕ → String)
    (process : MediaTask → Action S.State (Unit {0})) where
  handle-Meets :
      (l : Ledger) (req : Request)
      → Ensures
          (On S (Kept l))
          (handle {S = S} c sha256_hex process req)
          (λ a. On S (λ t. Meets sha256_hex l req t × IsConsistent t))
          (λ w. ⊥)
  handle-Meets l req =
      Ensures-weaken (λ w h. h) (λ a w h. record { rows = (h.0.rows, h.1.rows) }) (λ w h. h.0)
        (Ensures-both
          (handle-Ensures (Kept-IsStable l) c sha256_hex process
            (λ req. On S (Meets sha256_hex l req)) (left sha256_hex l)
            (init_upload-Meets sha256_hex l)
            (λ id user_id i hash file.
              Ensures-weaken (λ w h. record { rows = h.rows.0 }) (λ a w h. h) (λ w h. h)
                (upload_chunk-Meets sha256_hex l id user_id i hash file))
            req)
          (Ensures-weaken (λ w h. record { rows = h.rows.1 }) (λ a w h. h) (λ w h. h)
            (handle-IsConsistent c sha256_hex process req)))

  handle_all-AllowsAll :
      (requests : List Request) (l : Ledger)
      → Ensures
          (On S (Kept l))
          (handle_all {S = S} c sha256_hex process requests)
          (λ a. On S (λ t. AllowsAll sha256_hex l requests (ledger t)))
          (λ w. ⊥)
  unfolding handle_all for_each
  handle_all-AllowsAll [] l = Ensures-pure tt (λ w h. record {
    rows = subst (λ m. AllowsAll sha256_hex m [] (ledger w.tables)) h.rows.0 (stop _);
  })
  handle_all-AllowsAll (req ∷ rest) l = Ensures-then (handle-Meets l req) (λ _. record {
    from = λ w h.
        (Ensures-weaken (λ v k. k)
            (λ a v k. record {
              rows = step l (ledger w.tables) (ledger v.tables) req rest h.rows.0 k.rows;
            })
            (λ v k. k) (handle_all-AllowsAll rest (ledger w.tables))).from
          w (record { rows = (refl, h.rows.1) });
  })

  allowed :
      (requests : List Request) (l : Ledger) (x : Outcome (Unit {0}) × World S)
      → Ends (λ a. On S (λ t. AllowsAll sha256_hex l requests (ledger t))) (λ w. ⊥) x
      → AllowsAll sha256_hex l requests (ledger x.1.tables)
  allowed requests l (done a, w) h = h.rows
  allowed requests l (fails e, w) h = absurd h

  -- Refinement. Whatever requests arrive, whatever statements the database refuses and whatever the
  -- store does: from consistent tables, the ledger of the rows moves as its specification allows. That
  -- is, an upload is opened only by an init request, under an id that was not given before, and a chunk
  -- is received only by a request of the user who opened the upload, for an announced index, with bytes
  -- of an announced size and of the hash that the request states, if it states one. Nothing else is
  -- opened or received, and nothing is lost.
  pub handle_all-refines :
      (requests : List Request) (w : World S)
      → IsConsistent w.tables
      → AllowsAll sha256_hex
          (ledger w.tables)
          requests
          (ledger (handle_all {S = S} c sha256_hex process requests w).1.tables)
  handle_all-refines requests w h =
      allowed requests (ledger w.tables) (handle_all c sha256_hex process requests w)
        ((handle_all-AllowsAll requests (ledger w.tables)).from w (record { rows = (refl, h) }))
