-- ===== src/Server/Delivery/Claiming.antt =====
-- backend/internal/service/service.go: `MergeUpload` of an upload all of whose chunks are there delivers its
-- bytes.
use mathlib.Core.Bool.{true≢false}
use mathlib.Core.Option.{some-injective}
use cloud_file.Base.{
  ℕ, ◌==◌, ◌≡◌, sym, subst, ◌∙◌, Bool, true, false, String, List, map, Option, none, some, length,
  any, str_eq, arith, if◌then◌else◌,
}
use cloud_file.Server.Model.{UploadTask, is_success}
use cloud_file.Server.Action.{failure, Outcome, done, fails, Action, writes, ◌>>=◌, ◌>>◌}
use cloud_file.Server.Action.Rules.{Ends, Ensures-bind, Ensures-then, Ensures-reads}
use cloud_file.Server.Storage.{ObjectStore, IsLawful, IsReliable}
use cloud_file.Server.World.{Config, Tables, World, release, find_rows}
use cloud_file.Server.World.Quiet.{Returns}
use cloud_file.Server.World.Calm.{
  Calm, Any, Calm-weaken, Calm-objects, Calm-change, Calm-find, Calm-first,
}
use cloud_file.Server.World.Calm.Calls.{Calm-acquire, passes_guard}
use cloud_file.Server.Keys.{merge_lock_key}
use cloud_file.Server.Rows.{InitRequest, uploaded_chunks}
use cloud_file.Server.Uploads.{upload_for_user}
use cloud_file.Server.Merge.Rows.{start_merge}
use cloud_file.Server.Merge.{
  Merged, merge_locked, merge_held, merge_upload, or_failed, fail_unless, compose_parts,
  merged_meta, finish_merged,
}
use cloud_file.Server.Tables.{IsConsistent}
use cloud_file.Server.Delivery.{IsHonest, Sent, Parts}
use cloud_file.Server.Delivery.Composed.{or_failed_done, fail_unless_true, compose_parts-Returns}
use cloud_file.Server.Delivery.Ready.{IsListed, IsClaimed, Claimed, start_merge-Claimed}
use cloud_file.Server.Delivery.Merging.{
  Row, IsDelivered, IsFiled, reload_upload-Returns, merged_meta-Returns, finish_merged-Returns,
}

else_branch :
    {W A : Type 0} {P : W → Type 0} {Q : A → W → Type 0} {n : Action W A} (b : Bool)
    (m : Action W A)
    → b ≡ false
    → Returns P n Q
    → Returns P (if b then m else n) Q
else_branch true m e h = absurd (true≢false e)
else_branch false m e h = h

module _ {S : ObjectStore} (law : IsLawful S) (reliable : IsReliable S law) (c : Config)
    (sha256_hex : List ℕ → String) (req : InitRequest) (bytes : List ℕ)
    (honest : IsHonest sha256_hex bytes req) (id : ℕ) where
  -- the merge, once the upload is claimed
  claimed :
      (now : ℕ) (task : UploadTask)
      → IsClaimed sha256_hex req bytes task
      → Returns
          (Calm S
            (λ t. Row id req.user_id task t × IsListed req bytes id (uploaded_chunks id t))
            (Parts law req bytes id req.chunk_count)
            Any)
          (or_failed c sha256_hex task (find_rows (uploaded_chunks id)) >>= λ rows.
            fail_unless c sha256_hex task
              (failure "uploaded chunk count mismatch")
              (length rows == task.chunk_count)
            >> (compose_parts c sha256_hex task (map (λ r. r.object_key) rows)
                >> (merged_meta c sha256_hex task >>= λ meta.
                    finish_merged c sha256_hex id req.user_id now task meta)))
          (λ m. Calm S (IsFiled req.user_id m) (IsDelivered law bytes m) Any)
  claimed now task k =
      Ensures-bind
        (or_failed_done c sha256_hex task
          (Calm-find (IsListed req bytes id) (uploaded_chunks id) (λ t h. h.1)))
        (λ rows. record {
          from = λ w h.
              (Ensures-then
                  (fail_unless_true c sha256_hex task _ _ (ground (arith, h.1.all, k.count)))
                  (λ _.
                    Ensures-then
                      (compose_parts-Returns law reliable c sha256_hex bytes task
                        (map (λ r. r.object_key) rows) k.size k.hash)
                      (λ _. Ensures-bind (merged_meta-Returns c sha256_hex task (λ t p. p)) (λ meta.
                        finish_merged-Returns law c sha256_hex bytes id req.user_id now task
                          meta)))).from
                w
                (Calm-objects (λ s p. h.1.whole (law.read s) p) w (Calm-weaken (λ t p. p.0) w h.0));
        })

  Claimed-by :
      (t : Tables) (h : Claimed sha256_hex req bytes id t) (task : UploadTask)
      → Row id req.user_id task t
      → IsClaimed sha256_hex req bytes task
  Claimed-by t h task e =
      subst (IsClaimed sha256_hex req bytes) (some-injective h.task task (sym h.row ∙ e)) h.claimed

  abbrev Whole : Tables → Type 0
  Whole t = Sent req id req.chunk_count req.chunk_count t × IsConsistent t

  merge_locked-Returns :
      Returns
        (Calm S Whole (Parts law req bytes id req.chunk_count) Any)
        (merge_locked c sha256_hex id req.user_id)
        (λ m. Calm S (IsFiled req.user_id m) (IsDelivered law bytes m) Any)
  unfolding merge_locked
  merge_locked-Returns =
      Ensures-bind {Q = λ now. Calm S Whole (Parts law req bytes id req.chunk_count) Any}
        (Ensures-reads (λ w. w.now) (λ w h. h))
        (λ now.
          Ensures-bind
            (Calm-change {Q = λ n t. (n ≡ 1) × Claimed sha256_hex req bytes id t}
              (start_merge id req.user_id now)
              (λ t h. start_merge-Claimed sha256_hex req bytes honest id now t h))
            (λ started. record {
              from = λ w h.
                  (Ensures-then (passes_guard _ _ (ground (arith, h.rows.0))) (λ _.
                      Ensures-bind
                        (reload_upload-Returns c sha256_hex id req.user_id (λ t k. (k.task, k.row)))
                        (λ task. record {
                          from = λ v k.
                              (claimed now task (Claimed-by v.tables k.rows.0 task k.rows.1)).from v
                                (Calm-weaken (λ t p. (p.1, p.0.listed)) v k);
                        }))).from
                    w (Calm-weaken (λ t p. p.1) w h);
            }))

  unlocked :
      (x : Outcome Merged × World S) (key value : String)
      → Ends (λ m. Calm S (IsFiled req.user_id m) (IsDelivered law bytes m) Any) (λ w. ⊥) x
      → Ends
          (λ m. Calm S (IsFiled req.user_id m) (IsDelivered law bytes m) Any)
          (λ w. ⊥)
          (x.0, (release key value x.1).1)
  unfolding release writes
  unlocked (done m, w) key value h = record {
    open_faults = h.open_faults;
    rows = h.rows;
    objects = h.objects;
    locks = tt;
  }
  unlocked (fails e, w) key value h = absurd h

  merge_held-Returns :
      (held : Option String)
      → (value : String) × (held ≡ some value)
      → Returns
          (Calm S Whole (Parts law req bytes id req.chunk_count) Any)
          (merge_held c sha256_hex id req.user_id held)
          (λ m. Calm S (IsFiled req.user_id m) (IsDelivered law bytes m) Any)
  unfolding merge_held
  merge_held-Returns none (value, e) = let bad : none ≡ some value = e in cc
  merge_held-Returns (some value) e = record {
    from = λ w h.
        unlocked (merge_locked c sha256_hex id req.user_id w) (merge_lock_key id) value
          (merge_locked-Returns.from w h);
  }

  not_merged :
      (t : Tables) (task : UploadTask)
      → Sent req id req.chunk_count req.chunk_count t
      → Row id req.user_id task t
      → is_success task.status ≡ false
  not_merged t task h e =
      subst (λ u. is_success u.status ≡ false) (some-injective h.task task (sym h.row ∙ e))
        (rw h.sent.open_still)

  pub merge_upload-Returns :
      Returns
        (Calm S
          (λ t. Sent req id req.chunk_count req.chunk_count t × IsConsistent t)
          (Parts law req bytes id req.chunk_count)
          (λ locks. any (λ l. str_eq l.0 (merge_lock_key id)) locks ≡ false))
        (merge_upload c sha256_hex id req.user_id)
        (λ m. Calm S (IsFiled req.user_id m) (IsDelivered law bytes m) Any)
  unfolding merge_upload upload_for_user
  merge_upload-Returns = Ensures-bind (Calm-first _ (λ t h. (h.0.task, h.0.row))) (λ task. record {
    from = λ w h.
        (else_branch _ _ (not_merged w.tables task h.rows.0.0 h.rows.1) (
            Ensures-bind (Calm-acquire c (merge_lock_key id) (λ locks l. l))
              (λ held. record { from = λ v k. (merge_held-Returns held k.1).from v k.0 }))).from
          w (Calm-weaken (λ t p. p.0) w h);
  })
