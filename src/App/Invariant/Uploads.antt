-- ===== src/App/Invariant/Uploads.antt =====
-- The way of a file keeps the invariant of all tasks.
use cloud_file.Base.{
  ℕ, ◌≡◌, refl, Bool, true, false, String, List, [], ◌∷◌, if◌then◌else◌, Option-cases, inl, inr,
}
use cloud_file.Ratio.{Ratio}
use cloud_file.Types.{File, UploadTask, InitUploadResult, success, media_success}
use cloud_file.Wire.{Platform, Result, ok, throws}
use cloud_file.App.State.{Console, awaiting_hash, awaiting_files, find_task, start_uploading}
use cloud_file.App.Patches.{
  new_task, instant_task, is_media, media_text_of, is_canceled, is_uploading, next_chunk,
}
use cloud_file.App.Patch.{Patch, is_instant, finishes}
use cloud_file.App.Upload.{
  handle_files, after_hash, after_init, finish_upload, send_chunk, upload_next, timer_fires,
  after_chunk, merged, after_merge, after_media,
}
use cloud_file.App.Invariant.{
  Stable, Everywhere, update_task-Everywhere, await-Everywhere, find_task-All,
}

-- Only the tasks, their reference and the jobs matter.
abbrev pub Same : Console → Console → Type 0
Same s t = (t.tasks ≡ s.tasks) × (t.tasks_ref ≡ s.tasks_ref) × (t.jobs ≡ s.jobs)

module _ (P : UploadTask → Type 0) (Q : UploadTask → ℕ → Type 0) (st : Stable P Q) where
  pub keeps : (s t : Console) → Same s t → Everywhere P Q s → Everywhere P Q t
  keeps s t (a, b, c) h = record {
    tasks = rw a h.tasks;
    tasks_ref = rw b h.tasks_ref;
    jobs = rw c h.jobs;
  }

  pub either :
      (b : Bool) (s t : Console)
      → Everywhere P Q s
      → Everywhere P Q t
      → Everywhere P Q (if b then s else t)
  either true s t h k = h
  either false s t h k = k

  pub start-Everywhere :
      (id : String) (online : Bool) (s : Console)
      → Everywhere P Q s
      → Everywhere P Q (start_uploading id online s)
  unfolding start_uploading
  start-Everywhere id online s h = keeps s _ (refl, refl, refl) h

  pub handle_files-Everywhere :
      (files : List (String × File)) (now : ℕ) (s : Console)
      → Everywhere P Q s
      → Everywhere P Q (handle_files files now s)
  unfolding handle_files
  handle_files-Everywhere [] now s h = h
  handle_files-Everywhere ((id, file) ∷ files) now s h =
      let task = new_task id file s.mounted_kind now in
      let good = st.fresh id file s.mounted_kind now in
      handle_files-Everywhere files now _ (
        await-Everywhere P Q st (awaiting_hash task s.mounted_online)
          (record s { tasks = task ∷ s.tasks }) good
          (record { tasks = (good, h.tasks); tasks_ref = h.tasks_ref; jobs = h.jobs }))

  pub after_hash-Everywhere :
      (t : UploadTask) (online : Bool) (r : Result String) (s : Console)
      → P t
      → Everywhere P Q s
      → Everywhere P Q (after_hash t online r s)
  unfolding after_hash
  after_hash-Everywhere t online (throws e) s c h =
      update_task-Everywhere P Q st t.id (Patch.fails_init e) s tt h
  after_hash-Everywhere t online (ok hash) s c h =
      await-Everywhere P Q st _ _ c (update_task-Everywhere P Q st t.id (Patch.hashes hash) s tt h)

  pub after_init-Everywhere :
      (p : Platform) (t : UploadTask) (hash : String) (online : Bool) (r : Result InitUploadResult)
      (s : Console)
      → P t
      → Everywhere P Q s
      → Everywhere P Q (after_init p t hash online r s)
  unfolding after_init
  after_init-Everywhere p t hash online (throws e) s c h =
      update_task-Everywhere P Q st t.id (Patch.fails_init e) s tt h
  after_init-Everywhere p t hash online (ok r) s c h =
      let opened = update_task-Everywhere P Q st t.id (Patch.opens hash r online) s tt h in
      either r.instant _ _
        (await-Everywhere P Q st (awaiting_files _) _ tt (
          update_task-Everywhere P Q st t.id (is_instant r.upload_id (instant_task p t hash r)) s
            (st.instant p t hash r c) h))
        (either online _ _ (start-Everywhere t.id online _ opened) opened)

  pub finish_upload-Everywhere :
      (t : UploadTask) (s : Console) → P t → Everywhere P Q s → Everywhere P Q (finish_upload t s)
  unfolding finish_upload
  finish_upload-Everywhere t s c h =
      await-Everywhere P Q st _ _ c (update_task-Everywhere P Q st t.id Patch.starts_merge s tt h)

  pub send_chunk-Everywhere :
      (t : UploadTask) (index : ℕ) (online : Bool) (s : Console)
      → P t × Q t index
      → Everywhere P Q s
      → Everywhere P Q (send_chunk t index online s)
  unfolding send_chunk
  send_chunk-Everywhere t index online s c h =
      await-Everywhere P Q st _ _ c
        (update_task-Everywhere P Q st t.id (Patch.starts_chunk index) s tt h)

  pub upload_next-Everywhere :
      (t : UploadTask) (online : Bool) (s : Console)
      → P t
      → Everywhere P Q s
      → Everywhere P Q (upload_next t online s)
  unfolding upload_next
  upload_next-Everywhere t false s c h =
      update_task-Everywhere P Q st t.id Patch.goes_offline s tt h
  upload_next-Everywhere t true s c h = elim (Option-cases (next_chunk t.chunks)) [
    | inl e ↦ rw (e, upload_next) (finish_upload-Everywhere t s c h)
    | inr (k, e) ↦
        rw (e, upload_next) (send_chunk-Everywhere t k.index true s (c, st.chosen t k c e) h)
  ]

  pub timer_fires-Everywhere :
      (id : String) (online : Bool) (s : Console)
      → Everywhere P Q s
      → Everywhere P Q (timer_fires id online s)
  unfolding timer_fires
  timer_fires-Everywhere id online s h = elim (Option-cases (find_task id s.tasks_ref)) [
    | inl e ↦ rw (e, timer_fires) h
    | inr (t, e) ↦
        rw (e, timer_fires)
          (either (is_uploading t.status) _ _
            (upload_next-Everywhere t online s (find_task-All P Q st id s.tasks_ref e h.tasks_ref)
              h)
            h)
  ]

  pub after_chunk-Everywhere :
      (t : UploadTask) (index : ℕ) (online : Bool) (random : Ratio) (r : Result (Unit {0}))
      (s : Console)
      → Everywhere P Q s
      → Everywhere P Q (after_chunk t index online random r s)
  unfolding after_chunk
  after_chunk-Everywhere t index online random (ok _) s h =
      start-Everywhere t.id online _
        (update_task-Everywhere P Q st t.id (Patch.sends_chunk index random) s tt h)
  after_chunk-Everywhere t index online random (throws e) s h =
      update_task-Everywhere P Q st t.id (Patch.fails_chunk index e) s tt h

  pub merged-Everywhere :
      (t : UploadTask) (s : Console) → P t → Everywhere P Q s → Everywhere P Q (merged t s)
  unfolding merged
  merged-Everywhere t s c h =
      either (is_media t) _ _
        (await-Everywhere P Q st _ _ c
          (update_task-Everywhere P Q st t.id (Patch.starts_media (media_text_of t)) s tt h))
        (await-Everywhere P Q st (awaiting_files _) _ tt
          (update_task-Everywhere P Q st t.id (finishes _) s (st.done t success _ c) h))

  pub after_merge-Everywhere :
      (t : UploadTask) (r : Result (Unit {0})) (s : Console)
      → Everywhere P Q s
      → Everywhere P Q (after_merge t r s)
  unfolding after_merge
  after_merge-Everywhere t (throws e) s h = h
  after_merge-Everywhere t (ok _) s h = elim (Option-cases (find_task t.id s.tasks_ref)) [
    | inl e ↦ rw (e, after_merge) h
    | inr (latest, e) ↦
        rw (e, after_merge)
          (either (is_canceled latest.status) _ _ h
            (merged-Everywhere latest s (find_task-All P Q st t.id s.tasks_ref e h.tasks_ref) h))
  ]

  pub after_media-Everywhere :
      (t : UploadTask) (s : Console) → P t → Everywhere P Q s → Everywhere P Q (after_media t s)
  unfolding after_media
  after_media-Everywhere t s c h =
      await-Everywhere P Q st (awaiting_files _) _ tt
        (update_task-Everywhere P Q st t.id (finishes _) s (st.done t media_success _ c) h)
