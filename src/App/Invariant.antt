-- ===== src/App/Invariant.antt =====
-- An invariant of one task, kept by every patch of `updateTask`, holds of every task of the console:
-- of those on show, of those in `tasksRef`, and of those that an unfinished promise still holds.
pub mod Uploads
pub mod Controls
pub mod Events
use mathlib.Core.Option.{some-injective}
use cloud_file.Base.{
  subst, ℕ, zero, suc, ◌≡◌, refl, Bool, true, false, String, List, [], ◌∷◌, ◌++◌, map, Option, none,
  some, str_eq, if◌then◌else◌, arith, All, Bool-cases, Option-cases, inl, inr, keep, not, find, ◌⊎◌,
}
use cloud_file.Ratio.{Ratio}
use cloud_file.Types.{Chunk, UploadKind, UploadStatus, File, UploadTask, InitUploadResult}
use cloud_file.Wire.{Platform, Result, ok, throws}
use cloud_file.App.State.{
  Console, Job, awaiting_hash, awaiting_init, awaiting_files, awaiting_chunk, awaiting_merge,
  awaiting_media, awaiting_status, awaiting_recovery, awaiting_delete, await, find_task, init,
}
use cloud_file.App.Patches.{next_chunk, new_task, instant_task, finished}
use cloud_file.App.Patch.{Patch, is_instant, finishes, apply, patch_tasks, update_task}

-- A patch that holds a whole task holds one with the invariant.
abbrev pub Carries : (UploadTask → Type 0) → Patch → Type 0
Carries P (is_instant _ next) = P next
Carries P (finishes done) = P done
Carries P _ = Unit

-- What an invariant `P` of one task, and one `Q` of a task and the chunk that is sent for it, have to
-- prove.
pub record Stable (P : UploadTask → Type 0) (Q : UploadTask → ℕ → Type 0) : Type 0 where
  pub fresh :
      (id : String) (file : File) (kind : UploadKind) (now : ℕ) → P (new_task id file kind now)
  pub patched : (q : Patch) (t : UploadTask) → Carries P q → P t → P (apply q t)
  pub instant :
      (p : Platform) (t : UploadTask) (hash : String) (result : InitUploadResult)
      → P t
      → P (instant_task p t hash result)
  pub done :
      (t : UploadTask) (status : UploadStatus) (message : String)
      → P t
      → P (finished t status message)
  pub chosen : (t : UploadTask) (c : Chunk) → P t → next_chunk t.chunks ≡ some c → Q t c.index

abbrev pub Holds : (UploadTask → Type 0) → (UploadTask → ℕ → Type 0) → Job → Type 0
Holds P Q (awaiting_hash t _) = P t
Holds P Q (awaiting_init t _ _) = P t
Holds P Q (awaiting_chunk t index _) = P t × Q t index
Holds P Q (awaiting_merge t) = P t
Holds P Q (awaiting_media t) = P t
Holds P Q (awaiting_status t _) = P t
Holds P Q _ = Unit

-- The invariant, of a whole console.
pub record Everywhere (P : UploadTask → Type 0) (Q : UploadTask → ℕ → Type 0) (s : Console)
    : Type 0 where
  pub tasks : All P s.tasks
  pub tasks_ref : All P s.tasks_ref
  pub jobs : All (Holds P Q) s.jobs

module _ {A : Type 0} (P : A → Type 0) where
  pub All-append : (xs ys : List A) → All P xs → All P ys → All P (xs ++ ys)
  All-append [] ys h k = k
  All-append (x ∷ xs) ys h k = (h.0, All-append xs ys h.1 k)

  pub All-keep : (test : A → Bool) (xs : List A) → All P xs → All P (keep test xs)
  All-keep test [] h = tt
  All-keep test (x ∷ xs) h = elim (Bool-cases (test x)) [
    | inl e ↦ rw e (h.0, All-keep test xs h.1)
    | inr e ↦ rw e (All-keep test xs h.1)
  ]

  pub All-find : (test : A → Bool) {x : A} (xs : List A) → find test xs ≡ some x → All P xs → P x
  All-find test [] e h = cc
  All-find test (y ∷ xs) e h = elim (Bool-cases (test y)) [
    | inl t ↦ subst P (some-injective _ _ (rw t at e)) h.0
    | inr t ↦ All-find test xs (rw t at e) h.1
  ]

module _ (P : UploadTask → Type 0) (Q : UploadTask → ℕ → Type 0) (st : Stable P Q) where
  patch_tasks-All :
      (id : String) (q : Patch) (ts : List UploadTask)
      → Carries P q
      → All P ts
      → All P (patch_tasks id q ts)
  unfolding patch_tasks
  patch_tasks-All id q [] c h = tt
  patch_tasks-All id q (t ∷ ts) c h = elim (Bool-cases (str_eq t.id id)) [
    | inl e ↦ rw e (st.patched q t c h.0, patch_tasks-All id q ts c h.1)
    | inr e ↦ rw e (h.0, patch_tasks-All id q ts c h.1)
  ]

  pub update_task-Everywhere :
      (id : String) (q : Patch) (s : Console)
      → Carries P q
      → Everywhere P Q s
      → Everywhere P Q (update_task id q s)
  unfolding update_task
  update_task-Everywhere id q s c h = record {
    tasks = patch_tasks-All id q s.tasks c h.tasks;
    tasks_ref = h.tasks_ref;
    jobs = h.jobs;
  }

  pub await-Everywhere :
      (j : Job) (s : Console) → Holds P Q j → Everywhere P Q s → Everywhere P Q (await j s)
  unfolding await
  await-Everywhere j s c h = record {
    tasks = h.tasks;
    tasks_ref = h.tasks_ref;
    jobs = All-append (Holds P Q) s.jobs (j ∷ []) h.jobs (c, tt);
  }

  pub find_task-All :
      (id : String) (ts : List UploadTask) {t : UploadTask}
      → find_task id ts ≡ some t
      → All P ts
      → P t
  unfolding find_task
  find_task-All id ts e h = All-find P (λ t. str_eq t.id id) ts e h
