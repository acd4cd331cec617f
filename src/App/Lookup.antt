-- ===== src/App/Lookup.antt =====
-- `updateTask` and `find` on the task list: the patched task, the others, and none.
use mathlib.Core.Option.{some-injective}
use cloud_file.Base.{
  ◌≡◌, refl, ap, sym, ◌∙◌, subst, ◌≢◌, String, List, [], ◌∷◌, Option, none, some, str_eq, eq_iff,
  if◌then◌else◌, arith, Bool-cases, inl, inr,
}
use cloud_file.Types.{UploadTask}
use cloud_file.App.State.{find_task, spread}
use cloud_file.App.Patches.{
  hashed, init_failed, open_transfer, merge_started, go_offline, chunk_started, chunk_sent,
  chunk_failed, media_started,
}
use cloud_file.App.Patch.{Patch, apply, pause, cancel, stay_offline, resumed, retried, patch_tasks}
use cloud_file.App.Invariant.{Carries}

-- The whole task that a patch may hold has the id.
abbrev pub CarriesId : String → Patch → Type 0
CarriesId id = Carries (λ n. n.id ≡ id)

pub apply-id : (q : Patch) (t : UploadTask) → CarriesId t.id q → (apply q t).id ≡ t.id
unfolding apply hashed init_failed open_transfer merge_started go_offline chunk_started chunk_sent
    chunk_failed media_started pause cancel stay_offline resumed retried spread
apply-id (Patch.is_instant _ next) t c = c
apply-id (Patch.finishes next) t c = c
apply-id _ t c = refl

find_task-head :
    (id : String) (t : UploadTask) (ts : List UploadTask)
    → find_task id (t ∷ ts) ≡ (if str_eq t.id id then some t else find_task id ts)
unfolding find_task
find_task-head id t ts = refl

pub find_task-id :
    (id : String) (ts : List UploadTask) {t : UploadTask} → find_task id ts ≡ some t → t.id ≡ id
unfolding find_task
find_task-id id [] e = cc
find_task-id id (u ∷ ts) e = elim (Bool-cases (str_eq u.id id)) [
  | inl same ↦ subst (λ x. x.id ≡ id) (some-injective _ _ (rw same at e)) ((eq_iff u.id id).0 same)
  | inr other ↦ find_task-id id ts (rw other at e)
]

-- After `updateTask` of an id the task that is found under it is the patched one, provided that a
-- whole task in the patch has that id.
pub find_task-patch_self :
    (id : String) (q : Patch) (ts : List UploadTask) {t : UploadTask}
    → CarriesId id q
    → find_task id ts ≡ some t
    → find_task id (patch_tasks id q ts) ≡ some (apply q t)
unfolding find_task patch_tasks
find_task-patch_self id q [] c e = cc
find_task-patch_self id q (u ∷ ts) {t} c e = elim (Bool-cases (str_eq u.id id)) [
  | inl same ↦
      let is_id : u.id ≡ id = (eq_iff u.id id).0 same in
      let found : u ≡ t = some-injective _ _ (rw same at e) in
      let kept : (apply q u).id ≡ id =
        apply-id q u (subst (λ x. CarriesId x q) (sym is_id) c) ∙ is_id in
      rw same (rw ((eq_iff (apply q u).id id).1 kept) (ap (λ x. some (apply q x)) found))
  | inr other ↦ rw other (rw other (find_task-patch_self id q ts c (rw other at e)))
]

-- `updateTask` of one id leaves what is found under every other id, provided that a whole task in the
-- patch has that id.
pub find_task-patch_ne :
    (j id : String) (q : Patch) (ts : List UploadTask)
    → CarriesId id q
    → j ≢ id
    → find_task j (patch_tasks id q ts) ≡ find_task j ts
unfolding find_task patch_tasks
find_task-patch_ne j id q [] c ne = refl
find_task-patch_ne j id q (u ∷ ts) c ne = elim (Bool-cases (str_eq u.id id)) [
  | inl same ↦
      let is_id : u.id ≡ id = (eq_iff u.id id).0 same in
      let kept : (apply q u).id ≡ id =
        apply-id q u (subst (λ x. CarriesId x q) (sym is_id) c) ∙ is_id in
      let rest = find_task-patch_ne j id q ts c ne in
      rw same (
        unfold find_task in
        ground (arith, eq_iff (apply q u).id j, eq_iff u.id j, kept, is_id, rest))
  | inr other ↦
      rw other (ap (λ r. if str_eq u.id j then some u else r) (find_task-patch_ne j id q ts c ne))
]

pub patch_tasks-absent :
    (id : String) (q : Patch) (ts : List UploadTask)
    → find_task id ts ≡ none
    → patch_tasks id q ts ≡ ts
unfolding find_task patch_tasks
patch_tasks-absent id q [] e = refl
patch_tasks-absent id q (u ∷ ts) e = elim (Bool-cases (str_eq u.id id)) [
  | inl same ↦ let no_task : ◌≡◌ {A = Option UploadTask} (some u) none = rw same at e in cc
  | inr other ↦ rw other (ap (λ r. u ∷ r) (patch_tasks-absent id q ts (rw other at e)))
]
