-- ===== src/App/Deletion.antt =====
-- frontend/src/App.tsx: what confirming the deletion of a task leaves.
use mathlib.Core.Bool.{true≢false}
use mathlib.Core.Option.{some-injective}
use cloud_file.Base.{
  ◌≡◌, ◌≢◌, refl, sym, subst, ◌∙◌, Bool, true, false, not, String, List, [], ◌∷◌, Option, none,
  some, str_eq, eq_iff, find, any, keep, Bool-cases, inl, inr,
}
use cloud_file.Types.{UploadTask}
use cloud_file.Wire.{Platform}
use cloud_file.App.State.{Console, delete_task, find_task, toast}
use cloud_file.App.Controls.{deselect, on_confirm, confirm}
use cloud_file.App.Step.{confirms, step}

module _ {A : Type 0} (test : A → Bool) where
  any-keep-not : (xs : List A) → any test (keep (λ x. not (test x)) xs) ≡ false
  any-keep-not [] = refl
  any-keep-not (x ∷ xs) = elim (Bool-cases (test x)) [
    | inl e ↦ rw (e, any-keep-not xs)
    | inr e ↦ rw (e, e, any-keep-not xs)
  ]

  find-keep-not :
      (p : A → Bool) (xs : List A)
      → ((x : A) → p x ≡ true → test x ≡ false)
      → find p (keep (λ x. not (test x)) xs) ≡ find p xs
  find-keep-not p [] h = refl
  find-keep-not p (x ∷ xs) h = elim (Bool-cases (test x)) [
    | inr e ↦ rw (e, find-keep-not p xs h)
    | inl e ↦ elim (Bool-cases (p x)) [
      | inl f ↦ absurd (true≢false (sym e ∙ h x f))
      | inr f ↦ rw (e, f, find-keep-not p xs h)
    ]
  ]

other_id :
    (id j : String) (t : UploadTask)
    → str_eq j id ≡ false
    → str_eq t.id j ≡ true
    → str_eq t.id id ≡ false
other_id id j t h e = subst (λ k. str_eq k id ≡ false) (sym ((eq_iff t.id j).0 e)) h

none_id : (id : String) → none ≡ some id → ⊥
none_id id e = cc

not_selected : (id : String) (o : Option String) → deselect id o ≢ some id
not_selected id none e = cc
not_selected id (some j) e = elim (Bool-cases (str_eq j id)) [
  | inl f ↦ none_id id (rw f at e)
  | inr f ↦
      let same : j ≡ id = some-injective _ _ (rw f at e) in
      true≢false (sym ((eq_iff j id).1 same) ∙ f)
]

-- Where the dialog asks for the deletion of a task, a click that confirms leaves no task of that id and
-- no file of that task, closes the dialog, and does not leave that task in the drawer; a task of another
-- id is found as before.
pub confirms-delete :
    (p : Platform) (s : Console) (id other uuid : String)
    → s.confirm_state ≡ some (delete_task id)
    → str_eq other id ≡ false
    → let s' = step p s (confirms uuid) in
      (any (λ t. str_eq t.id id) s'.tasks ≡ false)
      × (any (λ f. str_eq f.task_id id) s'.files ≡ false)
      × (s'.confirm_state ≡ none)
      × (s'.selected_task_id ≢ some id)
      × (find_task other s'.tasks ≡ find_task other s.tasks)
unfolding step confirm on_confirm toast find_task
confirms-delete p s id other uuid e h = rw e (
  any-keep-not (λ t. str_eq t.id id) s.tasks,
  any-keep-not (λ f. str_eq f.task_id id) s.files,
  refl,
  not_selected id s.selected_task_id,
  find-keep-not (λ t. str_eq t.id id) (λ t. str_eq t.id other) s.tasks (λ t. other_id id other t h),
)
