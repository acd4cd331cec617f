-- ===== src/Server/Media/Attempts.antt =====
-- backend/internal/service/service.go: the row of a media task, over a run that fails.
use cloud_file.Base.{
  ℕ, suc, ◌+◌, ◌==◌, ◌≡◌, refl, sym, ap, Bool, true, false, String, List, [], ◌∷◌, keep, find, some,
  leb, Bool-cases, inl, inr, arith, ==_iff,
}
use cloud_file.Server.Model.{MediaTask, MediaTaskStatus}
use cloud_file.Server.World.{Tables, change_rows}
use cloud_file.Server.Media.{
  is_runnable, can_run, started_media, start_media, save_media, failed_run,
}

head_is : (rows : List MediaTask) (x m : MediaTask) → x ∷ rows ≡ m ∷ [] → some x ≡ some m
head_is rows x m e = cc

pub find-only :
    (test : MediaTask → Bool) (rows : List MediaTask) (m : MediaTask)
    → keep test rows ≡ m ∷ []
    → find test rows ≡ some m
find-only test [] m e = cc
find-only test (x ∷ rows) m e = elim (Bool-cases (test x)) [
  | inl f ↦ rw f (head_is (keep test rows) x m (rw f at e))
  | inr f ↦ rw f (find-only test rows m (rw f at e))
]

pub keep-change :
    (p q : MediaTask → Bool) (f : MediaTask → MediaTask)
    → ((m : MediaTask) → q m ≡ true → p (f m) ≡ p m)
    → (rows : List MediaTask) → keep p (change_rows q f rows) ≡ change_rows q f (keep p rows)
keep-change p q f h [] = refl
keep-change p q f h (m ∷ rows) = elim (Bool-cases (q m)) [
  | inl e ↦ elim (Bool-cases (p m)) [
    | inl g ↦ rw (e, h m e, g, keep-change p q f h rows, e)
    | inr g ↦ rw (e, h m e, g, keep-change p q f h rows)
  ]
  | inr e ↦ elim (Bool-cases (p m)) [
    | inl g ↦ rw (e, g, keep-change p q f h rows, e)
    | inr g ↦ rw (e, g, keep-change p q f h rows)
  ]
]

pub keep-can_run :
    (id : ℕ) (rows : List MediaTask)
    → keep (can_run id) rows ≡ keep (λ m. is_runnable m.status) (keep (λ m. m.id == id) rows)
keep-can_run id [] = refl
keep-can_run id (m ∷ rows) = elim (Bool-cases (m.id == id)) [
  | inl e ↦ rw (e, keep-can_run id rows)
  | inr e ↦ rw (e, keep-can_run id rows)
]

-- the row of the task, the only one of its id
abbrev pub Only : ℕ → MediaTask → Tables → Type 0
Only id m t = keep (λ x. x.id == id) t.media_tasks ≡ m ∷ []

-- the row that a failed run leaves
abbrev pub next_row : ℕ → String → MediaTask → MediaTask
next_row now e m = record (failed_run (started_media now m) e).0 { updated_at = now }

pub started-Only :
    (id now : ℕ) (m : MediaTask) (t : Tables)
    → (m.id == id) ≡ true
    → is_runnable m.status ≡ true
    → Only id m t
    → ((start_media id now t).0 ≡ 1) × Only id (started_media now m) (start_media id now t).1
started-Only id now m t i r o = (
  rw (keep-can_run id t.media_tasks, o, r),
  rw (
    keep-change (λ x. x.id == id) (can_run id) (started_media now) (λ x h. refl) t.media_tasks,
    o,
    i,
    r,
  ),
)

pub saved-Only :
    (id now : ℕ) (m row : MediaTask) (t : Tables)
    → (m.id == id) ≡ true
    → row.id ≡ m.id
    → Only id m t
    → Only id (record row { updated_at = now }) (save_media row now t).1
saved-Only id now m row t i same o =
    let e : (m.id == row.id) ≡ true = ground (arith, same) in
    rw (
      keep-change (λ x. x.id == id) (λ x. x.id == row.id) (λ x. record row { updated_at = now })
          (λ x h. sym (ap (λ k. k == id) ((==_iff x.id row.id).0 h))) t.media_tasks,
      o,
      e,
    )

pub failed_run-id : (m : MediaTask) (e : String) → (failed_run m e).0.id ≡ m.id
failed_run-id m e = elim (Bool-cases (leb m.max_retry (m.retry_count + 1))) [
  | inl h ↦ rw h
  | inr h ↦ rw h
]

-- the only row of the id is that of a dead task, after that many tries
pub record IsDead (id n : ℕ) (t : Tables) : Type 0 where
  pub row : MediaTask
  pub only : Only id row t
  pub status : row.status ≡ MediaTaskStatus.dead
  pub tries : row.retry_count ≡ n

-- the rows that `next_row` is, before the last try and at it
abbrev pub tried_row : MediaTaskStatus → ℕ → String → MediaTask → MediaTask
tried_row status now e m = record m {
  status = status;
  retry_count = m.retry_count + 1;
  error_msg = e;
  updated_at = now;
}

pub next_row-last :
    (now : ℕ) (e : String) (m : MediaTask)
    → m.retry_count + 1 ≡ m.max_retry
    → next_row now e m ≡ tried_row MediaTaskStatus.dead now e m
next_row-last now e m h =
    let l : leb m.max_retry (m.retry_count + 1) ≡ true = ground (arith, h) in rw l

pub next_row-more :
    (now : ℕ) (e : String) (m : MediaTask) (k : ℕ)
    → m.retry_count + suc (suc k) ≡ m.max_retry
    → next_row now e m ≡ tried_row MediaTaskStatus.failed now e m
next_row-more now e m k h =
    let l : leb m.max_retry (m.retry_count + 1) ≡ false = ground (arith, h) in rw l
