-- ===== src/Stats.antt =====
-- frontend/src/App.tsx, the `stats` that components/StatsCards.tsx shows. The percentage is the exact
-- quotient rounded half up; the source divides in doubles.
use native.Mathlib.Nat.{div-lt_iff_lt-mul, div-eq_of_lt, div-eq_of_lt-le}
use cloud_file.Base.{
  ℕ, zero, suc, ◌+◌, ◌*◌, ◌/◌, ◌≤◌, ◌<◌, ◌≡◌, refl, sym, subst, ◌∙◌, Bool, true, false, List, [],
  ◌∷◌, ltb, ◌==◌, if◌then◌else◌, keep, length, arith,
}
use cloud_file.Types.{
  UploadStatus, instant_success, uploading, media_processing, failed, UploadTask, FileItem,
  UploadStats,
}

abbrev is_failed : UploadStatus → Bool
is_failed failed = true
is_failed _ = false

abbrev is_instant : UploadStatus → Bool
is_instant instant_success = true
is_instant _ = false

abbrev is_uploading : UploadStatus → Bool
is_uploading uploading = true
is_uploading _ = false

abbrev is_processing : UploadStatus → Bool
is_processing media_processing = true
is_processing _ = false

-- `tasks.filter((task) => test(task.status)).length`
abbrev pub count_status : (UploadStatus → Bool) → List UploadTask → ℕ
count_status test tasks = length (keep (λ t. test t.status) tasks)

-- `Math.round((complete / total) * 100)`, and 100 of nothing
unfoldable pub success_rate : ℕ → ℕ → ℕ
success_rate complete total = if total == 0 then 100 else (200 * complete + total) / (2 * total)

-- `now - 86_400_000` may be negative, in which case every task is of today.
unfoldable pub stats : ℕ → List FileItem → List UploadTask → UploadStats
unfolding success_rate
stats now files tasks =
    let complete = length files in
    let failures = count_status is_failed tasks in
    record {
      today_uploads = length files + length (keep (λ t. ltb now (t.created_at + 86400000)) tasks);
      success_rate = success_rate complete (complete + failures);
      instant_hits = count_status is_instant tasks;
      uploading_tasks = count_status is_uploading tasks;
      media_processing_tasks = count_status is_processing tasks;
      failed_tasks = failures;
    }

rate_suc : (complete n : ℕ) → success_rate complete (suc n) ≡ (200 * complete + suc n) / (2 * suc n)
unfolding success_rate
rate_suc complete n = grind arith

quotient_le : (complete n : ℕ) → complete ≤ suc n → (200 * complete + suc n) / (2 * suc n) ≤ 100
quotient_le complete n h =
    let below : (200 * complete + suc n) / (2 * suc n) < 101 =
      (div-lt_iff_lt-mul {k = 2 * suc n} (omega arith)).1 (omega arith) in
    omega arith

rate_le : (complete total : ℕ) → complete ≤ total → success_rate complete total ≤ 100
rate_le complete zero h = unfold success_rate in omega arith
rate_le complete (suc n) h =
    subst (λ x. x ≤ 100) (sym (rate_suc complete n)) (quotient_le complete n h)

rate_full : (complete : ℕ) → success_rate complete complete ≡ 100
rate_full zero = unfold success_rate in refl
rate_full (suc c) =
    rate_suc (suc c) c
    ∙ div-eq_of_lt-le {k = 100} (2 * suc c) {m = 200 * suc c + suc c} (omega arith) (omega arith)

rate_none : (failures : ℕ) → success_rate 0 (suc failures) ≡ 0
rate_none f = rate_suc 0 f ∙ div-eq_of_lt {n = 200 * 0 + suc f} {m = 2 * suc f} (omega arith)

-- The success rate is at most 100, is 100 when no task has failed, and is 0 when one has and no file is
-- listed.
pub success_rate_bounds :
    (complete failures : ℕ)
    → (success_rate complete (complete + failures) ≤ 100)
      × (success_rate complete complete ≡ 100)
      × (success_rate 0 (suc failures) ≡ 0)
success_rate_bounds complete failures =
    (rate_le complete (complete + failures) (omega arith), rate_full complete, rate_none failures)

-- The counts of the cards overlap in no task: together they are at most the number of tasks.
pub stats_disjoint :
    (now : ℕ) (files : List FileItem) (tasks : List UploadTask)
    → let s = stats now files tasks in
      s.instant_hits + s.uploading_tasks + s.media_processing_tasks + s.failed_tasks ≤ length tasks
unfolding stats
stats_disjoint now files [] = omega arith
stats_disjoint now files (t ∷ tasks) = ground (arith, stats_disjoint now files tasks)
