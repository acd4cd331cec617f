-- ===== src/App/Progress.antt =====
-- The progress of a task, which `startUploading` and `resumeTask` of frontend/src/App.tsx compute.
use cloud_file.Base.{ℕ, ◌+◌, ◌*◌, ◌≤◌, ◌<◌, List, length, arith}
use cloud_file.Ratio.{Ratio}
use cloud_file.Types.{UploadTask}
use cloud_file.App.Patches.{chunk_sent}
use cloud_file.App.Patch.{resumed}

-- A task with chunks that has just sent one is between 10 and 92 percent done.
pub chunk_sent-progress :
    (index : ℕ) (random : Ratio) (t : UploadTask)
    → 0 < t.chunk_count
    → let progress = (chunk_sent index random t).progress in
      (10 * progress.den ≤ progress.num) × (progress.num ≤ 92 * progress.den)
unfolding chunk_sent
chunk_sent-progress index random t h = ground arith

-- A resume never lowers the progress: it is at least what it was, and at least what the backend's list
-- makes of it.
pub resumed-progress :
    (indexes : List ℕ) (t : UploadTask)
    → let progress = (resumed indexes t).progress in
      (t.progress.num * progress.den ≤ progress.num * t.progress.den)
      × ((10 * t.chunk_count + 82 * length indexes) * progress.den ≤ progress.num * t.chunk_count)
unfolding resumed
resumed-progress indexes t = ground arith
