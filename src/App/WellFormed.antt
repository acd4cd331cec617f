-- ===== src/App/WellFormed.antt =====
-- What holds of every task at every moment, and of every chunk request that is under way.
use cloud_file.Base.{ℕ, ◌<◌, ◌≡◌, refl, ◌∙◌, List, length, length-map, arith}
use cloud_file.Types.{file_size, UploadTask}
use cloud_file.Wire.{Platform}
use cloud_file.Api.{content_type_of}
use cloud_file.App.State.{init, spread}
use cloud_file.App.Patches.{
  new_task, instant_task, finished, make_chunks, hashed, init_failed, open_transfer, merge_started,
  go_offline, chunk_started, chunk_sent, chunk_failed, media_started,
}
use cloud_file.App.Patch.{
  Patch, apply, pause, cancel, stay_offline, resumed, retried, reset_sending,
}
use cloud_file.App.Chunks.{
  Numbered, mark_chunk-Numbered, length-mark_chunk, reconcile-Numbered, length-reconcile,
  reset-Numbered, make_chunks-Numbered, length-make_chunks, map-Numbered, next_chunk-lt-length,
}
use cloud_file.App.Invariant.{Stable, Carries, Everywhere}
use cloud_file.App.Invariant.Events.{run-init-Everywhere}
use cloud_file.App.Step.{Event, run}

-- A task's chunks are numbered from 0 to one less than its chunk count, and its name, size and type
-- are those of the file that it uploads.
pub record IsWellFormed (t : UploadTask) : Type 0 where
  pub counted : length t.chunks ≡ t.chunk_count
  pub numbered : Numbered 0 t.chunks
  pub sized : t.size ≡ file_size t.file
  pub named : t.file_name ≡ t.file.name
  pub typed : t.file_type ≡ content_type_of t.file.file_type

abbrev pub IsInRange : UploadTask → ℕ → Type 0
IsInRange t index = index < t.chunk_count

patched-IsWellFormed :
    (q : Patch) (t : UploadTask)
    → Carries IsWellFormed q
    → IsWellFormed t
    → IsWellFormed (apply q t)
unfolding apply hashed init_failed open_transfer merge_started go_offline chunk_started chunk_sent
    chunk_failed media_started pause cancel stay_offline resumed retried spread
patched-IsWellFormed (Patch.opens hash r online) t c h = record {
  counted = length-make_chunks r.chunk_count;
  numbered = make_chunks-Numbered r.chunk_count;
  sized = h.sized;
  named = h.named;
  typed = h.typed;
}
patched-IsWellFormed (Patch.is_instant id next) t c h = record {
  counted = c.counted;
  numbered = c.numbered;
  sized = c.sized;
  named = c.named;
  typed = c.typed;
}
patched-IsWellFormed (Patch.finishes next) t c h = record {
  counted = c.counted;
  numbered = c.numbered;
  sized = c.sized;
  named = c.named;
  typed = c.typed;
}
patched-IsWellFormed (Patch.retries) t c h = record {
  counted = length-map reset_sending t.chunks ∙ h.counted;
  numbered = reset-Numbered 0 t.chunks h.numbered;
  sized = h.sized;
  named = h.named;
  typed = h.typed;
}
patched-IsWellFormed (Patch.resumes indexes) t c h = record {
  counted = length-reconcile indexes t.chunks ∙ h.counted;
  numbered = reconcile-Numbered indexes 0 t.chunks h.numbered;
  sized = h.sized;
  named = h.named;
  typed = h.typed;
}
patched-IsWellFormed (Patch.starts_chunk index) t c h = record {
  counted = length-mark_chunk index _ t.chunks ∙ h.counted;
  numbered = mark_chunk-Numbered index _ 0 t.chunks h.numbered;
  sized = h.sized;
  named = h.named;
  typed = h.typed;
}
patched-IsWellFormed (Patch.sends_chunk index random) t c h = record {
  counted = length-mark_chunk index _ t.chunks ∙ h.counted;
  numbered = mark_chunk-Numbered index _ 0 t.chunks h.numbered;
  sized = h.sized;
  named = h.named;
  typed = h.typed;
}
patched-IsWellFormed (Patch.fails_chunk index e) t c h = record {
  counted = length-mark_chunk index _ t.chunks ∙ h.counted;
  numbered = mark_chunk-Numbered index _ 0 t.chunks h.numbered;
  sized = h.sized;
  named = h.named;
  typed = h.typed;
}
patched-IsWellFormed _ t c h = record {
  counted = h.counted;
  numbered = h.numbered;
  sized = h.sized;
  named = h.named;
  typed = h.typed;
}

stable-IsWellFormed : Stable IsWellFormed IsInRange
unfolding new_task instant_task finished
stable-IsWellFormed = record {
  fresh = λ id file kind now. record {
    counted = length-make_chunks _;
    numbered = make_chunks-Numbered _;
    sized = refl;
    named = refl;
    typed = refl;
  };
  patched = patched-IsWellFormed;
  instant = λ p t hash r h. record {
    counted = length-map _ (make_chunks r.chunk_count) ∙ length-make_chunks r.chunk_count;
    numbered =
        map-Numbered _ (λ c. refl) 0 (make_chunks r.chunk_count)
          (make_chunks-Numbered r.chunk_count);
    sized = h.sized;
    named = h.named;
    typed = h.typed;
  };
  done = λ t status message h. record {
    counted = h.counted;
    numbered = h.numbered;
    sized = h.sized;
    named = h.named;
    typed = h.typed;
  };
  chosen = λ t c h e. omega (arith, h.counted, next_chunk-lt-length t.chunks c h.numbered e);
}

-- Whatever clicks, timers, replies and commits follow the first render, in whatever order: every task
-- of the console, of `tasksRef` and of an unfinished promise is well formed, and every chunk request
-- under way is for a chunk of its task.
pub run-IsWellFormed :
    (p : Platform) (events : List Event) → Everywhere IsWellFormed IsInRange (run p init events)
run-IsWellFormed p events = run-init-Everywhere IsWellFormed IsInRange stable-IsWellFormed p events
