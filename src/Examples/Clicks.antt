-- ===== src/Examples/Clicks.antt =====
-- Examples of clicks that meet a reply in frontend/src/App.tsx.
use cloud_file.App.State.{delete_task}
use cloud_file.App.Step.{confirms}
use cloud_file.App.Deletion.{confirms-delete}
use cloud_file.Base.{◌≡◌, ◌≢◌, any, str_eq, false, refl, inl, [], ◌∷◌, none, some, true, All}
use cloud_file.Types.{UploadTask, uploading, offline, failed}
use cloud_file.Wire.{accepted, rejected, request, error, ok, throws}
use cloud_file.Text.{to_hex, pad_start, decimal}
use cloud_file.Api.{
  chunk_count_of, init_upload, calculate_file_hash, hex_text, given_id, content_type_of,
  upload_chunk,
}
use cloud_file.App.State.{
  Console, init, find_task, await, start_uploading, toast, awaiting_files, awaiting_chunk,
  awaiting_status, awaiting_init,
}
use cloud_file.App.Patches.{
  new_task, hashed, open_transfer, make_chunks, make_chunks_from, next_chunk, go_offline,
  mark_chunk, chunk_started,
}
use cloud_file.App.Patch.{
  apply, patch_tasks, update_task, opens, cancels, goes_offline, resumes, starts_chunk,
}
use cloud_file.App.Step.{
  Event, run, step, settle, take_job, continue_job, commit, end_timer, settles, commits, toggles,
  init_replied, chunk_replied,
}
use cloud_file.App.Upload.{
  handle_files, after_hash, after_init, send_chunk, upload_next, timer_fires,
}
use cloud_file.App.Controls.{toggle_network, offline_all, resume_all, resume_task}
use cloud_file.App.Races.{IsStale, answered, reconnect_stalls}
use cloud_file.App.Overrides.{cancel_lost, late_failure}
use cloud_file.Examples.{
  platform, half, picked, opened, hashed_console, opened_console, sending_console, to_send,
  to_send_result,
}

-- the network is down, and React has committed
abbrev offline_console : Console
offline_console = run platform opened_console (toggles "u1" ∷ commits ∷ [])

reconnecting :
    let s = step platform offline_console (toggles "u2") in
    (take_job 1 s.jobs ≡ some (awaiting_status (go_offline opened) false, awaiting_files none ∷ []))
    × (given_id (go_offline opened).upload_id ≡ some "7")
    × (find_task "t1" s.tasks ≡ some (go_offline opened))
    × (offline_console.network_online ≡ false)
    × (offline_console.mounted_online ≡ false)
    × All IsStale offline_console.jobs
unfolding run step settle take_job continue_job commit end_timer handle_files after_hash after_init
    init await update_task patch_tasks apply find_task start_uploading new_task hashed open_transfer
    make_chunks make_chunks_from chunk_count_of init_upload request calculate_file_hash hex_text
    given_id to_hex pad_start decimal content_type_of toggle_network offline_all resume_all
    resume_task toast go_offline
reconnecting = (refl, refl, refl, refl, refl, (tt, tt))

reconnect_stalls_example :
    let s = step platform offline_console (toggles "u2") in
    let r = run platform s (answered 1 [] "t1") in
    (r.network_online ≡ true)
    × (r.jobs ≡ awaiting_files none ∷ [])
    × (find_task "t1" r.tasks ≡ some (apply goes_offline (apply (resumes []) (go_offline opened))))
    × ((apply goes_offline (apply (resumes []) (go_offline opened))).status ≡ offline)
unfolding go_offline open_transfer hashed new_task
reconnect_stalls_example =
    reconnect_stalls platform offline_console "u2" 1 (go_offline opened) (go_offline opened) false
      "7" (awaiting_files none ∷ []) [] reconnecting.3 reconnecting.4 reconnecting.5 reconnecting.0
      reconnecting.1 reconnecting.2

initializing :
    (take_job 1 hashed_console.jobs
      ≡ some (awaiting_init picked "00ab" true, awaiting_files none ∷ []))
    × (find_task "t1" hashed_console.tasks ≡ some (hashed "00ab" picked))
    × (init_upload (accepted to_send) ≡ ok to_send_result)
unfolding run step settle take_job continue_job commit end_timer handle_files after_hash after_init
    init await update_task patch_tasks apply find_task start_uploading new_task hashed open_transfer
    make_chunks make_chunks_from chunk_count_of init_upload request calculate_file_hash hex_text
    given_id to_hex pad_start decimal content_type_of
initializing = (refl, refl, refl)

cancel_lost_example :
    let s =
      run platform hashed_console
        (Event.cancels "t1" ∷ settles 1 (init_replied (accepted to_send)) ∷ []) in
    let u = apply (opens "00ab" to_send_result true) (apply cancels (hashed "00ab" picked)) in
    (find_task "t1" s.tasks ≡ some u) × (u.status ≡ uploading)
unfolding new_task
cancel_lost_example =
    cancel_lost platform hashed_console 1 picked (hashed "00ab" picked) "00ab" true
      (awaiting_files none ∷ []) (accepted to_send) to_send_result initializing.0 initializing.1
      initializing.2 refl

sending :
    (take_job 1 sending_console.jobs
      ≡ some (awaiting_chunk opened 0 true, awaiting_files none ∷ []))
    × (find_task "t1" sending_console.tasks ≡ some (apply (starts_chunk 0) opened))
    × (upload_chunk opened (rejected (error "Failed to fetch")) ≡ throws (error "Failed to fetch"))
unfolding run step settle take_job continue_job commit end_timer handle_files after_hash after_init
    init await update_task patch_tasks apply find_task start_uploading new_task hashed open_transfer
    make_chunks make_chunks_from chunk_count_of init_upload request calculate_file_hash hex_text
    given_id to_hex pad_start decimal content_type_of timer_fires upload_next send_chunk next_chunk
    mark_chunk chunk_started upload_chunk
sending = (refl, refl, refl)

late_failure_example :
    let s = run platform sending_console (
      Event.cancels "t1"
      ∷ settles 1 (chunk_replied (rejected (error "Failed to fetch")) half)
      ∷ []) in
    (v : UploadTask) × (find_task "t1" s.tasks ≡ some v)
    × (v.status ≡ failed)
    × (s.timers ≡ sending_console.timers)
unfolding open_transfer hashed new_task
late_failure_example =
    late_failure platform sending_console 1 opened (apply (starts_chunk 0) opened) 0 true
      (awaiting_files none ∷ []) (rejected (error "Failed to fetch")) half (error "Failed to fetch")
      (Event.cancels "t1") (inl refl) sending.0 sending.1 sending.2

-- the dialog asks for the deletion of the task that is sending
abbrev asking : Console
asking = record sending_console { confirm_state = some (delete_task "t1") }

confirms-delete_example :
    let s' = step platform asking (confirms "uuid") in
    (any (λ t. str_eq t.id "t1") s'.tasks ≡ false)
    × (any (λ f. str_eq f.task_id "t1") s'.files ≡ false)
    × (s'.confirm_state ≡ none)
    × (s'.selected_task_id ≢ some "t1")
    × (find_task "t2" s'.tasks ≡ find_task "t2" asking.tasks)
confirms-delete_example = confirms-delete platform asking "t1" "t2" "uuid" refl refl
