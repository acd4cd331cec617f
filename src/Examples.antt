-- ===== src/Examples.antt =====
-- A concrete platform, file and consoles of frontend/src/App.tsx on which the examples run.
mod Uploads
mod Clicks
mod Values
mod Shelf
mod Server
mod Delivery
use cloud_file.Base.{ℕ, List, [], ◌∷◌, Option, none, some, true, false, Bool, String}
use cloud_file.Ratio.{Ratio}
use cloud_file.Types.{UploadKind, File, UploadTask, InitUploadResult}
use cloud_file.Wire.{Platform, InitReply, Reply, accepted, Result, ok}
use cloud_file.App.State.{Console, init}
use cloud_file.App.Patches.{new_task, hashed, open_transfer}
use cloud_file.App.Step.{
  Event, picks, settles, commits, bytes_read, init_replied, run, timer_ends, chunk_replied,
}

abbrev pub platform : Platform
platform = record {
  vite_api_base = none;
  encode_uri_component = λ text. text;
  sha256 = λ bytes. 0 ∷ 171 ∷ [];
}

abbrev pub notes : File
notes = record { name = "notes.txt"; file_type = ""; bytes = 1 ∷ 2 ∷ 3 ∷ [] }

abbrev pub half : Ratio
half = record { num = 1; den = 2 }

-- two chunks to send, for the upload 7
abbrev pub to_send : InitReply
to_send = record {
  instant = false;
  upload_id = some 7;
  uploaded_chunks = none;
  chunk_size = 2;
  chunk_count = 2;
  file_id = none;
}

abbrev pub to_send_result : InitUploadResult
to_send_result = record {
  instant = false;
  upload_id = some "7";
  uploaded_chunks = [];
  chunk_size = 2;
  chunk_count = 2;
  file_id = none;
}

abbrev pub picked : UploadTask
picked = new_task "t1" notes UploadKind.general 1000

abbrev pub opened : UploadTask
opened = open_transfer "00ab" to_send_result true (hashed "00ab" picked)

-- the events up to the request that opens the upload
abbrev pub hashing_events : List Event
hashing_events = picks (("t1", notes) ∷ []) 1000 ∷ settles 1 (bytes_read (ok tt)) ∷ []

abbrev pub hashed_console : Console
hashed_console = run platform init hashing_events

abbrev pub opened_console : Console
opened_console =
    run platform hashed_console (settles 1 (init_replied (accepted to_send)) ∷ commits ∷ [])

-- the first chunk is on its way
abbrev pub sending_console : Console
sending_console = run platform opened_console (timer_ends "t1" ∷ [])
