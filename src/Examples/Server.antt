-- ===== src/Examples/Server.antt =====
-- Examples of the requests of backend/internal, over a store that is a function.
use cloud_file.Base.{
  ℕ, suc, zero, ◌<◌, ◌≡◌, refl, String, List, [], ◌∷◌, none, some, str_eq, if◌then◌else◌, arith,
}
use cloud_file.Server.Model.{
  UploadStatus, ChunkStatus, MediaTaskStatus, MediaTaskType, FileStatus, UploadTask, UploadChunk,
  UserFile, MediaTask,
}
use cloud_file.Server.Action.{
  failure, done, fails, Action, ◌>>=◌, ◌>>◌, pure, fold_each, reads, raise_if, attempt, ignore,
  for_each,
}
use cloud_file.Server.Storage.{joined}
use cloud_file.Server.World.{Config, Tables, World}
use cloud_file.Base.{map}
use cloud_file.Base.Int.{pos}
use cloud_file.Api.{slice_of, chunk_count_of}
use cloud_file.Text.{decimal}
use cloud_file.Server.Keys.{part_key, temp_prefix, final_object_key}
use cloud_file.Server.FileName.{safe_file_name, IsSafe, safe_file_name-IsSafe}
use cloud_file.Server.Rows.{InitRequest, is_upload_of, uploaded_chunks}
use cloud_file.Server.Files.{delete_physical_file}
use cloud_file.Server.Compensate.{compensate}
use cloud_file.Server.Routes.{
  Request, init_request, chunk_request, merge_request, compensate_request, handle_all,
}
use cloud_file.Server.Tables.{IsConsistent}
use cloud_file.Server.Tables.Requests.{handle_all-IsConsistent}
use cloud_file.Server.Parts.{joined-uploaded_chunks}
use cloud_file.Server.Repair.{IsCompensated, compensate-IsCompensated}
use cloud_file.Server.Deletion.{IsDeleted, delete_physical_file-IsDeleted}
use cloud_file.Server.Media.Attempts.{IsDead}
use cloud_file.Server.Media.Retries.{run_times, run_times-IsDead}
use cloud_file.Server.Merge.{Merged, merge_upload}
use cloud_file.Server.Merge.Served.{Answered, merge_upload-IsServed}
use cloud_file.Examples.Shelf.{Shelf, shelf, shelf_law}

abbrev pub config : Config
config = record { processing_timeout = 60; max_media_retry = 3; new_uuid = λ n. "id" }

abbrev pub hash_all : List ℕ → String
hash_all bytes = "ab"

abbrev pub no_tables : Tables
no_tables = record {
  uploads = [];
  chunks = [];
  metas = [];
  user_files = [];
  media_tasks = [];
  next_id = 1;
}

abbrev pub world_of : Tables → Shelf → World shelf
world_of t s = record {
  tables = t;
  faults = [];
  objects = s;
  locks = [];
  uuids = 0;
  queue = [];
  now = 100;
}

pub no_tables-IsConsistent : IsConsistent no_tables
no_tables-IsConsistent = record {
  uploads = tt;
  chunks = tt;
  old_chunks = tt;
  old_uploads = tt;
  distinct_uploads = tt;
}

abbrev pub always_fails : MediaTask → Action Shelf (Unit {0})
always_fails m s = (fails (failure "broken"), s)

-- three bytes in chunks of two
abbrev pub req : InitRequest
req = record {
  user_id = "u";
  file_name = "a.txt";
  file_hash = "ab";
  file_size = 3;
  chunk_size = 2;
  chunk_count = 2;
  content_type = "text/plain";
  parent_id = none;
}

abbrev pub requests : List Request
requests =
    init_request req
    ∷ chunk_request 1 "u" (pos 1) "" (done (3 ∷ []))
    ∷ chunk_request 1 "u" (pos 0) "" (done (1 ∷ 2 ∷ []))
    ∷ merge_request 1 "u"
    ∷ compensate_request
    ∷ []

handle_all-IsConsistent_example :
    IsConsistent
      (handle_all {S = shelf} config hash_all always_fails requests
        (world_of no_tables (λ k. none))).1.tables
handle_all-IsConsistent_example =
    handle_all-IsConsistent config hash_all always_fails requests (world_of no_tables (λ k. none))
      no_tables-IsConsistent

safe_file_name-IsSafe_example : IsSafe (safe_file_name "../b c.txt")
safe_file_name-IsSafe_example = safe_file_name-IsSafe "../b c.txt"

-- the upload, and its chunks in the order in which they came
abbrev pub upload : UploadTask
upload = record {
  id = 1;
  user_id = "u";
  file_name = "a.txt";
  file_hash = "ab";
  file_size = 3;
  chunk_size = 2;
  chunk_count = 2;
  uploaded_count = 2;
  content_type = "text/plain";
  status = UploadStatus.uploading;
  object_key = "";
  error_msg = "";
  updated_at = 0;
}

abbrev pub chunk : ℕ → ℕ → UploadChunk
chunk i size = record {
  upload_id = 1;
  chunk_index = i;
  chunk_hash = "";
  chunk_size = size;
  object_key = part_key 1 i;
  status = ChunkStatus.uploaded;
}

abbrev pub sent_tables : Tables
sent_tables = record no_tables {
  uploads = upload ∷ [];
  chunks = chunk 1 1 ∷ chunk 0 2 ∷ [];
  next_id = 2;
}

pub sent_tables-IsConsistent : IsConsistent sent_tables
sent_tables-IsConsistent = record {
  uploads = (
    record {
      counted = refl;
      ranged = (refl, (refl, tt));
      placed = (refl, (refl, tt));
      distinct = (refl, (refl, tt));
    },
    tt,
  );
  chunks = (refl, (refl, tt));
  old_chunks = (omega arith, (omega arith, tt));
  old_uploads = (omega arith, tt);
  distinct_uploads = (refl, tt);
}

abbrev pub sent_objects : Shelf
sent_objects k =
    if str_eq k "temp/1/0.part"
    then some (1 ∷ 2 ∷ [])
    else if str_eq k "temp/1/1.part"
    then some (3 ∷ [])
    else none

sent_parts : (i : ℕ) → i < 2 → sent_objects (part_key 1 i) ≡ some (slice_of 2 3 (1 ∷ 2 ∷ 3 ∷ []) i)
unfolding part_key slice_of temp_prefix decimal
sent_parts zero h = refl
sent_parts (suc zero) h = refl
sent_parts (suc (suc i)) h = absurd (omega arith)

joined-uploaded_chunks_example :
    joined sent_objects (map (λ r. r.object_key) (uploaded_chunks 1 sent_tables))
    ≡ some (1 ∷ 2 ∷ 3 ∷ [])
unfolding chunk_count_of
joined-uploaded_chunks_example =
    joined-uploaded_chunks sent_tables (is_upload_of 1 "u") upload (1 ∷ 2 ∷ 3 ∷ []) sent_objects
      sent_tables-IsConsistent refl refl (omega arith) refl sent_parts

-- the upload, with its merge cut off once the object was composed
abbrev cut_off : World shelf
cut_off =
    world_of (record sent_tables { uploads = record upload { status = UploadStatus.merging } ∷ [] })
      (λ k. if str_eq k "files/ab/a.txt" then some (1 ∷ 2 ∷ 3 ∷ []) else none)

cut_off-IsConsistent : IsConsistent cut_off.tables
cut_off-IsConsistent =
    let h = sent_tables-IsConsistent in
    record {
      uploads = (
        record {
          counted = h.uploads.0.counted;
          ranged = h.uploads.0.ranged;
          placed = h.uploads.0.placed;
          distinct = h.uploads.0.distinct;
        },
        tt,
      );
      chunks = h.chunks;
      old_chunks = h.old_chunks;
      old_uploads = h.old_uploads;
      distinct_uploads = h.distinct_uploads;
    }

compensate-IsCompensated_example :
    IsCompensated 40 cut_off.tables (compensate config hash_all cut_off).1.tables
compensate-IsCompensated_example =
    compensate-IsCompensated config hash_all cut_off cut_off-IsConsistent

abbrev video : MediaTask
video = record {
  id = 5;
  file_id = 2;
  task_type = MediaTaskType.video_transcode;
  input_object_key = "files/ab/a.mp4";
  output_object_key = "processed/2/video_transcode";
  status = MediaTaskStatus.pending;
  retry_count = 0;
  max_retry = 3;
  error_msg = "";
  updated_at = 0;
}

abbrev media_world : World shelf
media_world = world_of (record no_tables { media_tasks = video ∷ []; next_id = 6 }) (λ k. none)

run_times-IsDead_example :
    IsDead 5 3 (run_times always_fails "broken" (λ m s. refl) 100 5 3 media_world).1.tables
run_times-IsDead_example =
    run_times-IsDead always_fails "broken" (λ m s. refl) 100 5 2 video media_world refl refl refl
      refl refl refl

abbrev user_file : UserFile
user_file = record {
  id = 3;
  user_id = "u";
  file_id = 2;
  file_name = "a.mp4";
  parent_id = none;
  created_at = 0;
}

-- a file of two users, and one more of the first
abbrev file_world : World shelf
file_world =
    world_of
      (record no_tables {
        user_files =
            user_file
            ∷ record user_file { id = 4; user_id = "v" }
            ∷ record user_file { id = 7; file_id = 6 }
            ∷ [];
        next_id = 8;
      })
      (λ k. none)

delete_physical_file-IsDeleted_example :
    IsDeleted "u" 3
      (record { file_id = 2; removed_refs = 2; removed_objects = 0 })
      file_world.tables
      (delete_physical_file "u" 3 file_world).1.tables
unfolding delete_physical_file ◌>>=◌ ◌>>◌ pure fold_each
delete_physical_file-IsDeleted_example =
    delete_physical_file-IsDeleted "u" 3 file_world
      (record { file_id = 2; removed_refs = 2; removed_objects = 0 }) refl

abbrev merged : Merged
merged = record {
  task = record upload {
    status = UploadStatus.success;
    object_key = "files/ab/a.txt";
    updated_at = 100;
  };
  meta = record {
    id = 2;
    file_hash = "ab";
    file_size = 3;
    object_key = "files/ab/a.txt";
    content_type = "text/plain";
    storage_bucket = "files";
    status = FileStatus.success;
  };
  user_file = some (record {
    id = 3;
    user_id = "u";
    file_id = 2;
    file_name = "a.txt";
    parent_id = none;
    created_at = 100;
  });
  media_tasks = [];
}

merge_upload-IsServed_example :
    Answered shelf_law config hash_all merged
      (merge_upload {S = shelf} config hash_all 1 "u" (world_of sent_tables sent_objects)).1.objects
unfolding merge_upload ◌>>=◌ reads ◌>>◌ raise_if attempt pure joined part_key final_object_key
    ignore for_each
merge_upload-IsServed_example =
    merge_upload-IsServed shelf_law config hash_all 1 "u" (world_of sent_tables sent_objects) merged
      refl
