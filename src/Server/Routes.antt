-- ===== src/Server/Routes.antt =====
-- backend/internal/http/router.go: the requests, each by the operation of the service that its handler
-- calls, without the form of the answers.
use cloud_file.Base.{ℕ, String, List}
use cloud_file.Base.Int.{ℤ}
use cloud_file.Server.Model.{MediaTask}
use cloud_file.Server.Action.{Outcome, Action, ignore, for_each, ◌>>◌}
use cloud_file.Server.Storage.{ObjectStore}
use cloud_file.Server.World.{Config, World}
use cloud_file.Server.Rows.{InitRequest}
use cloud_file.Server.Uploads.{init_upload, upload_status, upload_chunk}
use cloud_file.Server.Merge.{merge_upload}
use cloud_file.Server.Media.{run_media_task, media_task}
use cloud_file.Server.Compensate.{compensate}
use cloud_file.Server.Files.{list_files, download_file, delete_physical_file}

pub data Request : Type 0 where
  init_request : InitRequest → Request
  status_request : ℕ → String → Request
  chunk_request : ℕ → String → ℤ → String → Outcome (List ℕ) → Request
  merge_request : ℕ → String → Request
  list_request : String → Request
  download_request : String → ℕ → Request
  delete_request : String → ℕ → Request
  media_request : ℕ → Request
  run_request : ℕ → Request
  compensate_request : Request

module _ {S : ObjectStore} (c : Config) (sha256_hex : List ℕ → String)
    (process : MediaTask → Action S.State (Unit {0})) where
  unfoldable pub handle : Request → Action (World S) (Unit {0})
  unfolding init_upload upload_status upload_chunk merge_upload list_files download_file
      delete_physical_file run_media_task media_task compensate
  handle (init_request req) = ignore (init_upload req)
  handle (status_request id user_id) = ignore (upload_status id user_id)
  handle (chunk_request id user_id index hash file) =
      ignore (upload_chunk sha256_hex id user_id index hash file)
  handle (merge_request id user_id) = ignore (merge_upload c sha256_hex id user_id)
  handle (list_request user_id) = ignore (list_files user_id)
  handle (download_request user_id id) = ignore (download_file user_id id)
  handle (delete_request user_id id) = ignore (delete_physical_file user_id id)
  handle (media_request id) = ignore (media_task id)
  handle (run_request id) = ignore (run_media_task process id >> media_task id)
  handle compensate_request = ignore (compensate c sha256_hex)

  -- one request after the other
  unfoldable pub handle_all : List Request → Action (World S) (Unit {0})
  unfolding handle
  handle_all requests = for_each requests handle
