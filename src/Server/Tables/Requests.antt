-- ===== src/Server/Tables/Requests.antt =====
-- backend/internal/service/service.go: every request keeps the tables consistent.
use cloud_file.Base.{ℕ, String, List}
use cloud_file.Server.Model.{FileMeta, MediaTask}
use cloud_file.Server.Action.{not_found, failure, Outcome, done, fails, Action}
use cloud_file.Server.Action.Rules.{Ends, Keeps, keeps_rules, Keeps-each}
use cloud_file.Server.Storage.{ObjectStore}
use cloud_file.Server.World.{Config, World, change}
use cloud_file.Server.World.Rules.{On, Keeps-change, rows_rules}
use cloud_file.Server.Rows.{InitRequest, create_upload}
use cloud_file.Server.Routes.{Request, handle, handle_all}
use cloud_file.Server.Tables.Merges.{Keeps-create_user_file}
use cloud_file.Server.Uploads.{init_known, init_upload}
use cloud_file.Server.Tables.{IsConsistent}
use cloud_file.Server.Tables.Stable.{IsStable}
use cloud_file.Server.Tables.Handled.{handle-Keeps}
use cloud_file.Server.Tables.Steps.{
  IsConsistent-grow, IsConsistent-update, IsConsistent-create_upload,
}
use cloud_file.Server.Tables.Chunks.{upload_chunk-Keeps}

pub kept :
    {S : ObjectStore} {A : Type 0} (x : Outcome A × World S)
    → Ends (λ a. On S IsConsistent) (On S IsConsistent) x
    → IsConsistent x.1.tables
kept (done a, w) h = h.rows
kept (fails e, w) h = h.rows

pub IsConsistent-IsStable : IsStable IsConsistent
IsConsistent-IsStable = record {
  grow = IsConsistent-grow;
  update = λ t test f ids users counts sizes chunks. IsConsistent-update t test f ids counts chunks;
}

module _ {S : ObjectStore} where
  Keeps-create_upload :
      (req : InitRequest) (now : ℕ) → Keeps (On S IsConsistent) (change (create_upload req now))
  Keeps-create_upload req now = Keeps-change _ (λ t h. IsConsistent-create_upload req now t h)

  init_known-Keeps :
      (req : InitRequest) (now : ℕ) (r : Outcome FileMeta)
      → Keeps (On S IsConsistent) (init_known req now r)
  unfolding init_known
  init_known-Keeps req now (done meta) =
      search (keeps_rules, rows_rules, Keeps-create_user_file IsConsistent-IsStable)
  init_known-Keeps req now (fails not_found) = search (keeps_rules, Keeps-create_upload)
  init_known-Keeps req now (fails (failure e)) = search keeps_rules

  init_upload-Keeps : (req : InitRequest) → Keeps (On S IsConsistent) (init_upload req)
  unfolding init_upload
  init_upload-Keeps req = search (keeps_rules, rows_rules, init_known-Keeps)

module _ {S : ObjectStore} (c : Config) (sha256_hex : List ℕ → String)
    (process : MediaTask → Action S.State (Unit {0})) where
  pub handle-IsConsistent :
      (r : Request) → Keeps (On S IsConsistent) (handle {S = S} c sha256_hex process r)
  handle-IsConsistent =
      handle-Keeps IsConsistent-IsStable c sha256_hex process init_upload-Keeps
        (upload_chunk-Keeps sha256_hex)

  -- Whatever requests arrive, one after the other, and whatever statements the database refuses: where
  -- the tables are consistent before, they are after. That is, each upload's counter is the number of
  -- its uploaded chunk rows, these have distinct indexes below its chunk count and name the objects of
  -- their parts, every chunk row is an uploaded one, and no upload id is given twice.
  pub handle_all-IsConsistent :
      (requests : List Request) (w : World S)
      → IsConsistent w.tables
      → IsConsistent (handle_all {S = S} c sha256_hex process requests w).1.tables
  unfolding handle_all
  handle_all-IsConsistent requests w h =
      kept (handle_all c sha256_hex process requests w)
        ((Keeps-each requests handle-IsConsistent).from w (record { rows = h }))
