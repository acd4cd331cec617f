-- ===== src/View/Drawer.antt =====
-- frontend/src/components/ChunkDrawer.tsx: the fields, the legend and the chunks of the selected task.
use Prim.Native.String.{◌++◌}
use cloud_file.Base.{
  ◌+◌, String, List, [], ◌∷◌, map, Option, none, some, find, str_eq, if◌then◌else◌,
}
use cloud_file.Text.{decimal}
use cloud_file.Types.{ChunkStatus, Chunk, UploadTask}
use cloud_file.App.State.{Console}
use cloud_file.Card.{status_value, chunk_label}

-- `value || "-"`
abbrev pub or_dash : Option String → String
or_dash none = "-"
or_dash (some s) = if str_eq s "" then "-" else s

-- the four fields, by their labels
abbrev pub drawer_fields : UploadTask → List (String × String)
drawer_fields t =
    ("Upload ID", or_dash t.upload_id)
    ∷ ("Hash", or_dash t.hash)
    ∷ ("已上传分片", decimal t.uploaded_chunks ++ " / " ++ decimal t.chunk_count)
    ∷ ("状态", status_value t.status)
    ∷ []

abbrev pub legend : List String
legend =
    map chunk_label
      (ChunkStatus.uploaded ∷ ChunkStatus.uploading ∷ ChunkStatus.pending ∷ ChunkStatus.failed ∷ [])

-- a chunk: its title, and its number from 1 on
abbrev pub chunk_cell : Chunk → String × String
chunk_cell c = ("chunk " ++ decimal c.index ++ ": " ++ chunk_label c.status, decimal (c.index + 1))

pub record DrawerContent : Type 0 where
  pub name : String
  pub fields : List (String × String)
  pub legend_labels : List String
  pub cells : List (String × String)

-- nothing is shown where no task is selected
abbrev pub drawer : Option UploadTask → Option DrawerContent
drawer none = none
drawer (some t) = some (record {
  name = t.file_name;
  fields = drawer_fields t;
  legend_labels = legend;
  cells = map chunk_cell t.chunks;
})

-- the task in the drawer: `tasks.find(…) || null`
abbrev pub selected_task : Console → Option UploadTask
selected_task s = elim s.selected_task_id [
  | none ↦ none
  | some id ↦ find (λ t. str_eq t.id id) s.tasks
]
