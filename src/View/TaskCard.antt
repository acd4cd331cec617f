-- ===== src/View/TaskCard.antt =====
-- frontend/src/components/UploadTaskCard.tsx: the texts of a card, the titles of its buttons and what a click
-- asks for; and the head of the list of tasks in frontend/src/App.tsx.
use Prim.Native.String.{◌++◌}
use cloud_file.Base.{Bool, String, List, [], ◌∷◌, map, keep, length, Option, none, some}
use cloud_file.Text.{decimal}
use cloud_file.Types.{UploadTask}
use cloud_file.Format.{format_bytes, format_time}
use cloud_file.Card.{
  status_label, is_active, Button, pause_button, resume_button, retry_button, cancel_button,
  view_button, delete_button, buttons,
}
use cloud_file.App.Step.{Event, pauses, resumes, retries, cancels, views, asks}
use cloud_file.App.State.{delete_task}
use cloud_file.View.FileRow.{or_unknown}

abbrev pub button_title : Button → String
button_title pause_button = "暂停"
button_title resume_button = "继续"
button_title retry_button = "重试"
button_title cancel_button = "取消"
button_title view_button = "查看分片"
button_title delete_button = "删除"

-- the handler of the button, which the console gives
abbrev pub click : Button → UploadTask → Event
click pause_button t = pauses t.id
click resume_button t = resumes t.id
click retry_button t = retries t.id
click cancel_button t = cancels t.id
click view_button t = views (some t.id)
click delete_button t = asks (delete_task t.id)

abbrev pub type_and_size : UploadTask → String
type_and_size t = or_unknown t.file_type ++ " · " ++ format_bytes t.size

abbrev pub chunk_text : UploadTask → String
chunk_text t = "分片：" ++ decimal t.uploaded_chunks ++ " / " ++ decimal t.chunk_count

abbrev pub remaining_text : UploadTask → String
remaining_text t = "剩余：" ++ format_time t.remaining_seconds

-- what a card shows, and what each of its buttons is called and does
pub record TaskCard : Type 0 where
  pub name : String
  pub kind_text : String
  pub label : String
  pub message : String
  pub spins : Bool
  pub chunks : String
  pub remaining : String
  pub actions : List (String × Event)

abbrev pub task_card : UploadTask → TaskCard
task_card t = record {
  name = t.file_name;
  kind_text = type_and_size t;
  label = status_label t.status;
  message = t.message;
  spins = is_active t.status;
  chunks = chunk_text t;
  remaining = remaining_text t;
  actions = map (λ b. (button_title b, click b t)) (buttons t.status);
}

-- the number of active tasks over the list
abbrev pub active_text : List UploadTask → String
active_text tasks = decimal (length (keep (λ t. is_active t.status) tasks)) ++ " 个活跃任务"

abbrev pub no_tasks_text : List UploadTask → Option String
no_tasks_text [] = some "暂无上传任务，拖拽文件到上方区域开始模拟完整上传链路。"
no_tasks_text (t ∷ tasks) = none
