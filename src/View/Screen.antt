-- ===== src/View/Screen.antt =====
-- frontend/src/App.tsx and frontend/src/components/UploadPanel.tsx: what the rest of the page shows, and what its
-- buttons, its file input and its drop area ask of the console.
use Prim.Native.String.{◌++◌}
use cloud_file.Base.{ℕ, Bool, false, String, List, [], ◌∷◌, Option, none, some, map, if◌then◌else◌}
use cloud_file.Types.{File, UploadKind, UploadAction, batch}
use cloud_file.Panel.{upload_actions, selected_action, same_kind}
use cloud_file.App.State.{
  Tone, success, info, warning, Toast, ConfirmState, delete_task, delete_file, Console,
}
use cloud_file.App.Upload.{handle_files}
use cloud_file.App.Step.{Event, toggles, selects, dismisses, confirms}
use cloud_file.View.TaskCard.{TaskCard, task_card, active_text, no_tasks_text}
use cloud_file.View.Drawer.{DrawerContent, drawer, selected_task}

-- `onInputChange`: the files of the input, if it has any
unfoldable pub on_input_change : Option (List (String × File)) → ℕ → Console → Console
unfolding handle_files
on_input_change none now s = s
on_input_change (some files) now s = handle_files files now s

-- `onDrop`
unfoldable pub on_drop : List (String × File) → ℕ → Console → Console
unfolding handle_files
on_drop files now s = handle_files files now (record s { drag_active = false })

-- a button of the panel
pub record PanelEntry : Type 0 where
  pub label : String
  pub hint : String
  pub is_active : Bool
  pub on_click : Event

abbrev pub panel_entry : UploadKind → UploadAction → PanelEntry
panel_entry selected action = record {
  label = action.label;
  hint = action.hint;
  is_active = same_kind selected action.kind;
  on_click = selects action.kind;
}

abbrev pub panel_entries : UploadKind → List PanelEntry
panel_entries selected = map (panel_entry selected) upload_actions

-- the button of the network; the id is the one of the toast that the click makes
abbrev pub network_button : String → Console → String × Event
network_button uuid s = (if s.network_online then "网络正常" else "网络断开", toggles uuid)

-- the file input, and the texts over its button
pub record DropArea : Type 0 where
  pub multiple : Bool
  pub accept : Option String
  pub heading : String
  pub text : String

abbrev pub drop_text : UploadAction → String
drop_text action = action.hint ++ "。文件会先计算 Hash，再执行秒传校验；未命中时进入分片上传、断点续传、幂等合并和异步处理流程。"

abbrev pub drop_area : UploadKind → Option UploadAction → Option DropArea
drop_area selected none = none
drop_area selected (some action) = some (record {
  multiple = same_kind selected batch;
  accept = action.accept;
  heading = action.label;
  text = drop_text action;
})

-- the colours of a toast
abbrev pub toast_class : Tone → String
toast_class success = "bg-emerald-600 text-white"
toast_class warning = "bg-orange-500 text-white"
toast_class info = "bg-slate-950 text-white"

abbrev pub toast_view : Toast → String × String
toast_view item = (item.message, toast_class item.tone)

-- the texts that `requestDeleteTask` and `requestDeleteFile` give the dialog
abbrev pub dialog_title : ConfirmState → String
dialog_title (delete_task id) = "删除上传任务"
dialog_title (delete_file id) = "删除物理文件"

abbrev pub dialog_description : ConfirmState → String
dialog_description (delete_task id) = "该操作只会从当前界面移除上传任务记录。若要删除已上传的物理文件，请在文件列表中删除。"
dialog_description (delete_file id) = "该操作将删除底层物理文件、文件列表引用和关联媒体任务，删除后无法下载。"

-- the dialog, with its buttons
pub record Dialog : Type 0 where
  pub title : String
  pub description : String
  pub buttons : List (String × Event)

abbrev pub dialog : String → Option ConfirmState → Option Dialog
dialog uuid none = none
dialog uuid (some what) = some (record {
  title = dialog_title what;
  description = dialog_description what;
  buttons = ("关闭", dismisses) ∷ ("取消", dismisses) ∷ ("确认删除", confirms uuid) ∷ [];
})

-- the page, without the statistics and the file list, which have views of their own
pub record Screen : Type 0 where
  pub network : String × Event
  pub panel : List PanelEntry
  pub drop : Option DropArea
  pub active : String
  pub cards : List TaskCard
  pub no_tasks : Option String
  pub drawer_content : Option DrawerContent
  pub toasts : List (String × String)
  pub confirm_dialog : Option Dialog

unfoldable pub screen : String → Console → Screen
unfolding upload_actions selected_action same_kind
screen uuid s = record {
  network = network_button uuid s;
  panel = panel_entries s.selected_kind;
  drop = drop_area s.selected_kind (selected_action s.selected_kind);
  active = active_text s.tasks;
  cards = map task_card s.tasks;
  no_tasks = no_tasks_text s.tasks;
  drawer_content = drawer (selected_task s);
  toasts = map toast_view s.toasts;
  confirm_dialog = dialog uuid s.confirm_state;
}
