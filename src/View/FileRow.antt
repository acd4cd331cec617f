-- ===== src/View/FileRow.antt =====
-- frontend/src/components/FileList.tsx: the options of the filters, and the row of a file. `local_time` is
-- `new Date(…).toLocaleString()`.
use cloud_file.Base.{ℕ, String, List, [], ◌∷◌, Option, none, some, str_eq, if◌then◌else◌}
use cloud_file.Types.{FileItem}
use cloud_file.Format.{format_bytes}
use cloud_file.Card.{status_text}
use cloud_file.App.State.{delete_file}
use cloud_file.App.Step.{Event, views, asks}

-- the value and the text of each option
abbrev pub type_options : List (String × String)
type_options =
    ("all", "全部类型") ∷ ("image/", "图片") ∷ ("video/", "视频") ∷ ("application/", "压缩包/文档") ∷ []

abbrev pub status_options : List (String × String)
status_options =
    ("all", "全部状态")
    ∷ ("INSTANT_SUCCESS", "秒传成功")
    ∷ ("SUCCESS", "上传完成")
    ∷ ("MEDIA_SUCCESS", "处理完成")
    ∷ []

abbrev pub sort_options : List (String × String)
sort_options =
    ("time-desc", "上传时间 新到旧")
    ∷ ("time-asc", "上传时间 旧到新")
    ∷ ("size-desc", "文件大小 大到小")
    ∷ ("size-asc", "文件大小 小到大")
    ∷ []

-- `value || "unknown"`
abbrev pub or_unknown : String → String
or_unknown s = if str_eq s "" then "unknown" else s

-- what a row shows, where its link leads and what it saves as, and what the clicks on its buttons ask for
pub record FileRow : Type 0 where
  pub name : String
  pub uploaded_at : String
  pub type_text : String
  pub size_text : String
  pub status : String
  pub href : String
  pub download : String
  pub on_view : Event
  pub on_delete : Event

abbrev pub file_row : (ℕ → String) → FileItem → FileRow
file_row local_time f = record {
  name = f.name;
  uploaded_at = local_time f.uploaded_at;
  type_text = or_unknown f.file_type;
  size_text = format_bytes f.size;
  status = status_text f.status;
  href = f.link;
  download = f.name;
  on_view = views (some f.task_id);
  on_delete = asks (delete_file f.id);
}

-- the text under the rows where there are none
abbrev pub no_files_text : List FileItem → Option String
no_files_text [] = some "暂无匹配文件"
no_files_text (f ∷ files) = none
