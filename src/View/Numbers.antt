-- ===== src/View/Numbers.antt =====
-- frontend/src/components/StatsCards.tsx: the cards with their labels, numbers and suffixes.
use Prim.Native.String.{◌++◌}
use cloud_file.Base.{ℕ, String, List, [], ◌∷◌, map}
use cloud_file.Text.{decimal}
use cloud_file.Types.{UploadStats}

-- an entry of `items`: which number of the statistics, its label, its suffix
pub record StatItem : Type 0 where
  pub value : UploadStats → ℕ
  pub label : String
  pub suffix : String

abbrev pub stat_items : List StatItem
stat_items =
    record { value = λ s. s.today_uploads; label = "今日上传数"; suffix = "" }
    ∷ record { value = λ s. s.success_rate; label = "上传成功率"; suffix = "%" }
    ∷ record { value = λ s. s.instant_hits; label = "秒传命中数"; suffix = "" }
    ∷ record { value = λ s. s.uploading_tasks; label = "上传中任务数"; suffix = "" }
    ∷ record { value = λ s. s.media_processing_tasks; label = "媒体处理中"; suffix = "" }
    ∷ record { value = λ s. s.failed_tasks; label = "失败任务数"; suffix = "" }
    ∷ []

-- the label and the number of each card
abbrev pub stat_cards : UploadStats → List (String × String)
stat_cards s = map (λ item. (item.label, decimal (item.value s) ++ item.suffix)) stat_items
