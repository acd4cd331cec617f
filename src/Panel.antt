-- ===== src/Panel.antt =====
-- components/UploadPanel.tsx: the upload actions, and the one that App.tsx selects of them.
use cloud_file.Base.{◌≡◌, refl, Bool, true, false, String, List, [], ◌∷◌, Option, none, some, find}
use cloud_file.Types.{
  UploadKind, general, image, video, archive, batch, instant, resume, UploadAction,
}

abbrev action : UploadKind → String → String → Option String → UploadAction
action kind label hint accept = record { kind = kind; label = label; hint = hint; accept = accept }

-- `uploadActions`, without the icons
unfoldable pub upload_actions : List UploadAction
upload_actions =
    action general "通用文件上传" "适合任意大文件" none
    ∷ action image "图片上传" "自动压缩与缩略图" (some "image/*")
    ∷ action video "视频上传" "模拟转码与封面" (some "video/*")
    ∷ action archive "压缩包上传" "保持原始文件结构" (
        some
          ".zip,.rar,.7z,.tar,.gz,.tgz,.tar.gz,.bz2,.xz,application/zip,application/x-zip-compressed,application/x-rar-compressed,application/x-7z-compressed,application/gzip,application/x-tar")
    ∷ action batch "批量上传" "多文件队列调度" none
    ∷ action instant "秒传检测" "仅创建用户引用" none
    ∷ action resume "恢复未完成任务" "查询已上传分片" none
    ∷ []

-- `===` of two kinds
unfoldable pub same_kind : UploadKind → UploadKind → Bool
same_kind general general = true
same_kind image image = true
same_kind video video = true
same_kind archive archive = true
same_kind batch batch = true
same_kind instant instant = true
same_kind resume resume = true
same_kind _ _ = false

-- `uploadActions.find((action) => action.kind === selectedKind)`
unfoldable pub selected_action : UploadKind → Option UploadAction
unfolding upload_actions same_kind
selected_action kind = find (λ a. same_kind a.kind kind) upload_actions

-- Whatever kind is selected there is an action of that kind to find, as the `!` after the search says.
pub selected_action-some :
    (kind : UploadKind) → (a : UploadAction) × (selected_action kind ≡ some a) × (a.kind ≡ kind)
unfolding selected_action upload_actions same_kind
selected_action-some general = (_, refl, refl)
selected_action-some image = (_, refl, refl)
selected_action-some video = (_, refl, refl)
selected_action-some archive = (_, refl, refl)
selected_action-some batch = (_, refl, refl)
selected_action-some instant = (_, refl, refl)
selected_action-some resume = (_, refl, refl)
