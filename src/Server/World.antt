-- ===== src/Server/World.antt =====
-- What the service's calls act on: the rows of the database, the objects, the locks of
-- backend/internal/lock/lock.go (`MemoryLock`), and the queue of backend/internal/queue/queue.go
-- (`InlineQueue`).
--
-- The database is outside: it answers queries as SQL says, gives each new row an id that no row has had,
-- and may refuse any statement. `faults` says which: its head is for the next statement, `none` for one
-- that goes through, and where it ends, all go through.
pub mod Rules
pub mod Objects
pub mod Quiet
pub mod Calm
use cloud_file.Base.{
  ℕ, suc, ◌+◌, ◌==◌, Bool, true, false, not, ◌&&◌, String, List, [], ◌∷◌, ◌++◌, map, Option, none,
  some, str_eq, ltb, keep, find, any, length, if◌then◌else◌,
}
use cloud_file.Server.Model.{UploadTask, UploadChunk, FileMeta, UserFile, MediaTask}
use cloud_file.Server.Action.{
  Failure, not_found, failure, Outcome, done, fails, Action, pure, writes, ◌>>=◌, ◌>>◌, ignore,
}
use cloud_file.Server.Storage.{ObjectStore}

-- what the service reads of its configuration, and the texts of `uuid.NewString()`
pub record Config : Type 0 where
  pub processing_timeout : ℕ
  pub max_media_retry : ℕ
  pub new_uuid : ℕ → String

pub record Tables : Type 0 where
  pub uploads : List UploadTask
  pub chunks : List UploadChunk
  pub metas : List FileMeta
  pub user_files : List UserFile
  pub media_tasks : List MediaTask
  pub next_id : ℕ

pub record World (S : ObjectStore) : Type 0 where
  pub tables : Tables
  pub faults : List (Option String)
  pub objects : S.State
  pub locks : List (String × String)
  pub uuids : ℕ
  pub queue : List ℕ
  pub now : ℕ

abbrev pub found : {A : Type 0} → Option A → Outcome A
found none = fails not_found
found (some a) = done a

module _ {S : ObjectStore} where
  -- a statement that the database runs, or refuses
  abbrev pub answered :
      {A : Type 0} → List (Option String) → (Tables → Outcome A × Tables) → Action (World S) A
  answered (some e ∷ rest) f w = (fails (failure e), record w { faults = rest })
  answered (none ∷ rest) f w =
      let (r, tables) = f w.tables in (r, record w { tables = tables; faults = rest })
  answered [] f w = let (r, tables) = f w.tables in (r, record w { tables = tables })

  unfoldable pub statement : {A : Type 0} → (Tables → Outcome A × Tables) → Action (World S) A
  statement f w = answered w.faults f w

  -- `Find`, and `First`
  unfoldable pub find_rows : {A : Type 0} → (Tables → List A) → Action (World S) (List A)
  unfolding statement
  find_rows f = statement (λ t. (done (f t), t))

  unfoldable pub first_row : {A : Type 0} → (Tables → Option A) → Action (World S) A
  unfolding statement
  first_row f = statement (λ t. (found (f t), t))

  -- `Create`, `Save`, `Updates`, `Delete`
  unfoldable pub change : {A : Type 0} → (Tables → A × Tables) → Action (World S) A
  unfolding statement
  change f = statement (λ t. let (a, t') = f t in (done a, t'))

  -- `Transaction`: the statements of its body and its commit, or, if one is refused, none of them
  abbrev pub undo : {A : Type 0} → Tables → Outcome A × World S → Outcome A × World S
  undo tables (done a, w) = (done a, w)
  undo tables (fails e, w) = (fails e, record w { tables = tables })

  unfoldable pub transaction : {A : Type 0} → Action (World S) A → Action (World S) A
  unfolding change
  transaction m w = undo w.tables ((m >>= λ a. change (λ t. (a, t))) w)

  -- a call of the object store
  unfoldable pub stored : {A : Type 0} → Action S.State A → Action (World S) A
  stored m w = let (r, s) = m w.objects in (r, record w { objects = s })

  -- `Exists`, which has no error
  unfoldable pub is_stored : String → Action (World S) Bool
  is_stored key w = let (b, s) = S.exists_object key w.objects in (done b, record w { objects = s })

  -- `MemoryLock`: `Acquire` and `Release`
  unfoldable pub acquire : Config → String → Action (World S) (Option String)
  acquire c key w = if any (λ l. str_eq l.0 key) w.locks then (done none, w) else (
    done (some (c.new_uuid w.uuids)),
    record w { locks = (key, c.new_uuid w.uuids) ∷ w.locks; uuids = w.uuids + 1 },
  )

  unfoldable pub release : String → String → Action (World S) (Unit {0})
  release key value =
      writes
        (λ w. record w { locks = keep (λ l. not (str_eq l.0 key && str_eq l.1 value)) w.locks })

  -- `PublishMediaTask` of the inline queue, whose channel holds 1024; past that it waits until the
  -- request is given up
  unfoldable pub publish_media_task : ℕ → Action (World S) (Unit {0})
  publish_media_task id w =
      if ltb (length w.queue) 1024
      then (done tt, record w { queue = w.queue ++ id ∷ [] })
      else (fails (failure "context canceled"), w)

  -- `PublishDead` of the inline queue, which keeps no dead letters
  abbrev pub publish_dead : ℕ → Action (World S) (Unit {0})
  publish_dead id = pure tt

-- the rows that a test finds, changed
abbrev pub change_rows : {A : Type 0} → (A → Bool) → (A → A) → List A → List A
change_rows test f rows = map (λ row. if test row then f row else row) rows
