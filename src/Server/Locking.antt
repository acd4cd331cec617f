-- ===== src/Server/Locking.antt =====
-- backend/internal/lock/lock.go: requests that run at the same time and take the lock in memory. A request
-- is outside, or holds the lock of its key; what it does in between may change all but the locks.
pub mod Entries
pub mod Guarded
pub mod Exclusion
use cloud_file.Base.{
  ℕ, ◌==◌, ◌≡◌, ◌⊎◌, Bool, false, String, List, [], Option, none, some, any, str_eq, if◌then◌else◌,
}
use cloud_file.Server.Action.{Outcome, done}
use cloud_file.Server.Storage.{ObjectStore}
use cloud_file.Server.World.{Config, World, acquire, release}

pub data Phase : Type 0 where
  outside : Phase
  holding : String → Phase

-- the world that the requests share, and where each of them is
pub record System (S : ObjectStore) : Type 0 where
  pub world : World S
  pub phases : ℕ → Phase

abbrev pub set_phase : ℕ → Phase → (ℕ → Phase) → ℕ → Phase
set_phase i p phases j = if j == i then p else phases j

-- One step of one of the requests: `MergeUpload` takes the lock, or is refused; does some of its work; or
-- gives the lock back by its deferred `Release`.
pub data Moves {S : ObjectStore} (c : Config) (key : ℕ → String) (s : System S)
    : System S → Type 0 where
  takes :
      (i : ℕ) (value : String) (w : World S)
      → s.phases i ≡ outside
      → acquire c (key i) s.world ≡ (done (some value), w)
      → Moves c key s (record { world = w; phases = set_phase i (holding value) s.phases })
  refused :
      (i : ℕ) (w : World S)
      → s.phases i ≡ outside
      → acquire c (key i) s.world ≡ (done none, w)
      → Moves c key s (record { world = w; phases = s.phases })
  gives_back :
      (i : ℕ) (value : String)
      → s.phases i ≡ holding value
      → Moves c key s (record {
        world = (release (key i) value s.world).1;
        phases = set_phase i outside s.phases;
      })
  works :
      (w : World S)
      → w.locks ≡ s.world.locks
      → Moves c key s (record { world = w; phases = s.phases })

-- what any number of steps reach
pub data Reach {S : ObjectStore} (c : Config) (key : ℕ → String) (s : System S)
    : System S → Type 0 where
  here : Reach c key s s
  next : (t u : System S) → Reach c key s t → Moves c key t u → Reach c key s u
