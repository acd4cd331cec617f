-- ===== src/Server/Ledger.antt =====
-- What backend/internal/service/service.go promises of uploads and their chunks, without rows,
-- statements and objects: which uploads were opened, with what announced, and which chunks were received.
pub mod Rows
pub mod Chunks
pub mod Guards
pub mod Refines
use cloud_file.Base.{
  ℕ, suc, ◌==◌, ◌<◌, ◌≤◌, ◌≡◌, ◌⊎◌, Bool, true, false, ◌&&◌, ◌||◌, String, List, [], ◌∷◌, str_eq,
  any, length,
}
use cloud_file.Base.Int.{pos}
use cloud_file.Server.Model.{UploadTask, UploadChunk, is_uploaded}
use cloud_file.Server.Action.{done}
use cloud_file.Server.World.{Tables}
use cloud_file.Server.Rows.{InitRequest, is_upload_of, is_chunk_of}
use cloud_file.Server.Routes.{Request, init_request, chunk_request}

-- `opened id user_id chunk_size chunk_count`, and `received id index`
pub record Ledger : Type 0 where
  pub opened : ℕ → String → ℕ → ℕ → Bool
  pub received : ℕ → ℕ → Bool

-- the ledger of the rows
abbrev pub is_open_as : ℕ → String → ℕ → ℕ → UploadTask → Bool
is_open_as id user_id size count u =
    is_upload_of id user_id u && (u.chunk_size == size && u.chunk_count == count)

abbrev pub is_received : ℕ → ℕ → UploadChunk → Bool
is_received id i r = is_chunk_of id i r && is_uploaded r.status

abbrev pub ledger : Tables → Ledger
ledger t = record {
  opened = λ id user_id size count. any (is_open_as id user_id size count) t.uploads;
  received = λ id i. any (is_received id i) t.chunks;
}

-- the rows have that ledger
abbrev pub Has : Ledger → Tables → Type 0
Has l t = ledger t ≡ l

-- one upload more, and one chunk more
abbrev pub opening : ℕ → InitRequest → Ledger → Ledger
opening id req l = record l {
  opened = λ j user_id size count.
      l.opened j user_id size count
      || id == j
        && str_eq req.user_id user_id
        && (req.chunk_size == size && req.chunk_count == count);
}

abbrev pub receiving : ℕ → ℕ → Ledger → Ledger
receiving id i l = record l { received = λ j k. l.received j k || id == j && i == k }

-- `n` bytes are a chunk: no more than its size, and as many as that unless it is the last
pub record IsChunkSize (size count i n : ℕ) : Type 0 where
  pub filled : 0 < n
  pub fits : n ≤ size
  pub whole : (suc i ≡ count) ⊎ (n ≡ size)

-- What a request may do: nothing; open an upload under an id that was not given before; receive a chunk
-- of an upload that the same user opened, of an announced index and size, with the hash that it states.
pub data Allows (sha256_hex : List ℕ → String) (l : Ledger) : Request → Ledger → Type 0 where
  nothing : (req : Request) → Allows sha256_hex l req l
  opens :
      (req : InitRequest) (id : ℕ)
      → ((user_id : String) (size count : ℕ) → l.opened id user_id size count ≡ false)
      → ((i : ℕ) → l.received id i ≡ false)
      → Allows sha256_hex l (init_request req) (opening id req l)
  receives :
      (id : ℕ) (user_id : String) (i size count : ℕ) (hash : String) (bytes : List ℕ)
      → l.opened id user_id size count ≡ true
      → i < count
      → IsChunkSize size count i (length bytes)
      → (hash ≡ "") ⊎ (sha256_hex bytes ≡ hash)
      → Allows sha256_hex l (chunk_request id user_id (pos i) hash (done bytes)) (receiving id i l)

pub data AllowsAll (sha256_hex : List ℕ → String) : Ledger → List Request → Ledger → Type 0 where
  stop : (l : Ledger) → AllowsAll sha256_hex l [] l
  step :
      (l m n : Ledger) (req : Request) (rest : List Request)
      → Allows sha256_hex l req m
      → AllowsAll sha256_hex m rest n
      → AllowsAll sha256_hex l (req ∷ rest) n

-- the ledger after a request, which it allows
abbrev pub Meets : (List ℕ → String) → Ledger → Request → Tables → Type 0
Meets sha256_hex l req t = Allows sha256_hex l req (ledger t)
