-- ===== src/Wire.antt =====
-- frontend/src/mockApi.ts, `request` and the shapes of requests and replies. The browser is outside
-- the program: what `fetch` gave for a request is a `Reply`; `encodeURIComponent`, SHA-256 and the
-- build's `VITE_API_BASE` are the fields of a `Platform`.
use cloud_file.Base.{ℕ, Bool, String, List, Option, none, some, str_eq, if◌then◌else◌}

pub record Platform : Type 0 where
  pub vite_api_base : Option String
  pub encode_uri_component : String → String
  pub sha256 : List ℕ → List ℕ

-- A thrown value: `error instanceof Error` asks which.
pub data Thrown : Type 0 where
  error : String → Thrown
  other_value : Thrown

pub data Result {ℓ} (A : Type ℓ) : Type ℓ where
  ok : A → Result A
  throws : Thrown → Result A

-- `error instanceof Error ? error.message : fallback`
abbrev pub message_of : Thrown → String → String
message_of (error message) fallback = message
message_of other_value fallback = fallback

-- `value || fallback` on a text that may be missing
abbrev pub or_text : Option String → String → String
or_text none fallback = fallback
or_text (some s) fallback = if str_eq s "" then fallback else s

-- What became of a `fetch`: it rejected; it came back with a status that is no success (the status
-- text, and the `detail` of its JSON if it has one); it came back with JSON of the type that the
-- caller casts it to; or it came back with a success and no JSON.
pub data Reply {ℓ} (A : Type ℓ) : Type ℓ where
  rejected : Thrown → Reply A
  refused : String → Option String → Reply A
  accepted : A → Reply A
  not_json : Thrown → Reply A

unfoldable pub request {ℓ} : {A : Type ℓ} → Reply A → Result A
request (rejected e) = throws e
request (refused status_text detail) = throws (error (or_text detail status_text))
request (accepted body) = ok body
request (not_json e) = throws e

pub data Method : Type 0 where
  get post delete : Method

pub record InitBody : Type 0 where
  pub user_id : String
  pub file_name : String
  pub file_hash : String
  pub file_size : ℕ
  pub chunk_size : ℕ
  pub chunk_count : ℕ
  pub content_type : String

pub data Body : Type 0 where
  no_body : Body
  json : InitBody → Body
  form : String → List ℕ → String → Body

pub record Request : Type 0 where
  pub url : String
  pub method : Method
  pub body : Body

-- The bodies of the replies, as the casts of the source type them. Of a listed file, `created_at` is the
-- time in milliseconds that `new Date` reads of its text, and `is_success` says that its status is
-- `SUCCESS`.
pub record InitReply : Type 0 where
  pub instant : Bool
  pub upload_id : Option ℕ
  pub uploaded_chunks : Option (List ℕ)
  pub chunk_size : ℕ
  pub chunk_count : ℕ
  pub file_id : Option ℕ

pub record ListedFile : Type 0 where
  pub id : ℕ
  pub file_name : String
  pub created_at : ℕ
  pub content_type : String
  pub file_size : ℕ
  pub is_success : Bool
