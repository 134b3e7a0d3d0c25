-- ===== src/Http/Messages.antt =====
-- internal/httpx/http.go and the parts of net/http that the services use. A header is a function
-- from a name, in the one spelling that the source uses for it, to its value, which is empty where
-- it is missing. A response carries what is encoded as JSON, not its bytes.
use linka_plays_metric.Prelude.{
  String, ℕ, Option, none, some, Bool, ◌==◌, ltb, if◌then◌else◌, Bytes, length,
}
use linka_plays_metric.Auth.{ServiceHeaders, ProductClaims, InstallationClaims}

-- What arrives of a body: all of it, or what came before the connection broke.
pub data Incoming : Type 0 where
  whole : Bytes → Incoming
  broken : Bytes → Incoming

pub record Request : Type 0 where
  pub method : String
  pub path : String
  pub header : String → String
  pub body : Incoming

pub data Content : Type 0 where
  failure : String → Content
  healthy : Content
  accepted_batch : (batch_id : String) (accepted_records : ℕ) (replayed : Bool) → Content
  accepted_events : (events session_summaries : ℕ) → Content
  accepted_privacy : (request_id status : String) (replayed : Bool) → Content
  created_installation : InstallationClaims → (token : String) → Content
  created_token : ProductClaims → (token : String) → Content

pub record Response : Type 0 where
  pub status : ℕ
  pub content : Content

unfoldable pub write_error : ℕ → String → Response
write_error status code = record { status = status; content = failure code }

-- `mime.ParseMediaType`, without its error.
pub record Media : Type 0 where
  pub media_type : String → Option String

abbrev is_json_type : Option String → Bool
is_json_type none = Bool.false
is_json_type (some media) = media == "application/json"

unfoldable pub is_json : Media → Request → Bool
is_json m r = is_json_type (m.media_type (r.header "Content-Type"))

pub data BodyRead : Type 0 where
  read : Bytes → BodyRead
  too_large invalid : BodyRead

-- A body over the limit is refused even if it breaks off behind the limit.
unfoldable pub read_body : ℕ → Incoming → BodyRead
read_body limit (whole bytes) = if ltb limit (length bytes) then too_large else read bytes
read_body limit (broken bytes) = if ltb limit (length bytes) then too_large else invalid

abbrev pub set_header : String → String → (String → String) → String → String
set_header name value header key = if key == name then value else header key

unfoldable pub service_headers_from_request : Request → ServiceHeaders
service_headers_from_request r = record {
  version = r.header "X-Linka-Signature-Version";
  key_id = r.header "X-Linka-Key-ID";
  caller = r.header "X-Linka-Caller";
  request_id = r.header "X-Linka-Request-ID";
  timestamp = r.header "X-Linka-Timestamp";
  body_sha = r.header "X-Linka-Body-SHA256";
  signature = r.header "X-Linka-Signature";
}

unfoldable pub apply_service_headers : ServiceHeaders → (String → String) → String → String
apply_service_headers headers header = set_header "X-Linka-Signature" headers.signature (
    set_header "X-Linka-Body-SHA256" headers.body_sha (
      set_header "X-Linka-Timestamp" headers.timestamp (
        set_header "X-Linka-Request-ID" headers.request_id (
          set_header "X-Linka-Caller" headers.caller (
            set_header "X-Linka-Key-ID" headers.key_id
              (set_header "X-Linka-Signature-Version" headers.version header))))))
