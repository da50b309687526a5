-- ===== src/Response.antt =====
-- app_error.rs and models/mod.rs: responses, their entry for the access log, and the errors of the
-- gateway. The texts that the source builds by `format!` are kept as what they are built from.
use que_qiao_router.Base.{ℕ, String, Bool, Option, none, some, List, ◌&&◌, leb, if◌then◌else◌}

-- services/dispatcher.rs: what an upstream 4xx means.
pub data UpstreamClientErrorKind : Type 0 where
  credential_invalid permission_denied model_not_supported rate_limited : UpstreamClientErrorKind
  request_rejected : UpstreamClientErrorKind

pub data Message : Type 0 where
  text : String → Message
  -- "The model `{}` does not exist."
  no_such_model : String → Message
  -- "Request to upstream timed out: {}" and its like: a prefix and the error.
  caused : String → String → Message
  -- "Upstream client error: {status}"
  client_error : ℕ → Message
  -- "Upstream client error: {status} ({kind}) - {hint}", the hint being that of the kind.
  client_error_of : ℕ → UpstreamClientErrorKind → Message
  -- "All clients failed; passing through upstream {status} ({kind}): {advice}"
  passing_through : ℕ → UpstreamClientErrorKind → Message
  -- "All upstream providers for model '{}' are cooling down"
  cooling_down : String → Message
  -- "All upstream providers failed for model '{}'. Tried clients: {:?}"
  all_failed : String → List String → Message
  -- "{} (Tried: {:?})"
  with_tried : Message → List String → Message

pub record AccessLogMeta : Type 0 where
  pub model : String
  pub backend : String
  pub error : Option Message
  pub request_body : Option String

pub data Body : Type 0 where
  -- Whatever a handler answered.
  payload : String → Body
  -- `build_error_body`, by message and type.
  error_body : Message → String → Body

-- The extensions are the entry for the access log, if there is one.
pub record Response : Type 0 where
  pub status : ℕ
  pub body : Body
  pub meta : Option AccessLogMeta

abbrev pub is_success : ℕ → Bool
is_success status = leb 200 status && leb status 299

abbrev pub is_client_error : ℕ → Bool
is_client_error status = leb 400 status && leb status 499

abbrev pub is_server_error : ℕ → Bool
is_server_error status = leb 500 status && leb status 599

-- What the source asks of an error of the HTTP client.
pub record ReqwestError : Type 0 where
  pub is_timeout : Bool
  pub is_connect : Bool
  pub status : Option ℕ
  pub display : String

pub data AppError : Type 0 where
  reqwest_error : ReqwestError → AppError
  database_error : String → AppError
  client_not_found : String → AppError
  upstream_error : String → AppError
  invalid_header : String → AppError
  internal_server_error : Message → AppError
  api_error : ℕ → String → String → AppError

-- Status, message and type of an error.
pub record ErrorParts : Type 0 where
  pub status : ℕ
  pub message : Message
  pub error_type : String

abbrev pub parts : ℕ → Message → String → ErrorParts
parts status message error_type = record {
  status = status;
  message = message;
  error_type = error_type;
}

unfoldable pub reqwest_parts : ReqwestError → ErrorParts
reqwest_parts err =
    if err.is_timeout
    then parts 504 (caused "Request to upstream timed out: " err.display) "timeout_error"
    else if err.is_connect
    then parts 502 (caused "Failed to connect to upstream: " err.display) "connection_error"
    else (elim err.status [
      | some status ↦ parts status (caused "Upstream returned error: " err.display) "upstream_error"
      | none ↦ parts 500 (caused "External request failed: " err.display) "internal_error"
    ])

unfoldable pub error_parts : AppError → ErrorParts
unfolding reqwest_parts
error_parts (reqwest_error err) = reqwest_parts err
error_parts (database_error err) =
    parts 500 (caused "Database operation failed: " err) "database_error"
error_parts (client_not_found model) = parts 422 (no_such_model model) "Input Validation Error"
error_parts (upstream_error msg) = parts 502 (text msg) "upstream_error"
error_parts (invalid_header msg) = parts 400 (text msg) "invalid_request_error"
error_parts (internal_server_error msg) = parts 500 msg "internal_error"
error_parts (api_error status message error_type) = parts status (text message) error_type

unfoldable pub into_response : AppError → Response
unfolding error_parts
into_response e =
    let p = error_parts e in
    record {
      status = p.status;
      body = error_body p.message p.error_type;
      meta = some (record {
        model = "-";
        backend = "unknown";
        error = some p.message;
        request_body = none;
      });
    }
