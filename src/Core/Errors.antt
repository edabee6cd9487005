-- ===== src/Core/Errors.antt =====
-- core/common/filters/all-exceptions.filter.ts. What was thrown is what the filter can tell of it.
pub mod Privacy
use ai_search_api.Base.{
  ℕ, ◌+◌, Bool, false, not, Option, none, some, List, ◌++◌, leb, if◌then◌else◌,
}
use ai_search_api.Base.Text.{Text, codes, text_eq}

pub data Message : Type 0 where
  line : Text → Message
  lines : List Text → Message

-- `getResponse()` of an HttpException: a text, or an object with a message and an error, if any.
pub data Payload : Type 0 where
  plain : Text → Payload
  object : Option Message → Option Text → Payload

-- An HttpException with its status, name, payload and message; a PrismaClientKnownRequestError with
-- its code and message; another Error with its name, code and message; any other value, printed.
pub data Exception : Type 0 where
  http_exception : ℕ → Text → Payload → Text → Exception
  known_request_error : Text → Text → Exception
  error : Text → Option Text → Text → Exception
  other : Text → Exception

pub record Description : Type 0 where
  pub status : ℕ
  pub error : Text
  pub message : Message

pub record ErrorBody : Type 0 where
  pub status_code : ℕ
  pub error : Text
  pub message : Message
  pub request_id : Option Text
  pub path : Text
  pub timestamp : ℕ

pub record HttpRequest : Type 0 where
  pub id : Option Text
  pub url : Text
  pub method : Text

-- What the filter did: the log line and the exception that went to Sentry, and the response.
pub record Caught : Type 0 where
  pub logged : Option Text
  pub captured : Option Exception
  pub sent : Option (ℕ × ErrorBody)

abbrev pub server_error_min : ℕ
server_error_min = 500

abbrev or_text : Option Text → Text → Text
or_text none d = d
or_text (some t) d = t

abbrev or_message : Option Message → Text → Message
or_message none d = line d
or_message (some m) d = m

abbrev pub describe_http : ℕ → Text → Payload → Text → Description
describe_http status name (plain t) message = record {
  status = status;
  error = name;
  message = line t;
}
describe_http status name (object m e) message = record {
  status = status;
  error = or_text e name;
  message = or_message m message;
}

abbrev pub internal_error : Description
internal_error = record {
  status = 500;
  error = codes "InternalServerError";
  message = line (codes "An unexpected error occurred");
}

abbrev pub describe_known : Text → Description
describe_known code =
    if text_eq code (codes "P2002")
    then record {
      status = 409;
      error = codes "Conflict";
      message = line (codes "A record with these details already exists");
    }
    else if text_eq code (codes "P2025")
    then record {
      status = 404;
      error = codes "NotFound";
      message = line (codes "The requested record was not found");
    }
    else internal_error

abbrev pub is_size_limit : Option Text → Bool
is_size_limit none = false
is_size_limit (some code) = text_eq code (codes "LIMIT_FILE_SIZE")

abbrev pub describe_error : Text → Option Text → Description
describe_error name code =
    if not (text_eq name (codes "MulterError"))
    then internal_error
    else if is_size_limit code
    then record {
      status = 413;
      error = codes "PayloadTooLarge";
      message = line (codes "The uploaded file exceeds the maximum allowed size");
    }
    else record {
      status = 400;
      error = codes "BadRequest";
      message = line (codes "Invalid file upload");
    }

unfoldable pub describe : Exception → Description
describe (http_exception status name payload message) = describe_http status name payload message
describe (known_request_error code message) = describe_known code
describe (error name code message) = describe_error name code
describe (other printed) = internal_error

abbrev pub body_of_error : HttpRequest → ℕ → Description → ErrorBody
body_of_error request now d = record {
  status_code = d.status;
  error = d.error;
  message = d.message;
  request_id = request.id;
  path = request.url;
  timestamp = now;
}

-- `headers_sent` is the response's.
unfoldable pub catch_exception : HttpRequest → Bool → ℕ → Exception → Caught
unfolding describe
catch_exception request headers_sent now exception =
    let d : Description = describe exception in
    let severe : Bool = leb server_error_min d.status in
    record {
      logged =
          if severe
          then some (codes "Unhandled exception on " ++ request.method ++ codes " " ++ request.url)
          else none;
      captured = if severe then some exception else none;
      sent = if headers_sent then none else some (d.status, body_of_error request now d);
    }
