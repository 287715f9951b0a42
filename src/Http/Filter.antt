-- ===== src/Http/Filter.antt =====
-- src/common/api-exception.filter.ts. `getResponse()` of an `HttpException` is given by the framework,
-- and `toUpperCase()` and the time by the runtime.
use webhook_engine.Base.{
  ℕ, ◌==◌, if◌then◌else◌, Option, none, some, [], ◌∷◌, ◌++◌, String, Text, units, decimal, Error,
  p2002, p2025, http_exception,
}

-- What the filter reads of `getResponse()`: a text, or an object's `message` and `error`.
pub data ExceptionBody : Type 0 where
  text_body : Text → ExceptionBody
  object_body : Option Text → Option Text → ExceptionBody

pub record Framework : Type 0 where
  pub get_response : ℕ → String → ExceptionBody
  pub to_upper_case : Text → Text

-- What the filter reads of the request.
pub record RequestInfo : Type 0 where
  pub request_id : Option String
  pub url : String

pub record ErrorReply : Type 0 where
  pub status : ℕ
  pub code : Text
  pub message : Text
  pub request_id : Option String
  pub path : String
  pub timestamp : ℕ

unfoldable pub status_of : Error → ℕ
status_of (http_exception status message) = status
status_of p2002 = 409
status_of p2025 = 404
status_of _ = 500

-- `text.replaceAll(' ', '_')`
abbrev underscored : Text → Text
underscored [] = []
underscored (c ∷ cs) = (if c == 32 then b'_' else c) ∷ underscored cs

abbrev numbered_code : ℕ → Text
numbered_code status =
    if status == 500 then units "INTERNAL_SERVER_ERROR" else units "HTTP_" ++ decimal status

abbrev pub no_details : Text
no_details = units "Internal server error"

module _ (framework : Framework) where
  abbrev exception_code : ℕ → ExceptionBody → Text
  exception_code status (object_body message (some error)) =
      underscored (framework.to_upper_case error)
  exception_code status _ = numbered_code status

  abbrev exception_message : ExceptionBody → Text
  exception_message (text_body text') = text'
  exception_message (object_body (some message) error) = message
  exception_message (object_body none error) = no_details

  unfoldable pub code_of : Error → Text
  code_of p2002 = units "RESOURCE_ALREADY_EXISTS"
  code_of p2025 = units "RESOURCE_NOT_FOUND"
  code_of (http_exception status message) =
      exception_code status (framework.get_response status message)
  code_of _ = numbered_code 500

  unfoldable pub message_of : Error → Text
  message_of p2002 = units "A resource with these unique values already exists"
  message_of p2025 = units "The requested resource was not found"
  message_of (http_exception status message) =
      exception_message (framework.get_response status message)
  message_of _ = no_details

  -- `catch(exception, host)`
  unfoldable pub error_reply : RequestInfo → ℕ → Error → ErrorReply
  unfolding status_of code_of message_of
  error_reply request now e = record {
    status = status_of e;
    code = code_of e;
    message = message_of e;
    request_id = request.request_id;
    path = request.url;
    timestamp = now;
  }
