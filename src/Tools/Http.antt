-- ===== src/Tools/Http.antt =====
-- `HttpTool.execute` of backend/saz/tools/http_tool.py and `WebhookTool.emit_webhook` of
-- backend/saz/tools/webhook_tool.py. The library httpx is the parameter `send`; durations, ids and
-- logging are left out.
use saz.Prelude.{
  ℕ, String, Bool, ◌&&◌, ◌||◌, Option, none, some, List, [], ◌∷◌, contains, Result, ok, err, leb,
  ltb, ◌==◌, string_eq, if◌then◌else◌,
}
use saz.Prelude.Json.{Value, str, obj, Fields, end, field, merge}
use saz.Redaction.{redacted, is_sensitive_key, redact_sensitive}
use saz.Tools.UrlGuard.{Network, UrlError, validate_outbound_url}

-- Redirects are never followed.
pub record HttpRequest : Type 0 where
  pub method : String
  pub url : String
  pub headers : Fields
  pub body : Option Value
  pub params : Option Fields

-- `json_body` is what `response.json()` gives, if it does not raise.
pub record Response : Type 0 where
  pub status_code : ℕ
  pub headers : Fields
  pub json_body : Option Value
  pub text : String

pub data Failed : Type 0 where
  blocked : UrlError → Failed
  http_error : String → Failed
  bad_status : ℕ → Failed

pub record HttpResult : Type 0 where
  pub status_code : ℕ
  pub ok : Bool
  pub headers : Fields
  pub body : Value
  pub idempotency_key : String

pub record EmitResult : Type 0 where
  pub status : String
  pub status_code : ℕ
  pub response_body : String
  pub idempotency_key : String

abbrev pub response_sensitive_headers : List String
response_sensitive_headers =
    "set-cookie" ∷ "authorization" ∷ "proxy-authorization" ∷ "www-authenticate" ∷ "x-api-key"
    ∷ "x-auth-token" ∷ "x-subject-token" ∷ "cookie" ∷ []

abbrev pub body_of : Response → Option Value → Value
body_of r (some v) = v
body_of r none = obj (field "raw" (str r.text) end)

abbrev pub is_ok : ℕ → Bool
is_ok status = leb 200 status && ltb status 300

-- Which requests were made, and what came of it.
abbrev pub Outcome : Type 0 → Type 0
Outcome A = List HttpRequest × Result Failed A

abbrev pub with_callback : Option String → Fields → Fields
with_callback none payload = payload
with_callback (some url) payload =
    if url == "" then payload else merge payload (field "callback_url" (str url) end)

abbrev pub emit_request : String → Fields → Fields → Option String → HttpRequest
emit_request url payload headers callback_url = record {
  method = "POST";
  url = url;
  headers = headers;
  body = some (obj (with_callback callback_url payload));
  params = none;
}

module _ (N : Network) (lower : String → String) (send : HttpRequest → Result String Response) where
  abbrev pub is_sensitive_header : String → Bool
  is_sensitive_header key =
      contains (lower key) response_sensitive_headers || is_sensitive_key lower key

  abbrev pub redact_response_headers : Fields → Fields
  redact_response_headers end = end
  redact_response_headers (field key v headers) =
      field key (if is_sensitive_header key then str redacted else v)
        (redact_response_headers headers)

  abbrev pub result_of : String → Response → HttpResult
  result_of idempotency_key r = record {
    status_code = r.status_code;
    ok = is_ok r.status_code;
    headers = redact_response_headers r.headers;
    body = redact_sensitive lower [] (body_of r r.json_body);
    idempotency_key = idempotency_key;
  }

  abbrev pub judged : String → Result String Response → Result Failed HttpResult
  judged idempotency_key (err e) = err (http_error e)
  judged idempotency_key (ok r) =
      if is_ok r.status_code
      then ok (result_of idempotency_key r)
      else err (bad_status r.status_code)

  abbrev pub request_by : HttpRequest → String → Result UrlError String → Outcome HttpResult
  request_by q idempotency_key (err e) = ([], err (blocked e))
  request_by q idempotency_key (ok host) = (q ∷ [], judged idempotency_key (send q))

  unfoldable pub execute : List String → HttpRequest → String → Outcome HttpResult
  execute allowed_domains q idempotency_key =
      request_by q idempotency_key (validate_outbound_url N q.url allowed_domains)

  abbrev pub emitted : String → Result String Response → Result Failed EmitResult
  emitted idempotency_key (err e) = err (http_error e)
  emitted idempotency_key (ok r) = ok (record {
    status = "sent";
    status_code = r.status_code;
    response_body = r.text;
    idempotency_key = idempotency_key;
  })

  abbrev pub emit_by : HttpRequest → String → Result UrlError String → Outcome EmitResult
  emit_by q idempotency_key (err e) = ([], err (blocked e))
  emit_by q idempotency_key (ok host) = (q ∷ [], emitted idempotency_key (send q))

  unfoldable pub emit_webhook :
      List String → String → Fields → Fields → Option String → String → Outcome EmitResult
  emit_webhook allowed_domains url payload headers callback_url idempotency_key =
      emit_by (emit_request url payload headers callback_url) idempotency_key
        (validate_outbound_url N url allowed_domains)
