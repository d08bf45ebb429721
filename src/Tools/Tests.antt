-- ===== src/Tools/Tests.antt =====
-- Requests to a network of a few names.
use saz.Prelude.{
  ℕ, String, false, ◌||◌, ◌≡◌, refl, none, some, List, [], ◌∷◌, Result, ok, err, ◌==◌, string_eq,
  if◌then◌else◌,
}
use saz.Prelude.Json.{end}
use saz.Tools.UrlGuard.{Network, bad_scheme, not_allowed, internal_address, validate_outbound_url}
use saz.Tools.Http.{HttpRequest, Response, bad_status, execute, emit_webhook, emit_request}
use saz.Tools.Sent.{SendsExactly, IsPermitted, sent_exactly}

-- An address is its text; `::ffff:10.0.0.1` is the one IPv6 address with an IPv4 form.
abbrev network : Network
network = record {
  Ip = String;
  urlparse = λ url.
      if url == "https://api.example.com/v1"
      then some ("https", some "api.example.com")
      else if url == "https://internal.example.com"
      then some ("https", some "internal.example.com")
      else some ("ftp", none);
  ip_address = λ a. if a == "93.184.216.34" || a == "::ffff:10.0.0.1" then some a else none;
  getaddrinfo = λ host.
      if host == "api.example.com"
      then some ("93.184.216.34" ∷ [])
      else some ("::ffff:10.0.0.1" ∷ []);
  ipv4_mapped = λ ip. if ip == "::ffff:10.0.0.1" then some "10.0.0.1" else none;
  is_loopback = λ ip. false;
  is_link_local = λ ip. false;
  is_private = λ ip. ip == "10.0.0.1";
  is_reserved = λ ip. false;
  is_multicast = λ ip. false;
  is_unspecified = λ ip. false;
}

abbrev domains : List String
domains = "api.example.com" ∷ "internal.example.com" ∷ []

abbrev get_from : String → HttpRequest
get_from url = record { method = "GET"; url = url; headers = end; body = none; params = none }

abbrev answer : ℕ → HttpRequest → Result String Response
answer status q = ok (record { status_code = status; headers = end; json_body = none; text = "hi" })

abbrev same_text : String → String
same_text s = s

mapped_address :
    validate_outbound_url network "https://internal.example.com" domains
    ≡ err (internal_address "internal.example.com")
unfolding validate_outbound_url
mapped_address = refl

unlisted :
    validate_outbound_url network "https://api.example.com/v1" []
    ≡ err (not_allowed "api.example.com")
unfolding validate_outbound_url
unlisted = refl

by_ftp : validate_outbound_url network "ftp://example.com" domains ≡ err (bad_scheme "ftp")
unfolding validate_outbound_url
by_ftp = refl

server_error :
    (execute network same_text (answer 500) domains (get_from "https://api.example.com/v1") "k").1
    ≡ err (bad_status 500)
unfolding execute validate_outbound_url
server_error = refl

sent_exactly_example :
    SendsExactly
      (execute network same_text (answer 200) domains (get_from "https://api.example.com/v1") "k")
      (get_from "https://api.example.com/v1")
      (IsPermitted network domains "https://api.example.com/v1")
    × SendsExactly
        (emit_webhook network same_text
          (answer 200)
          domains
          "https://internal.example.com"
          end
          end
          none
          "k")
        (emit_request "https://internal.example.com" end end none)
        (IsPermitted network domains "https://internal.example.com")
sent_exactly_example =
    sent_exactly network same_text (answer 200) domains (get_from "https://api.example.com/v1")
      "https://internal.example.com" end end none "k"
