-- ===== src/Tools/UrlGuard.antt =====
-- backend/saz/security/url_guard.py: which addresses a tool may call. The modules urllib, ipaddress
-- and socket are a parameter.
use saz.Prelude.{
  String, Bool, not, ◌||◌, Option, none, some, List, [], ◌∷◌, contains, any, Result, ok, err, ◌>>◌,
  guard, ◌==◌, string_eq,
}

-- A `none` is the ValueError of urlparse or of ip_address, the OSError of getaddrinfo, and a host or
-- an IPv4 form that is not there. A host for which getaddrinfo raises a UnicodeError, which the source
-- lets through, is taken to be none that it is asked for.
pub record Network : Type 1 where
  pub Ip : Type 0
  pub urlparse : String → Option (String × Option String)
  pub ip_address : String → Option Ip
  pub getaddrinfo : String → Option (List String)
  pub ipv4_mapped : Ip → Option Ip
  pub is_loopback : Ip → Bool
  pub is_link_local : Ip → Bool
  pub is_private : Ip → Bool
  pub is_reserved : Ip → Bool
  pub is_multicast : Ip → Bool
  pub is_unspecified : Ip → Bool

pub data UrlError : Type 0 where
  unparseable no_host : UrlError
  bad_scheme not_allowed internal_address : String → UrlError

module _ (N : Network) where
  -- The address that counts: the IPv4 form of an IPv6 address that has one.
  abbrev pub v4_or_self : N.Ip → Option N.Ip → N.Ip
  v4_or_self ip none = ip
  v4_or_self ip (some v4) = v4

  abbrev pub in_blocked_range : N.Ip → Bool
  in_blocked_range ip =
      N.is_loopback ip
      || N.is_link_local ip
      || N.is_private ip
      || N.is_reserved ip
      || N.is_multicast ip
      || N.is_unspecified ip

  unfoldable pub is_blocked_ip : N.Ip → Bool
  is_blocked_ip ip = in_blocked_range (v4_or_self ip (N.ipv4_mapped ip))

  abbrev pub prepend : Option N.Ip → List N.Ip → List N.Ip
  prepend none ips = ips
  prepend (some ip) ips = ip ∷ ips

  -- Addresses that cannot be read are passed over.
  abbrev pub readable : List String → List N.Ip
  readable [] = []
  readable (a ∷ as') = prepend (N.ip_address a) (readable as')

  abbrev pub resolve_name : Option (List String) → List N.Ip
  resolve_name none = []
  resolve_name (some infos) = readable infos

  abbrev pub resolve_by : String → Option N.Ip → List N.Ip
  resolve_by host (some ip) = ip ∷ []
  resolve_by host none = resolve_name (N.getaddrinfo host)

  unfoldable pub resolve_ips : String → List N.Ip
  resolve_ips host = resolve_by host (N.ip_address host)

  abbrev pub check_host : List String → String → Result UrlError String
  check_host allowed host = do
    guard (contains "*" allowed || contains host allowed) (not_allowed host)
    guard (not (any is_blocked_ip (resolve_ips host))) (internal_address host)
    ok host

  abbrev pub check_named : List String → Option String → Result UrlError String
  check_named allowed none = err no_host
  check_named allowed (some host) = guard (not (host == "")) no_host >> check_host allowed host

  abbrev pub check_parsed : List String → Option (String × Option String) → Result UrlError String
  check_parsed allowed none = err unparseable
  check_parsed allowed (some (scheme, host)) =
      guard (scheme == "http" || scheme == "https") (bad_scheme scheme) >> check_named allowed host

  -- `allowed` is `allowed_domains or []`.
  unfoldable pub validate_outbound_url : String → List String → Result UrlError String
  unfolding resolve_ips is_blocked_ip
  validate_outbound_url url allowed = check_parsed allowed (N.urlparse url)
