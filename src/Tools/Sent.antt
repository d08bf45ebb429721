-- ===== src/Tools/Sent.antt =====
-- Which requests the tools of backend/saz/tools send.
use mathlib.Core.Path.{subst}
use saz.Prelude.{
  String, Bool, true, false, not, ◌||◌, ◌≡◌, refl, sym, ap, ◌∙◌, ◌⊎◌, inl, inr, Option, none, some,
  List, [], ◌∷◌, contains, any, All, Result, ok, err, guard-ok, Result-cases, Option-cases, ◌==◌,
  string_eq, arith, eq_iff, ◌↔◌,
}
use saz.Prelude.Json.{Fields}
use saz.Tools.UrlGuard.{
  Network, UrlError, no_host, bad_scheme, not_allowed, internal_address, v4_or_self,
  in_blocked_range, is_blocked_ip, resolve_ips, check_host, check_named, check_parsed,
  validate_outbound_url,
}
use saz.Tools.Http.{HttpRequest, Response, execute, emit_webhook, emit_request, request_by, emit_by}

module _ (N : Network) where
  -- None of the ranges that no tool may reach has the address, or its IPv4 form.
  abbrev pub IsPublic : N.Ip → Type 0
  IsPublic ip =
      ((N.ipv4_mapped ip ≡ none) × (in_blocked_range N ip ≡ false))
      ⊎ ((v4 : N.Ip) × (N.ipv4_mapped ip ≡ some v4) × (in_blocked_range N v4 ≡ false))

  -- A host that is named, listed, and has only public addresses, by HTTP.
  pub record IsPermitted (allowed : List String) (url : String) : Type 0 where
    pub scheme : String
    pub host : String
    pub parsed : N.urlparse url ≡ some (scheme, some host)
    pub by_http : (scheme ≡ "http") ⊎ (scheme ≡ "https")
    pub named : (host == "") ≡ false
    pub listed : (contains "*" allowed ≡ true) ⊎ (contains host allowed ≡ true)
    pub outside : All IsPublic (resolve_ips N host)

  not_blocked : (ip : N.Ip) → is_blocked_ip N ip ≡ false → IsPublic ip
  unfolding is_blocked_ip
  not_blocked ip h = elim (Option-cases (N.ipv4_mapped ip)) [
    | inl e ↦
        inl (e, subst (λ (x : Option N.Ip). in_blocked_range N (v4_or_self N ip x) ≡ false) e h)
    | inr e ↦ inr (
      e.0,
      e.1,
      subst (λ (x : Option N.Ip). in_blocked_range N (v4_or_self N ip x) ≡ false) e.1 h,
    )
  ]

  public : (ip : N.Ip) → IsPublic ip → is_blocked_ip N ip ≡ false
  unfolding is_blocked_ip
  public ip (inl (e, h)) = rw e h
  public ip (inr (v4, e, h)) = rw e h

  none_blocked : (ips : List N.Ip) → any (is_blocked_ip N) ips ≡ false → All IsPublic ips
  none_blocked [] h = tt
  none_blocked (ip ∷ ips) h =
      (not_blocked ip (ground (arith, h)), none_blocked ips (ground (arith, h)))

  unblocked : (ips : List N.Ip) → All IsPublic ips → any (is_blocked_ip N) ips ≡ false
  unblocked [] h = refl
  unblocked (ip ∷ ips) (p, h) = ground (arith, public ip p, unblocked ips h)

  or-cases : (a b : Bool) → (a || b) ≡ true → (a ≡ true) ⊎ (b ≡ true)
  or-cases true b h = inl refl
  or-cases false b h = inr h

  validated :
      (allowed : List String) (url h : String)
      → validate_outbound_url N url allowed ≡ ok h
      → IsPermitted allowed url
  unfolding validate_outbound_url
  validated allowed url h valid = elim (Option-cases (N.urlparse url)) [
    | inl e ↦ elim (refused (sym (ap (check_parsed N allowed) e) ∙ valid)) [ ]
    | inr e ↦ by_host e.0.0 e.0.1 e.1 (sym (ap (check_parsed N allowed) e.1) ∙ valid)
  ]
    where
      refused : check_parsed N allowed none ≡ ok h → ⊥
      refused e = cc

      by_host :
          (scheme : String) (host : Option String)
          → N.urlparse url ≡ some (scheme, host)
          → check_parsed N allowed (some (scheme, host)) ≡ ok h
          → IsPermitted allowed url
      by_host scheme none e valid =
          let (a, b) =
            guard-ok (scheme == "http" || scheme == "https") (bad_scheme scheme)
              (check_named N allowed none) h valid in
          cc
      by_host scheme (some host) e valid =
          let (http, v1) =
            guard-ok (scheme == "http" || scheme == "https") (bad_scheme scheme)
              (check_named N allowed (some host)) h valid in
          let (named, v2) = guard-ok (not (host == "")) no_host (check_host N allowed host) h v1 in
          let (listed, v3) =
            guard-ok (contains "*" allowed || contains host allowed) (not_allowed host) _ h v2 in
          let (outside, v4) =
            guard-ok (not (any (is_blocked_ip N) (resolve_ips N host))) (internal_address host)
              (ok host) h v3 in
          record {
            scheme = scheme;
            host = host;
            parsed = e;
            by_http = ground (arith, http, eq_iff scheme "http", eq_iff scheme "https");
            named = ground (arith, named);
            listed = or-cases (contains "*" allowed) (contains host allowed) listed;
            outside = none_blocked (resolve_ips N host) (ground (arith, outside));
          }

  permitted :
      (allowed : List String) (url : String) (p : IsPermitted allowed url)
      → validate_outbound_url N url allowed ≡ ok p.host
  unfolding validate_outbound_url
  permitted allowed url p =
      let http : (p.scheme == "http" || p.scheme == "https") ≡ true =
        ground (arith, p.by_http, eq_iff p.scheme "http", eq_iff p.scheme "https") in
      let listed : (contains "*" allowed || contains p.host allowed) ≡ true =
        ground (arith, p.listed) in
      rw (p.parsed, http, p.named, listed, unblocked (resolve_ips N p.host) p.outside) refl

-- Nothing is sent, or the one request.
abbrev pub SendsExactly : {A : Type 0} → List HttpRequest × A → HttpRequest → Type 0 → Type 0
SendsExactly outcome q P = ((outcome.0 ≡ []) ⊎ (outcome.0 ≡ q ∷ [])) × ((outcome.0 ≡ q ∷ []) ↔ P)

nil_cons : (q : HttpRequest) → ◌≡◌ {A = List HttpRequest} [] (q ∷ []) → ⊥
nil_cons q h = cc

ok_err : (e : UrlError) (h : String) → ◌≡◌ {A = Result UrlError String} (ok h) (err e) → ⊥
ok_err e h p = cc

-- What sends a request where the guard gives a host.
gated-exactly :
    {A : Type 0} (N : Network) (allowed : List String) (q : HttpRequest)
    (outcome : Result UrlError String → List HttpRequest × A)
    → ((h : String) → (outcome (ok h)).0 ≡ q ∷ [])
    → ((e : UrlError) → (outcome (err e)).0 ≡ [])
    → SendsExactly (outcome (validate_outbound_url N q.url allowed)) q (IsPermitted N allowed q.url)
gated-exactly N allowed q outcome sent kept =
    elim (Result-cases (validate_outbound_url N q.url allowed)) [
      | inl e ↦ rw e.1 (inr (sent e.0), (λ h. validated N allowed q.url e.0 e.1, λ p. sent e.0))
      | inr e ↦ rw e.1 (
        inl (kept e.0),
        (
          λ h. elim (nil_cons q (sym (kept e.0) ∙ h)) [ ],
          λ p. elim (ok_err e.0 p.host (sym (permitted N allowed q.url p) ∙ e.1)) [ ],
        ),
      )
    ]

-- The tools for HTTP requests and for webhooks send nothing, or the one request that they are called
-- for, and this exactly if its URL is permitted: by HTTP, to a host that is named, that the list of
-- domains has, or any host with the entry *, and none of whose addresses that are found, nor
-- the IPv4 form of one, is in a range that no tool may reach.
pub sent_exactly :
    (N : Network) (lower : String → String) (send : HttpRequest → Result String Response)
    (allowed : List String) (q : HttpRequest) (url : String) (payload headers : Fields)
    (callback_url : Option String) (key : String)
    → SendsExactly (execute N lower send allowed q key) q (IsPermitted N allowed q.url)
      × SendsExactly
          (emit_webhook N lower send allowed url payload headers callback_url key)
          (emit_request url payload headers callback_url)
          (IsPermitted N allowed url)
unfolding execute emit_webhook
sent_exactly N lower send allowed q url payload headers callback_url key = (
  gated-exactly N allowed q (request_by N lower send q key) (λ h. refl) (λ e. refl),
  gated-exactly N allowed (emit_request url payload headers callback_url)
      (emit_by N lower send (emit_request url payload headers callback_url) key) (λ h. refl)
      (λ e. refl),
)
