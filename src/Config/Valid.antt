-- ===== src/Config/Valid.antt =====
-- What the checks of src/config.rs accept.
use Prim.Native.String.{len}
use act_web_server_rs.Common.{
  ◌≤◌, ◌≡◌, ◌⊎◌, ◌↔◌, inl, inr, refl, String, Bool, true, false, Option, none, some, ok, arith,
  Option-cases, eq_iff,
}
use act_web_server_rs.Common.Text.{any_char, is_control}
use act_web_server_rs.Config.Transports.{
  is_loopback_host, is_loopback, is_refused, validate_https_or_loopback,
  validate_async_configuration,
}
use act_web_server_rs.Ports.{Ports}

-- A host that names this machine.
abbrev pub IsLoopbackHost : String → Type 0
IsLoopbackHost host = (host ≡ "127.0.0.1") ⊎ ((host ≡ "localhost") ⊎ (host ≡ "::1"))

module _ (p : Ports) where
  -- A URL that the API may have: HTTPS, or HTTP to this machine, with no credentials, query or
  -- fragment, at the root path.
  pub record IsAllowed (url : p.Url) : Type 0 where
    pub transport :
        (p.scheme url ≡ "https")
        ⊎ ((p.scheme url ≡ "http")
            × ((host : String) × (p.host_str url ≡ some host) × IsLoopbackHost host))
    pub no_username : p.username url ≡ ""
    pub no_password : p.password url ≡ none
    pub no_query : p.query url ≡ none
    pub no_fragment : p.fragment url ≡ none
    pub at_root : p.path url ≡ "/"

  is_loopback_host_iff :
      (host : String) → (is_loopback_host (some host) ≡ true) ↔ IsLoopbackHost host
  is_loopback_host_iff host =
      ground (arith, eq_iff host "127.0.0.1", eq_iff host "localhost", eq_iff host "::1")

  is_loopback_iff :
      (url : p.Url)
      → (is_loopback p url ≡ true) ↔ (
          (p.scheme url ≡ "http")
          × ((host : String) × (p.host_str url ≡ some host) × IsLoopbackHost host))
  unfolding is_loopback
  is_loopback_iff url = elim (Option-cases (p.host_str url)) [
    | inl absent ↦
        (λ h. absurd (ground arith), λ (scheme, (host, known, named)). absurd (ground arith))
    | inr (host, known) ↦ (
      λ h. (
        ground (arith, eq_iff (p.scheme url) "http"),
        (host, known, (is_loopback_host_iff host).0 (ground arith)),
      ),
      λ (scheme, (host', known', named)).
          let same : host ≡ host' = ground arith in
          ground (
            arith,
            eq_iff (p.scheme url) "http",
            is_loopback_host_iff host,
            is_loopback_host_iff host',
          ),
    )
  ]

  is_refused_iff : (url : p.Url) → (is_refused p url ≡ false) ↔ IsAllowed url
  unfolding is_refused
  is_refused_iff url = ground (
    arith,
    eq_iff (p.scheme url) "https",
    eq_iff (p.username url) "",
    eq_iff (p.path url) "/",
    is_loopback_iff url,
  )

  -- `validate_https_or_loopback` returns a URL exactly if the value parses to it and it is allowed.
  pub validate_https_or_loopback_iff :
      (value name : String) (url : p.Url)
      → (validate_https_or_loopback p value name ≡ ok url)
        ↔ ((p.parse_url value ≡ some url) × IsAllowed url)
  unfolding validate_https_or_loopback
  validate_https_or_loopback_iff value name url = elim (Option-cases (p.parse_url value)) [
    | inl bad ↦ (λ h. absurd (ground arith), λ (parsed, allowed). absurd (ground arith))
    | inr (found, parsed) ↦ (
      λ h.
          let same : found ≡ url = ground arith in
          let fine : is_refused p found ≡ false = ground arith in
          (ground arith, (is_refused_iff url).0 (rw same at fine)),
      λ (parsed', allowed).
          let same : found ≡ url = ground arith in
          let fine : is_refused p url ≡ false = (is_refused_iff url).1 allowed in ground arith,
    )
  ]

-- The asynchronous settings are accepted exactly if there is neither NATS nor a key, whatever the
-- API URL, or if NATS, the API URL and a key of at least 32 bytes with no control character are all given.
pub validate_async_configuration_iff :
    (nats : Bool) (key : Option String) (api : Bool)
    → (validate_async_configuration nats key api ≡ ok tt) ↔ (
        ((nats ≡ false) × (key ≡ none))
        ⊎ ((nats ≡ true)
            × (api ≡ true)
            × ((k : String) × (key ≡ some k) × (32 ≤ len k) × (any_char is_control k ≡ false))))
unfolding validate_async_configuration
validate_async_configuration_iff nats none api = ground arith
validate_async_configuration_iff nats (some k) api = (
  λ h. inr (ground arith, ground arith, (k, refl, ground arith, ground arith)),
  λ h. ground arith,
)
