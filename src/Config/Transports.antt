-- ===== src/Config/Transports.antt =====
-- src/config.rs: the checks of the API, NATS and asynchronous settings.
use act_web_server_rs.Common.{
  String, Bool, true, false, Option, none, some, Result, ok, err, ok_or, fail_if, AnyError, bail,
  is_some, ◌&&◌, ◌||◌, ◌==◌, not, ltb,
}
use act_web_server_rs.Common.Outcome.{◌>>=◌, ◌>>◌}
use act_web_server_rs.Common.Text.{any_char, is_control, has_prefix}
use act_web_server_rs.Ports.{Ports}
use Prim.Native.String.{len, ◌++◌}

-- `matches!(url.host_str(), Some("127.0.0.1" | "localhost" | "::1"))`
abbrev pub is_loopback_host : Option String → Bool
is_loopback_host none = false
is_loopback_host (some host) = host == "127.0.0.1" || host == "localhost" || host == "::1"

module _ (p : Ports) where
  -- the conditions on a parsed URL
  unfoldable pub is_loopback : p.Url → Bool
  is_loopback url = p.scheme url == "http" && is_loopback_host (p.host_str url)

  unfoldable pub is_refused : p.Url → Bool
  unfolding is_loopback
  is_refused url =
      (not (p.scheme url == "https") && not (is_loopback url))
      || not (p.username url == "")
      || is_some (p.password url)
      || is_some (p.query url)
      || is_some (p.fragment url)
      || not (p.path url == "/")

  -- `validate_https_or_loopback`
  unfoldable pub validate_https_or_loopback : String → String → Result AnyError p.Url
  unfolding is_refused
  validate_https_or_loopback value name = do
    url ← ok_or (p.parse_url value) (bail (name ++ " is not a valid URL"))
    fail_if (is_refused url)
        (bail (name ++ " requires HTTPS outside explicit loopback development"))
    ok url

-- `validate_nats_url`
unfoldable pub validate_nats_url : String → Result AnyError (Unit {0})
validate_nats_url value = do
  let allowed =
      has_prefix "tls://" value
      || has_prefix "nats://127.0.0.1" value
      || has_prefix "nats://localhost" value
      || has_prefix "nats://[::1]" value
  fail_if (not allowed) (bail "ACT_NATS_URL requires TLS outside explicit loopback development")
  ok tt

-- the `match` of `validate_async_configuration`
unfoldable pub attestation_ok : Bool → Option String → Result AnyError (Unit {0})
attestation_ok false none = ok tt
attestation_ok true none = err (bail "ACT_NATS_OPERATION_HMAC_KEY is required with ACT_NATS_URL")
attestation_ok false (some _) =
    err (bail "ACT_NATS_URL is required with ACT_NATS_OPERATION_HMAC_KEY")
attestation_ok true (some key) = do
  fail_if (ltb (len key) 32 || any_char is_control key)
      (bail "ACT_NATS_OPERATION_HMAC_KEY must contain at least 32 non-control bytes")
  ok tt

-- `validate_async_configuration`
unfoldable pub validate_async_configuration :
    Bool → Option String → Bool → Result AnyError (Unit {0})
unfolding attestation_ok
validate_async_configuration nats_enabled attestation_key api_enabled = do
  fail_if (nats_enabled && not api_enabled)
      (bail "ACT_API_URL is required with ACT_NATS_URL for owner-scoped operation status")
  attestation_ok nats_enabled attestation_key
