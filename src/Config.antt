-- ===== src/Config.antt =====
-- src/config.rs: the configuration, read from the variables that `flags::var` gives.
pub mod Transports
pub mod Valid
pub mod Laws
pub mod Port
use act_web_server_rs.Common.{
  ℕ, ◌<◌, String, Bool, true, false, Option, none, some, Result, ok, err, ok_or, fail_if, AnyError,
  bail, library, traverse, is_some, ◌&&◌, ◌||◌, ◌==◌, not, ltb, if◌then◌else◌,
}
use act_web_server_rs.Common.Outcome.{◌>>=◌, ◌>>◌, unwrap_or, or_else}
use act_web_server_rs.Common.Decimal.{parse_u16}
use act_web_server_rs.Common.Text.{any_char, is_control, is_whitespace, is_empty, trim, has_suffix}
use act_web_server_rs.Ports.{Ports}
use Transports.{validate_https_or_loopback, validate_nats_url, validate_async_configuration}
use Prim.Native.String.{len, ◌++◌}

pub record SharedAuthConfig : Type 0 where
  pub base_url : String
  pub service_credential : String
  pub audience : String

pub record DirectDatabaseConfig : Type 0 where
  pub url : String
  pub expected_role : String

pub record MtlsConfig : Type 0 where
  pub address : String
  pub server_name : String
  pub client_certificate_file : String
  pub client_private_key_file : String
  pub server_ca_file : String

pub record Config (p : Ports) : Type 0 where
  pub port : ℕ
  pub service_name : String
  pub shared_auth : Option SharedAuthConfig
  pub direct_database : Option DirectDatabaseConfig
  pub api_url : Option p.Url
  pub mtls : Option MtlsConfig
  pub nats_url : Option String
  pub operation_attestation_key : Option String

-- `flags::var(name).ok()`
abbrev pub Env : Type 0
Env = String → Option String

-- a value without white space at its ends, if something is left
unfoldable pub non_empty : Option String → Option String
non_empty none = none
non_empty (some value) = if is_empty (trim value) then none else some (trim value)

-- `env_non_empty`
unfoldable pub env_non_empty : Env → String → Option String
unfolding non_empty
env_non_empty env name = non_empty (env name)

-- `parse_env` at `u16`
unfoldable pub parse_port : Option String → ℕ → String → Result AnyError ℕ
parse_port none default name = ok default
parse_port (some value) default name = ok_or (parse_u16 value) (bail ("invalid value for " ++ name))

-- the `match` on the Shared Auth variables
unfoldable pub shared_auth_of :
    Option String → Option String → Result AnyError (Option SharedAuthConfig)
shared_auth_of none none = ok none
shared_auth_of (some base_url) (some service_credential) = do
  fail_if (ltb (len service_credential) 16 || any_char is_control service_credential)
      (bail "SHARED_AUTH_SERVICE_CREDENTIAL is not a valid service bearer")
  ok (
      some (record {
        base_url = base_url;
        service_credential = service_credential;
        audience = "act-api";
      }))
shared_auth_of none (some _) =
    err (bail "SHARED_AUTH_URL and SHARED_AUTH_SERVICE_CREDENTIAL are required together")
shared_auth_of (some _) none =
    err (bail "SHARED_AUTH_URL and SHARED_AUTH_SERVICE_CREDENTIAL are required together")

-- the `match` on the database variables
unfoldable pub direct_database_of :
    Option String → Option String → Result AnyError (Option DirectDatabaseConfig)
direct_database_of none none = ok none
direct_database_of (some url) (some expected_role) =
    if has_suffix "_web_ro" expected_role
    then ok (some (record { url = url; expected_role = expected_role }))
    else err (bail "ACT_READONLY_DATABASE_ROLE must end with _web_ro")
direct_database_of none (some _) =
    err (bail "read-only database URL and ACT_READONLY_DATABASE_ROLE are required together")
direct_database_of (some _) none =
    err (bail "read-only database URL and ACT_READONLY_DATABASE_ROLE are required together")

-- `if let Some(url) = nats_url { validate_nats_url(url)?; }`
abbrev pub validate_nats : Option String → Result AnyError (Unit {0})
validate_nats none = ok tt
validate_nats (some url) = validate_nats_url url

module _ (p : Ports) where
  -- `parse_mtls_config`, on the five values
  unfoldable pub mtls_of :
      Option String
      → Option String
      → Option String
      → Option String
      → Option String
      → Result AnyError (Option MtlsConfig)
  mtls_of none none none none none = ok none
  mtls_of (some address) (some server_name) (some client_certificate_file)
        (some client_private_key_file) (some server_ca_file) =
      do
        _ ←
            ok_or (p.parse_socket_addr address)
              (bail "ACT_API_MTLS_ADDR must be an IP socket address")
        fail_if (is_empty server_name || any_char is_whitespace server_name)
            (bail "ACT_API_TLS_SERVER_NAME is invalid")
        ok (
            some (record {
              address = address;
              server_name = server_name;
              client_certificate_file = client_certificate_file;
              client_private_key_file = client_private_key_file;
              server_ca_file = server_ca_file;
            }))
  mtls_of _ _ _ _ _ =
      err (bail "all ACT_API_MTLS_* and ACT_* TLS file variables are required together")

  -- `parse_mtls_config`
  unfoldable pub parse_mtls_config : Env → Result AnyError (Option MtlsConfig)
  unfolding mtls_of
  parse_mtls_config env =
      mtls_of (env_non_empty env "ACT_API_MTLS_ADDR") (env_non_empty env "ACT_API_TLS_SERVER_NAME")
        (env_non_empty env "ACT_WEB_CLIENT_CERT_FILE") (env_non_empty env "ACT_WEB_CLIENT_KEY_FILE")
        (env_non_empty env "ACT_API_CA_FILE")

  -- `Config::from_env`
  unfoldable pub from_env : Env → Result AnyError (Config p)
  from_env env = do
    port ← parse_port (env_non_empty env "PORT") 8080 "PORT"
    let service_name = unwrap_or (env_non_empty env "OTEL_SERVICE_NAME") "act-web-server"
    shared_auth ←
        shared_auth_of (env_non_empty env "SHARED_AUTH_URL")
          (env_non_empty env "SHARED_AUTH_SERVICE_CREDENTIAL")
    direct_database ←
        direct_database_of
          (or_else (env_non_empty env "ACT_READONLY_DATABASE_URL")
            (env_non_empty env "DATABASE_URL"))
          (env_non_empty env "ACT_READONLY_DATABASE_ROLE")
    api_url ←
        traverse (λ value. validate_https_or_loopback p value "ACT_API_URL")
          (env_non_empty env "ACT_API_URL")
    mtls ← parse_mtls_config env
    let nats_url = env_non_empty env "ACT_NATS_URL"
    validate_nats nats_url
    let operation_attestation_key = env_non_empty env "ACT_NATS_OPERATION_HMAC_KEY"
    validate_async_configuration (is_some nats_url) operation_attestation_key (is_some api_url)
    fail_if ((is_some api_url || is_some mtls || is_some nats_url) && not (is_some shared_auth))
        (bail "Shared Auth is required whenever an API transport is configured")
    ok (record {
      port = port;
      service_name = service_name;
      shared_auth = shared_auth;
      direct_database = direct_database;
      api_url = api_url;
      mtls = mtls;
      nats_url = nats_url;
      operation_attestation_key = operation_attestation_key;
    })
