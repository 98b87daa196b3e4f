-- ===== src/Tests/State.antt =====
-- A configured process in the small world.
use act_web_server_rs.Common.{String, true, false, none, some, List, [], ◌∷◌, ◌==◌, if◌then◌else◌}
use act_web_server_rs.Operation.{AuthenticatedOperation, read}
use act_web_server_rs.Common.Json.{object, end}
use act_web_server_rs.Ports.{ClientPolicy}
use act_web_server_rs.Config.{Config, Env, DirectDatabaseConfig}
use act_web_server_rs.Auth.{HeaderMap, VerifiedIdentity, SharedAuthVerifier}
use act_web_server_rs.Db.{DirectReadStore}
use act_web_server_rs.Gateway.Mtls.Setup.{PersistentMtlsClient}
use act_web_server_rs.Gateway.State.{Server}
use act_web_server_rs.Gateway.Transport.{TransportGateway}
use act_web_server_rs.Routes.{AppState, Features}
use act_web_server_rs.Tests.Fixture.{ports, loopback_url}

abbrev lookup : List (String × String) → Env
lookup [] name = none
lookup ((key, value) ∷ rest) name = if key == name then some value else lookup rest name

abbrev pub key : String
key = "0123456789abcdef0123456789abcdef"

abbrev pub env : Env
env = lookup (
    ("PORT", " 8090 ")
    ∷ ("SHARED_AUTH_URL", "https://auth.example")
    ∷ ("SHARED_AUTH_SERVICE_CREDENTIAL", "0123456789abcdef")
    ∷ ("DATABASE_URL", "postgres://db")
    ∷ ("ACT_READONLY_DATABASE_ROLE", "act_web_ro")
    ∷ ("ACT_API_URL", "http://127.0.0.1:8081")
    ∷ ("ACT_NATS_URL", "tls://nats.example")
    ∷ ("ACT_NATS_OPERATION_HMAC_KEY", key)
    ∷ [])

abbrev pub database_config : DirectDatabaseConfig
database_config = record { url = "postgres://db"; expected_role = "act_web_ro" }

abbrev pub config : Config ports
config = record {
  port = 8090;
  service_name = "act-web-server";
  shared_auth = some (record {
    base_url = "https://auth.example";
    service_credential = "0123456789abcdef";
    audience = "act-api";
  });
  direct_database = some database_config;
  api_url = some loopback_url;
  mtls = none;
  nats_url = some "tls://nats.example";
  operation_attestation_key = some key;
}

abbrev pub headers : HeaderMap
headers name = if name == "authorization" then some "Bearer token" else none

abbrev pub no_headers : HeaderMap
no_headers name = none

abbrev pub actor : VerifiedIdentity
actor = record { subject = "actor-1" }

abbrev pub verifier : SharedAuthVerifier ports
verifier = record {
  client = record {
    base_url = "https://auth.example";
    service_credential = "0123456789abcdef";
    max_response_bytes = 65536;
  };
  audience = "act-api";
}

abbrev pub store : DirectReadStore ports
store = record { database = "postgres://db"; expected_role = "act_web_ro" }

abbrev pub http_policy : ClientPolicy
http_policy = record {
  connect_timeout = 2_000;
  timeout = 4_000;
  follow_redirects = false;
  https_only = false;
}

abbrev pub client : PersistentMtlsClient ports
client = record { address = "10.0.0.1:7443"; server_name = "api.example"; connector = "key" }

-- the gateway that the configuration gives
abbrev pub gateway : TransportGateway ports
gateway = record {
  direct = some store;
  http = some http_policy;
  api_url = some loopback_url;
  tcp = none;
  jetstream = some "tls://nats.example";
  operation_attestation_key = some key;
}

-- the same with an mTLS client
abbrev pub tcp_gateway : TransportGateway ports
tcp_gateway = record gateway { tcp = some client }

abbrev pub state : AppState ports
state = record {
  shared_auth = some verifier;
  gateway = gateway;
  direct_database_connected = true;
  stateless_http_configured = true;
  stateful_mtls_configured = false;
  jetstream_configured = true;
}

abbrev pub closed_state : AppState ports
closed_state = record state { shared_auth = none }

abbrev pub server : Server ports
server = record { world = 0; sequence = 1; connection = none; permits = 64 }

abbrev pub busy_server : Server ports
busy_server = record { world = 0; sequence = 1; connection = none; permits = 0 }

abbrev pub features : Features
features = record { ui_leptos = true; ui_dioxus = false }

abbrev pub operation : AuthenticatedOperation
operation = record {
  authorization = "Bearer token";
  envelope = record {
    version = 1;
    operation_id = "web-1700000000123-1";
    subject = "actor-1";
    resource = "youtube_status";
    operation = read;
    payload = object end;
    deadline_unix_ms = 1_700_000_010_123;
    dedupe_key = none;
  };
}

-- variables, configuration and state of a process with the database alone
abbrev pub direct_env : Env
direct_env =
    lookup (("DATABASE_URL", "postgres://db") ∷ ("ACT_READONLY_DATABASE_ROLE", "act_web_ro") ∷ [])

abbrev pub direct_config : Config ports
direct_config = record {
  port = 8080;
  service_name = "act-web-server";
  shared_auth = none;
  direct_database = some database_config;
  api_url = none;
  mtls = none;
  nats_url = none;
  operation_attestation_key = none;
}

abbrev pub direct_state : AppState ports
direct_state = record {
  shared_auth = none;
  gateway = record {
    direct = some store;
    http = none;
    api_url = none;
    tcp = none;
    jetstream = none;
    operation_attestation_key = none;
  };
  direct_database_connected = true;
  stateless_http_configured = false;
  stateful_mtls_configured = false;
  jetstream_configured = false;
}
