-- ===== src/Ports.antt =====
-- What the server calls and does not implement: the crates for URLs, HTTP, TLS, NATS, SeaORM and
-- JSON, the contract of `act_api_server`, the clock and the network. `World` is the state of all
-- that lies outside the process; a call that reaches outside maps a world to its outcome and the
-- next world.
use act_web_server_rs.Common.{ℕ, String, Bool, Option, List, Bytes, Result}
use act_web_server_rs.Common.Json.{Value}
use act_web_server_rs.Operation.{
  WebApiMode, OperationEnvelope, AuthenticatedOperation, OperationReply,
}

-- `tokio::time::timeout` round a fallible call
pub data Timed (A : Type 0) : Type 0 where
  elapsed : Timed A
  failed : Timed A
  done : A → Timed A

-- `tokio::time::timeout` round `connection.next()`
pub data Received : Type 0 where
  elapsed : Received
  closed : Received
  broken : Received
  frame : Bytes → Received

-- One item of a response's body stream.
pub data Chunk : Type 0 where
  broken : Chunk
  chunk : Bytes → Chunk

pub record HttpResponse : Type 0 where
  pub status : ℕ
  pub content_length : Option ℕ
  pub bytes_stream : List Chunk

-- What `send()` of a request returns.
pub data Fetched : Type 0 where
  timed_out : Fetched
  failed : Fetched
  responded : HttpResponse → Fetched

-- The settings of `reqwest::Client::builder()`, times in milliseconds.
pub record ClientPolicy : Type 0 where
  pub connect_timeout : ℕ
  pub timeout : ℕ
  pub follow_redirects : Bool
  pub https_only : Bool

-- The settings of `LengthDelimitedCodec::builder()`.
pub record CodecPolicy : Type 0 where
  pub length_field_length : ℕ
  pub max_frame_length : ℕ

-- The settings of `ConnectOptions`, times in milliseconds.
pub record ConnectOptions : Type 0 where
  pub url : String
  pub max_connections : ℕ
  pub min_connections : ℕ
  pub connect_timeout : ℕ
  pub sqlx_logging : Bool

pub data AccessMode : Type 0 where
  read_only read_write : AccessMode

-- the variants of `shared_auth_client::ClientError` that the source names
pub data ClientError : Type 0 where
  unauthorized invalid_input missing_service_credential invalid_base_url : ClientError
  request_too_large response_too_large encode decode : ClientError
  transport status insecure_transport : ClientError

-- the fields of the introspection's claims that the source reads
pub record Claims : Type 0 where
  pub active : Bool
  pub aud : Option String
  pub sub : Option String

-- The settings of `SharedAuthClient`.
pub record AuthClientPolicy : Type 0 where
  pub base_url : String
  pub service_credential : String
  pub max_response_bytes : ℕ

pub record Ports : Type 1 where
  pub World : Type 0
  -- `SystemTime::now().duration_since(UNIX_EPOCH)` in milliseconds; `none` before the epoch
  pub clock : World → Option ℕ × World
  -- `reqwest::Url`
  pub Url : Type 0
  pub parse_url : String → Option Url
  pub scheme : Url → String
  pub host_str : Url → Option String
  pub username : Url → String
  pub password : Url → Option String
  pub query : Url → Option String
  pub fragment : Url → Option String
  pub path : Url → String
  pub join : Url → String → Option Url
  -- `SharedAuthClient`: its builder, and `introspect_with_requirements` for a token, an audience and
  -- scopes
  pub AuthClient : Type 0
  pub auth_client : AuthClientPolicy → Option AuthClient
  pub introspect :
      AuthClient → String → String → List String → World → Result ClientError Claims × World
  -- `reqwest::Client`
  pub HttpClient : Type 0
  pub build_client : ClientPolicy → Option HttpClient
  pub http_get : HttpClient → Url → String → World → Fetched × World
  -- `serde_json::from_slice`
  pub parse_json : Bytes → Option Value
  -- `act_api_server`; a mode is read from a path and written as JSON, a key is the bytes of a text
  pub parse_mode : String → Option WebApiMode
  pub value_of_mode : WebApiMode → Value
  pub max_authorization_bytes : ℕ
  pub max_transport_bytes : ℕ
  pub validate : AuthenticatedOperation → WebApiMode → Bool
  pub sign_operation_attestation : String → OperationEnvelope → Option String
  pub encode : AuthenticatedOperation → Option Bytes
  pub Failure : Type 0
  pub decode_reply : Bytes → Option (OperationReply Failure)
  -- sockets, `rustls` and the framed connection
  pub SocketAddr : Type 0
  pub parse_socket_addr : String → Option SocketAddr
  pub Tcp : Type 0
  pub tcp_connect : SocketAddr → World → Timed Tcp × World
  pub ServerName : Type 0
  pub server_name_of : String → Option ServerName
  pub Certificate : Type 0
  pub read_certificates : String → Option (List Certificate)
  pub PrivateKey : Type 0
  pub read_private_key : String → Option PrivateKey
  pub RootStore : Type 0
  pub empty_roots : RootStore
  pub add_root : RootStore → Certificate → Option RootStore
  pub Connector : Type 0
  pub client_connector : RootStore → List Certificate → PrivateKey → Option Connector
  pub Tls : Type 0
  pub tls_connect : Connector → ServerName → Tcp → World → Timed Tls × World
  pub Connection : Type 0
  pub framed : Tls → CodecPolicy → Connection
  pub send : Connection → Bytes → World → Timed (Unit {0}) × World
  pub next : Connection → World → Received × World
  -- `async_nats::jetstream`: the context, a publish with its headers, and its acknowledgement
  pub JetStream : Type 0
  pub nats_connect : String → World → Option JetStream × World
  pub Ack : Type 0
  pub request_subject : String
  pub publish : JetStream → String → List (String × String) → Bytes → World → Timed Ack × World
  pub acknowledged : Ack → World → Timed (Unit {0}) × World
  -- SeaORM; `none` is a database error
  pub Database : Type 0
  pub Transaction : Type 0
  pub Row : Type 0
  pub connect_database : ConnectOptions → World → Option Database × World
  pub query_one : Database → String → World → Option (Option Row) × World
  pub begin : Database → AccessMode → World → Option Transaction × World
  pub query_all : Transaction → String → List String → World → Timed (List Row) × World
  pub commit : Transaction → World → Option (Unit {0}) × World
  pub try_get : Row → String → Option String
  pub parse_json_text : String → Option Value
