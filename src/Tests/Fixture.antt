-- ===== src/Tests/Fixture.antt =====
-- A small world for the tests: the calls that reach outside are counted, a URL is its parts, and the
-- API server, the broker and the database answer as their tables say.
use act_web_server_rs.Common.{
  ℕ, suc, String, true, Option, none, some, List, [], ◌∷◌, ok, ◌==◌, if◌then◌else◌,
}
use act_web_server_rs.Common.Json.{Value, string, object, member, end}
use act_web_server_rs.Operation.{
  WebApiMode, direct_read_only_database, stateless_http, jet_stream_async, OperationReply,
}
use act_web_server_rs.Ports.{
  Ports, done, frame, chunk, HttpResponse, responded, ClientPolicy, Claims, AuthClientPolicy,
}

pub record TestUrl : Type 0 where
  pub scheme : String
  pub host : String
  pub path : String

abbrev pub loopback_url : TestUrl
loopback_url = record { scheme = "http"; host = "127.0.0.1"; path = "/" }

abbrev pub parse_test_url : String → Option TestUrl
parse_test_url value =
    if value == "http://127.0.0.1:8081"
    then some loopback_url
    else if value == "http://api.example"
    then some (record { scheme = "http"; host = "api.example"; path = "/" })
    else none

abbrev pub parse_test_mode : String → Option WebApiMode
parse_test_mode name =
    if name == "stateless_http"
    then some stateless_http
    else if name == "jet_stream_async"
    then some jet_stream_async
    else if name == "direct_read_only_database"
    then some direct_read_only_database
    else none

-- a call that answers `a` and is counted
abbrev pub answers : {A : Type 0} → A → ℕ → A × ℕ
answers a w = (a, suc w)

abbrev pub status_body : Value
status_body = object (member "state" (string "live") end)

abbrev pub response : HttpResponse
response = record {
  status = 200;
  content_length = some 2;
  bytes_stream = chunk (123 ∷ []) ∷ chunk (125 ∷ []) ∷ [];
}

-- The fixture's operation ids are made at this time.
abbrev pub epoch : ℕ
epoch = 1_700_000_000_123

abbrev pub claims : Claims
claims = record { active = true; aud = some "act-api"; sub = some "actor-1" }

-- The API server's reply carries the id that the first operation has.
abbrev pub tcp_reply : OperationReply String
tcp_reply = record {
  operation_id = some "web-1700000000123-1";
  error = none;
  result = some status_body;
}

abbrev pub ports : Ports
ports = record {
  World = ℕ;
  clock = answers (some epoch);
  Url = TestUrl;
  parse_url = parse_test_url;
  scheme = λ u. u.scheme;
  host_str = λ u. some u.host;
  username = λ u. "";
  password = λ u. none;
  query = λ u. none;
  fragment = λ u. none;
  path = λ u. u.path;
  join = λ u path. some (record { scheme = u.scheme; host = u.host; path = path });
  AuthClient = AuthClientPolicy;
  auth_client = λ policy. some policy;
  introspect = λ client token audience scopes. answers (ok claims);
  HttpClient = ClientPolicy;
  build_client = λ policy. some policy;
  http_get = λ client url authorization. answers (responded response);
  parse_json = λ bytes. some status_body;
  parse_mode = parse_test_mode;
  value_of_mode = λ mode. string "mode";
  max_authorization_bytes = 4096;
  max_transport_bytes = 1024;
  validate = λ operation mode. true;
  sign_operation_attestation = λ key envelope. some key;
  encode = λ operation. some (7 ∷ []);
  Failure = String;
  decode_reply = λ bytes. some tcp_reply;
  SocketAddr = String;
  parse_socket_addr = λ address. some address;
  Tcp = String;
  tcp_connect = λ address. answers (done address);
  ServerName = String;
  server_name_of = λ name. some name;
  Certificate = String;
  read_certificates = λ file. some (file ∷ []);
  PrivateKey = String;
  read_private_key = λ file. some file;
  RootStore = List String;
  empty_roots = [];
  add_root = λ roots c. some (c ∷ roots);
  Connector = String;
  client_connector = λ roots certificates key. some key;
  Tls = String;
  tls_connect = λ connector name tcp. answers (done tcp);
  Connection = String;
  framed = λ tls codec. tls;
  send = λ connection bytes. answers (done tt);
  next = λ connection. answers (frame (7 ∷ []));
  JetStream = String;
  nats_connect = λ url. answers (some url);
  Ack = String;
  request_subject = "act.request";
  publish = λ context subject headers payload. answers (done subject);
  acknowledged = λ ack. answers (done tt);
  Database = String;
  Transaction = String;
  Row = List (String × String);
  connect_database = λ options. answers (some options.url);
  query_one = λ database sql. answers (some (some (("role_name", "act_web_ro") ∷ [])));
  begin = λ database mode. answers (some database);
  query_all = λ transaction sql values. answers (done (event_row ∷ []));
  commit = λ transaction. answers (some tt);
  try_get = get;
  parse_json_text = λ text. some (string text);
}
  where
    event_row : List (String × String)
    event_row = ("id", "1") ∷ ("payload_json", "{}") ∷ ("created_at", "2026-01-01") ∷ []

    get : List (String × String) → String → Option String
    get [] name = none
    get ((key, value) ∷ row) name = if key == name then some value else get row name
