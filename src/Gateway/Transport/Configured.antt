-- ===== src/Gateway/Transport/Configured.antt =====
-- src/data_plane.rs: which modes a gateway has, and the error `NotConfigured`.
use act_web_server_rs.Common.{
  ◌-◌, ◌<◌, ◌≡◌, ◌↔◌, inl, inr, refl, String, Bool, false, Option, none, some, ok, err, arith,
  Option-cases, is_some, ◌&&◌,
}
use act_web_server_rs.Operation.{
  WebApiMode, direct_read_only_database, stateless_http, stateful_mtls_tcp, jet_stream_async,
}
use act_web_server_rs.Ports.{Ports}
use act_web_server_rs.Db.{DirectReadStore}
use act_web_server_rs.Gateway.{not_configured, validate_authorization}
use act_web_server_rs.Gateway.Errors.{
  IsForeign, request-Never, bearer_operation-Never, attested_operation-Never,
  bounded_http_get-Never,
}
use act_web_server_rs.Gateway.Mtls.Setup.{PersistentMtlsClient}
use act_web_server_rs.Gateway.State.{Server}
use act_web_server_rs.Gateway.Http.{api_endpoint}
use act_web_server_rs.Gateway.Transport
use act_web_server_rs.Gateway.Transport.{
  TransportGateway, client_for, try_acquire, read_mode, direct_read, http_read, tcp_read,
  jetstream_submit, read,
}

not_configured-IsForeign : IsForeign not_configured
not_configured-IsForeign = record {
  not_unauthorized = λ e. cc;
  not_invalid_request = λ e. cc;
  not_timeout = λ e. cc;
  not_upstream = λ e. cc;
  not_invalid_response = λ e. cc;
}

-- The client has been built for the URL.
abbrev pub IsClientOf : (p : Ports) → Option p.Url → p.HttpClient → Type 0
IsClientOf p url client = (u : p.Url) × (url ≡ some u) × (client_for p u ≡ ok client)

module _ (p : Ports) where
  -- The gateway has what the mode needs.
  abbrev pub is_enabled : TransportGateway p → WebApiMode → Bool
  is_enabled g direct_read_only_database = is_some g.direct
  is_enabled g stateless_http = is_some g.api_url
  is_enabled g stateful_mtls_tcp = is_some g.tcp
  is_enabled g jet_stream_async = is_some g.jetstream && is_some g.operation_attestation_key

  -- There is an HTTP client exactly if there is an API URL.
  abbrev pub IsPaired : TransportGateway p → Type 0
  IsPaired g = is_some g.http ≡ is_some g.api_url

  -- A gateway that `new` returns has the parts that it was given, and an HTTP client exactly if there
  -- is an API URL, which it is built for.
  pub new_sound :
      (direct : Option (DirectReadStore p)) (url : Option p.Url)
      (tcp : Option (PersistentMtlsClient p)) (jetstream : Option p.JetStream) (key : Option String)
      (g : TransportGateway p)
      → Transport.new p direct url tcp jetstream key ≡ ok g
      → IsPaired g
        × (g.direct ≡ direct)
        × (g.api_url ≡ url)
        × (g.tcp ≡ tcp)
        × (g.jetstream ≡ jetstream)
        × (g.operation_attestation_key ≡ key)
        × ((client : p.HttpClient) → g.http ≡ some client → IsClientOf p url client)
  unfolding Transport.new
  new_sound direct none tcp jetstream key g e = (
    ground arith,
    ground arith,
    ground arith,
    ground arith,
    ground arith,
    ground arith,
    λ client h. absurd (ground arith),
  )
  new_sound direct (some url) tcp jetstream key g e = (
    ground arith,
    ground arith,
    ground arith,
    ground arith,
    ground arith,
    ground arith,
    λ client h. (url, refl, ground arith),
  )

  module _ (g : TransportGateway p) where
    direct_read-enabled :
        (subject : String) (s : Server p)
        → ((direct_read p g subject s).0 ≡ err not_configured) ↔ (is_some g.direct ≡ false)
    unfolding direct_read
    direct_read-enabled subject s = ground arith

    http_read-enabled :
        (authorization : String) (s : Server p)
        → IsPaired g
        → ((http_read p g authorization s).0 ≡ err not_configured) ↔ (is_some g.api_url ≡ false)
    unfolding http_read api_endpoint
    http_read-enabled authorization s paired = elim (Option-cases g.http) [
      | inl absent ↦ ground arith
      | inr (client, present) ↦
          grind (arith, bounded_http_get-Never p not_configured not_configured-IsForeign)
    ]

    tcp_read-enabled :
        (subject authorization : String) (s : Server p)
        → ((tcp_read p g subject authorization s).0 ≡ err not_configured) ↔ (is_some g.tcp ≡ false)
    unfolding tcp_read
    tcp_read-enabled subject authorization s = grind (
      arith,
      request-Never p not_configured not_configured-IsForeign,
      bearer_operation-Never p not_configured not_configured-IsForeign,
    )

    jetstream_submit-enabled :
        (subject : String) (s : Server p)
        → ((jetstream_submit p g subject s).0 ≡ err not_configured)
          ↔ ((is_some g.jetstream && is_some g.operation_attestation_key) ≡ false)
    unfolding jetstream_submit
    jetstream_submit-enabled subject s =
        grind (arith, attested_operation-Never p not_configured not_configured-IsForeign)

    read_mode-enabled :
        (mode : WebApiMode) (subject authorization : String) (s : Server p)
        → IsPaired g
        → ((read_mode p g mode subject authorization s).0 ≡ err not_configured)
          ↔ (is_enabled g mode ≡ false)
    unfolding read_mode
    read_mode-enabled direct_read_only_database subject authorization s paired =
        direct_read-enabled subject s
    read_mode-enabled stateless_http subject authorization s paired =
        http_read-enabled authorization s paired
    read_mode-enabled stateful_mtls_tcp subject authorization s paired =
        tcp_read-enabled subject authorization s
    read_mode-enabled jet_stream_async subject authorization s paired =
        jetstream_submit-enabled subject s

    -- In a gateway with an HTTP client exactly if it has an API URL, a read with a well-formed
    -- authorization and a permit left answers `NotConfigured` exactly if its mode is not enabled.
    pub read-not_configured_iff :
        (mode : WebApiMode) (subject authorization : String) (s : Server p)
        → IsPaired g
        → validate_authorization p.max_authorization_bytes authorization ≡ ok tt
        → 0 < s.permits
        → ((read p g mode subject authorization s).0 ≡ err not_configured)
          ↔ (is_enabled g mode ≡ false)
    unfolding read
    read-not_configured_iff mode subject authorization s paired valid free = ground (
      arith,
      read_mode-enabled mode subject authorization (record s { permits = s.permits - 1 }) paired,
    )
