-- ===== src/Gateway/Transport/Provenance.antt =====
-- src/data_plane.rs: what stands behind a reply of `read`, in each of the modes.
use act_web_server_rs.Common.{
  ℕ, zero, suc, ◌≡◌, ◌↔◌, refl, String, true, false, some, List, ok, arith, inl, inr, Option-cases,
  Result-cases,
}
use act_web_server_rs.Common.Json.{Value}
use act_web_server_rs.Common.Text.{has_suffix}
use act_web_server_rs.Db.{
  DirectReadStore, EventProjection, events_for_subject, is_invalid_subject, value_of_events,
}
use act_web_server_rs.Db.Laws.{IsRead, events_for_subject_sound}
use act_web_server_rs.Db.Complete.{events_for_subject_iff}
use act_web_server_rs.Gateway.{validate_authorization, GatewayReply, projection}
use act_web_server_rs.Gateway.State.{Server}
use act_web_server_rs.Gateway.Http.{bounded_http_get, api_endpoint}
use act_web_server_rs.Gateway.Http.Fetch.{IsFetched, bounded_http_get_iff}
use act_web_server_rs.Gateway.Transport.{TransportGateway, direct_read, http_read, read_mode, read}
use act_web_server_rs.Gateway.Transport.Complete.{IsSubmitted, jetstream_submit_iff}
use act_web_server_rs.Gateway.Transport.Replied.{IsReplied, tcp_read_iff}
use act_web_server_rs.Operation.{
  WebApiMode, direct_read_only_database, stateless_http, stateful_mtls_tcp, jet_stream_async,
}
use act_web_server_rs.Ports.{Ports}

module _ (p : Ports) (g : TransportGateway p) (subject bearer : String) where
  -- where a reply comes from, for a request that begins in the state `s`
  pub data Source (s : Server p) (r : GatewayReply) : WebApiMode → Type 0 where
    from_database :
        (store : DirectReadStore p) (events : List EventProjection)
        → g.direct ≡ some store
        → is_invalid_subject subject ≡ false
        → has_suffix "_web_ro" store.expected_role ≡ true
        → IsRead p store subject s.world events
        → r ≡ projection direct_read_only_database (value_of_events events)
        → Source s r direct_read_only_database
    from_api :
        (endpoint : p.Url) (content : Value)
        → api_endpoint p g.api_url "v1/youtube/status" ≡ ok endpoint
        → IsFetched p g.http endpoint bearer s content
        → r ≡ projection stateless_http content
        → Source s r stateless_http
    from_connection : IsReplied p g subject bearer s r → Source s r stateful_mtls_tcp
    from_broker : IsSubmitted p g subject s r → Source s r jet_stream_async

  direct_read-Source :
      (s : Server p) (r : GatewayReply)
      → (direct_read p g subject s).0 ≡ ok r
      → Source s r direct_read_only_database
  unfolding direct_read
  direct_read-Source s r e = elim (Option-cases g.direct) [
    | inl absent ↦ absurd (ground arith)
    | inr (store, present) ↦ elim (Result-cases (events_for_subject p store subject s.world).0) [
      | inr (e', lost) ↦ absurd (ground arith)
      | inl (events, answered) ↦
          let (named, reviewed, h) =
            events_for_subject_sound p store subject s.world events answered in
          from_database store events present named reviewed h (ground arith)
    ]
  ]

  http_read-Source :
      (s : Server p) (r : GatewayReply)
      → (http_read p g bearer s).0 ≡ ok r
      → Source s r stateless_http
  unfolding http_read
  http_read-Source s r e = elim (Result-cases (api_endpoint p g.api_url "v1/youtube/status")) [
    | inr (e', absent) ↦ absurd (ground arith)
    | inl (endpoint, joined) ↦ elim (Result-cases (bounded_http_get p g.http endpoint bearer s).0) [
      | inr (e', refused) ↦ absurd (ground arith)
      | inl (content, answered) ↦
          from_api endpoint content joined
            ((bounded_http_get_iff p g.http endpoint bearer s content).0 answered) (ground arith)
    ]
  ]

  read_mode-Source :
      (mode : WebApiMode) (s : Server p) (r : GatewayReply)
      → (read_mode p g mode subject bearer s).0 ≡ ok r
      → Source s r mode
  unfolding read_mode
  read_mode-Source direct_read_only_database s r e = direct_read-Source s r e
  read_mode-Source stateless_http s r e = http_read-Source s r e
  read_mode-Source stateful_mtls_tcp s r e =
      from_connection ((tcp_read_iff p g subject bearer s r).0 e)
  read_mode-Source jet_stream_async s r e = from_broker ((jetstream_submit_iff p g subject s r).0 e)

  direct_read_of_Source :
      (s : Server p) (r : GatewayReply) (store : DirectReadStore p) (events : List EventProjection)
      → g.direct ≡ some store
      → (events_for_subject p store subject s.world).0 ≡ ok events
      → r ≡ projection direct_read_only_database (value_of_events events)
      → (direct_read p g subject s).0 ≡ ok r
  unfolding direct_read
  direct_read_of_Source s r store events present answered whole = ground arith

  http_read_of_Source :
      (s : Server p) (r : GatewayReply) (endpoint : p.Url) (content : Value)
      → api_endpoint p g.api_url "v1/youtube/status" ≡ ok endpoint
      → (bounded_http_get p g.http endpoint bearer s).0 ≡ ok content
      → r ≡ projection stateless_http content
      → (http_read p g bearer s).0 ≡ ok r
  unfolding http_read
  http_read_of_Source s r endpoint content joined answered whole = ground arith

  read_mode_of_Source :
      (mode : WebApiMode) (s : Server p) (r : GatewayReply)
      → Source s r mode
      → (read_mode p g mode subject bearer s).0 ≡ ok r
  unfolding read_mode
  read_mode_of_Source direct_read_only_database s r
        (from_database store events present named reviewed h whole) =
      direct_read_of_Source s r store events present
        ((events_for_subject_iff p store subject s.world events).1 (named, reviewed, h)) whole
  read_mode_of_Source stateless_http s r (from_api endpoint content joined fetched whole) =
      http_read_of_Source s r endpoint content joined
        ((bounded_http_get_iff p g.http endpoint bearer s content).1 fetched) whole
  read_mode_of_Source stateful_mtls_tcp s r (from_connection replied) =
      (tcp_read_iff p g subject bearer s r).1 replied
  read_mode_of_Source jet_stream_async s r (from_broker submitted) =
      (jetstream_submit_iff p g subject s r).1 submitted

  -- what `read` has taken, besides its answer
  pub record IsAdmitted (mode : WebApiMode) (s : Server p) (r : GatewayReply) : Type 0 where
    pub left : ℕ
    pub formed : validate_authorization p.max_authorization_bytes bearer ≡ ok tt
    pub admitted : s.permits ≡ suc left
    pub source : Source (record s { permits = left }) r mode

  read-admitted :
      (mode : WebApiMode) (s : Server p) (r : GatewayReply) (k : ℕ)
      → s.permits ≡ k
      → (read p g mode subject bearer s).0 ≡ ok r
      → IsAdmitted mode s r
  unfolding read
  read-admitted mode s r zero empty e = absurd (ground arith)
  read-admitted mode s r (suc n) taken e = record {
    left = n;
    formed = ground arith;
    admitted = taken;
    source = read_mode-Source mode (record s { permits = n }) r (ground arith);
  }

  -- A read returns a reply exactly if the bearer is well formed, a permit is left, and the source of the
  -- read's mode, asked for this subject while the read holds the permit, gives this reply.
  pub read_iff :
      (mode : WebApiMode) (s : Server p) (r : GatewayReply)
      → ((read p g mode subject bearer s).0 ≡ ok r) ↔ IsAdmitted mode s r
  unfolding read
  read_iff mode s r = (
    λ e. read-admitted mode s r s.permits refl e,
    λ h.
        let done = read_mode_of_Source mode (record s { permits = h.left }) r h.source in
        ground (arith, h.formed, h.admitted, done),
  )
