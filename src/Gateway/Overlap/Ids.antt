-- ===== src/Gateway/Overlap/Ids.antt =====
-- src/data_plane.rs: the operation ids of overlapping calls, over one step.
use act_web_server_rs.Common.{
  ℕ, ◌+◌, ◌%◌, ◌≤◌, ◌≡◌, ◌⊎◌, inl, inr, refl, String, Option, none, some, Result, ok, err, arith,
  Result-cases, Option-cases,
}
use act_web_server_rs.Operation.{
  WebApiMode, direct_read_only_database, stateless_http, stateful_mtls_tcp, jet_stream_async,
}
use act_web_server_rs.Ports.{Ports}
use act_web_server_rs.Gateway.{GatewayReply, GatewayError, projection, accepted}
use act_web_server_rs.Gateway.Envelope.{u64, operation_id_of, bearer_operation}
use act_web_server_rs.Gateway.Http.{bounded_http_get}
use act_web_server_rs.Gateway.State.{Server}
use act_web_server_rs.Gateway.Transport.{TransportGateway, jetstream_submit}
use act_web_server_rs.Gateway.Transport.Sequence.{
  Advances, jetstream_submit-Advances, jetstream_submit-Spends,
}
use act_web_server_rs.Gateway.Link.{linked}
use act_web_server_rs.Gateway.Overlap.{
  Shared, Phase, Request, called, admitted, waiting, dialing, shaking, sending, receiving, holding,
  returned, expected_id, advance, prepare,
}

-- the id of an operation that a reply says is accepted
abbrev pub accepted_id : Result GatewayError GatewayReply → Option String
accepted_id (ok (accepted id note)) = some id
accepted_id (ok (projection mode content)) = none
accepted_id (err e) = none

-- the id of the operation that a call has made
abbrev pub id_of : {p : Ports} → Phase p → Option String
id_of (called mode subject authorization) = none
id_of (admitted mode subject authorization) = none
id_of (waiting r) = some (expected_id r)
id_of (dialing r) = some (expected_id r)
id_of (shaking r name tcp) = some (expected_id r)
id_of (sending r c) = some (expected_id r)
id_of (receiving r c) = some (expected_id r)
id_of (holding r) = accepted_id r
id_of (returned r) = accepted_id r

-- the sequence numbers that a call has still to draw
abbrev pub draws : {p : Ports} → Phase p → ℕ
draws (called mode subject authorization) = 1
draws (admitted mode subject authorization) = 1
draws _ = 0

module _ (p : Ports) where
  -- What one step does to the id of its call and to the sequence: the id stays or goes and no number is
  -- drawn, a number is drawn for nothing, or an id is made of the number that is drawn.
  pub data Change (s : Shared p) (phase : Phase p) (t : Phase p × Shared p) : Type 0 where
    kept :
        t.1.server.sequence ≡ s.server.sequence
        → draws t.0 ≤ draws phase
        → (id_of t.0 ≡ id_of phase) ⊎ (id_of t.0 ≡ none)
        → Change s phase t
    wasted :
        Advances (linked p) s.server t.1.server
        → draws phase ≡ draws t.0 + 1
        → id_of t.0 ≡ none
        → Change s phase t
    made :
        (now : ℕ)
        → t.1.server.sequence ≡ (s.server.sequence + 1) % u64
        → draws phase ≡ draws t.0 + 1
        → id_of t.0 ≡ some (operation_id_of now s.server.sequence)
        → Change s phase t

  module _ (g : TransportGateway (linked p)) where
    prepare-Advances :
        (subject authorization : String) (s : Server (linked p))
        → Advances (linked p) s (prepare p g subject authorization s).1
    unfolding prepare bearer_operation
    prepare-Advances subject authorization s = ground arith

    prepare_id :
        (subject authorization : String) (s : Server (linked p)) (r : Request p)
        → (prepare p g subject authorization s).0 ≡ ok r
        → (now : ℕ) × (expected_id r ≡ operation_id_of now s.sequence)
          × ((prepare p g subject authorization s).1.sequence ≡ (s.sequence + 1) % u64)
    unfolding prepare bearer_operation
    prepare_id subject authorization s r e = elim (Option-cases (p.clock s.world).0) [
      | inl absent ↦ absurd (ground arith)
      | inr (now, given) ↦ (now, ground arith, ground arith)
    ]

    submitted-Change :
        (subject authorization : String) (s : Shared p) (r : Result GatewayError GatewayReply)
        → (jetstream_submit (linked p) g subject s.server).0 ≡ r
        → Change s
            (admitted jet_stream_async subject authorization)
            (advance p g (admitted jet_stream_async subject authorization) s)
    unfolding advance
    submitted-Change subject authorization s (err e) h =
        let moved = jetstream_submit-Advances (linked p) g subject s.server in
        wasted (ground arith) (ground arith) (ground arith)
    submitted-Change subject authorization s (ok (projection mode content)) h =
        let moved = jetstream_submit-Advances (linked p) g subject s.server in
        wasted (ground arith) (ground arith) (ground arith)
    submitted-Change subject authorization s (ok (accepted id note)) h =
        let ((now, e), moved) = jetstream_submit-Spends (linked p) g subject s.server id note h in
        made now (ground arith) (ground arith) (ground arith)

    admitted-Change :
        (mode : WebApiMode) (subject authorization : String) (s : Shared p)
        → Change s
            (admitted mode subject authorization)
            (advance p g (admitted mode subject authorization) s)
    unfolding advance bounded_http_get
    admitted-Change direct_read_only_database subject authorization s =
        wasted (ground arith) (ground arith) (ground arith)
    admitted-Change stateless_http subject authorization s =
        wasted (ground arith) (ground arith) (ground arith)
    admitted-Change stateful_mtls_tcp subject authorization s =
        elim (Result-cases (prepare p g subject authorization s.server).0) [
          | inr (e, failed) ↦
              let moved = prepare-Advances subject authorization s.server in
              wasted (ground arith) (ground arith) (ground arith)
          | inl (r, prepared) ↦
              let (now, id, moved) = prepare_id subject authorization s.server r prepared in
              made now (ground arith) (ground arith) (ground arith)
        ]
    admitted-Change jet_stream_async subject authorization s =
        submitted-Change subject authorization s (jetstream_submit (linked p) g subject s.server).0
          refl

    pub advance-Change : (phase : Phase p) (s : Shared p) → Change s phase (advance p g phase s)
    unfolding advance
    advance-Change (called mode subject authorization) s =
        kept (ground arith) (ground arith) (ground arith)
    advance-Change (admitted mode subject authorization) s =
        admitted-Change mode subject authorization s
    advance-Change (waiting r) s = kept (ground arith) (ground arith) (ground arith)
    advance-Change (dialing r) s = kept (ground arith) (ground arith) (ground arith)
    advance-Change (shaking r name tcp) s = kept (ground arith) (ground arith) (ground arith)
    advance-Change (sending r c) s = kept (ground arith) (ground arith) (ground arith)
    advance-Change (receiving r c) s = kept (ground arith) (ground arith) (ground arith)
    advance-Change (holding r) s = kept (ground arith) (ground arith) (ground arith)
    advance-Change (returned r) s = kept (ground arith) (ground arith) (ground arith)
