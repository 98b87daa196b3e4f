-- ===== src/Gateway/Transport/Replied.antt =====
-- src/data_plane.rs: when a read in the mTLS mode succeeds.
use text.Mathlib.TextPositions.{eq_refl}
use act_web_server_rs.Common.{ℕ, ◌≡◌, ◌↔◌, ◌<◌, ap, sym, ◌∙◌, String, true, none, some, ok, arith}
use act_web_server_rs.Common.Json.{Value}
use act_web_server_rs.Operation.{AuthenticatedOperation, OperationReply, stateful_mtls_tcp}
use act_web_server_rs.Ports.{Ports}
use act_web_server_rs.Gateway.{
  GatewayReply, projection, validate_authorization, validate_identifier,
}
use act_web_server_rs.Gateway.State.{Server}
use act_web_server_rs.Gateway.Envelope.{
  bearer_operation, operation_envelope, envelope_of, operation_id_of, now_unix_ms, unix_ms,
  fetch_sequence, validated, u64,
}
use act_web_server_rs.Gateway.Envelope.Laws.{bearer_operation_sound}
use act_web_server_rs.Gateway.Mtls.{request}
use act_web_server_rs.Gateway.Mtls.Setup.{PersistentMtlsClient}
use act_web_server_rs.Gateway.Transport.{TransportGateway, tcp_read, reply_of}
use act_web_server_rs.Gateway.Transport.Laws.{tcp_read_sound}

-- the operation with the caller's bearer
abbrev pub operation_of : String → String → ℕ → ℕ → AuthenticatedOperation
operation_of bearer subject now sequence = record {
  authorization = bearer;
  envelope = envelope_of subject stateful_mtls_tcp now sequence;
}

module _ (p : Ports) where
  bearer_operation_valid :
      (subject bearer : String) (s : Server p) (operation : AuthenticatedOperation)
      → (bearer_operation p subject bearer stateful_mtls_tcp s).0 ≡ ok operation
      → validate_authorization p.max_authorization_bytes bearer ≡ ok tt
  unfolding bearer_operation
  bearer_operation_valid subject bearer s operation e = ground arith

  bearer_operation_complete :
      (subject bearer : String) (now : ℕ) (s : Server p)
      → validate_authorization p.max_authorization_bytes bearer ≡ ok tt
      → validate_identifier subject 256 ≡ ok tt
      → (p.clock s.world).0 ≡ some now
      → now < u64
      → p.validate (operation_of bearer subject now s.sequence) stateful_mtls_tcp ≡ true
      → (bearer_operation p subject bearer stateful_mtls_tcp s).0
        ≡ ok (operation_of bearer subject now s.sequence)
  unfolding bearer_operation operation_envelope now_unix_ms unix_ms fetch_sequence validated
  bearer_operation_complete subject bearer now s formed named clock small valid = ground arith

  module _ (g : TransportGateway p) (subject bearer : String) where
    -- The API server has replied to the operation of this subject with this bearer, over the client's
    -- connection.
    pub record IsReplied (s : Server p) (r : GatewayReply) : Type 0 where
      pub client : PersistentMtlsClient p
      pub now : ℕ
      pub reply : OperationReply p.Failure
      pub content : Value
      pub present : g.tcp ≡ some client
      pub formed : validate_authorization p.max_authorization_bytes bearer ≡ ok tt
      pub named : validate_identifier subject 256 ≡ ok tt
      pub clock : (p.clock s.world).0 ≡ some now
      pub small : now < u64
      pub valid : p.validate (operation_of bearer subject now s.sequence) stateful_mtls_tcp ≡ true
      pub answered :
          (request p client
            (operation_of bearer subject now s.sequence)
            (bearer_operation p subject bearer stateful_mtls_tcp s).1).0
          ≡ ok reply
      pub same : reply.operation_id ≡ some (operation_id_of now s.sequence)
      pub fine : reply.error ≡ none
      pub given : reply.result ≡ some content
      pub whole : r ≡ projection stateful_mtls_tcp content

    reply_of_complete :
        (id : String) (reply : OperationReply p.Failure) (content : Value)
        → reply.operation_id ≡ some id
        → reply.error ≡ none
        → reply.result ≡ some content
        → reply_of p g id reply ≡ ok (projection stateful_mtls_tcp content)
    unfolding reply_of
    reply_of_complete id reply content same fine given = ground (arith, eq_refl id)

    -- A read over mTLS succeeds exactly if the client is configured, the bearer and the subject are
    -- valid, the clock is in range, the contract accepts the operation of this subject, the clock's time
    -- and the sequence number with this bearer, and the API server has replied to it under its own id,
    -- with no error and with a result; and the reply then is this result.
    pub tcp_read_iff :
        (s : Server p) (r : GatewayReply)
        → ((tcp_read p g subject bearer s).0 ≡ ok r) ↔ IsReplied s r
    unfolding tcp_read envelope_of
    tcp_read_iff s r = (
      λ e.
          let (
            client,
            present,
            (operation, _, built, _, _, _, (reply, content, answered, same, fine, given, whole)),
          ) =
            tcp_read_sound p g subject bearer s r e in
          let (now, made, authorization, envelope, plain, valid) =
            bearer_operation_sound p subject bearer stateful_mtls_tcp s operation built in
          let equal : operation ≡ operation_of bearer subject now s.sequence =
            λ i. record { authorization = authorization i; envelope = envelope i } in
          record {
            client = client;
            now = now;
            reply = reply;
            content = content;
            present = present;
            formed = bearer_operation_valid subject bearer s operation built;
            named = made.subject_valid;
            clock = made.clock;
            small = made.in_u64;
            valid = rw equal at valid;
            answered =
                ap
                  (λ o.
                    (request p client o
                      (bearer_operation p subject bearer stateful_mtls_tcp s).1).0)
                  (sym equal)
                ∙ answered;
            same = same ∙ ap (λ v. some v.operation_id) envelope;
            fine = fine;
            given = given;
            whole = whole;
          },
      λ h.
          let built =
            bearer_operation_complete subject bearer h.now s h.formed h.named h.clock h.small
              h.valid in
          let read =
            reply_of_complete (operation_id_of h.now s.sequence) h.reply h.content h.same h.fine
              h.given in
          ground (arith, h.present, built, h.answered, read, h.whole),
    )
