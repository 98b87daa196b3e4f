-- ===== src/Migration/Serve.antt =====
-- src/routes.rs: the data route in the mode of the database, over the table of migration/src.
use act_web_server_rs.Common.{
  ℕ, suc, ◌≡◌, ◌↔◌, refl, ap, ◌∙◌, sym, String, true, false, Option, some, List, ok, is_ok,
  Result-cases, inl, inr, arith,
}
use act_web_server_rs.Common.Text.{has_suffix}
use act_web_server_rs.Operation.{direct_read_only_database}
use act_web_server_rs.Ports.{Ports, read_only}
use act_web_server_rs.Auth.{
  HeaderMap, VerifiedIdentity, SharedAuthVerifier, verify, authorization_header,
}
use act_web_server_rs.Db.{DirectReadStore, events_for_subject, is_invalid_subject}
use act_web_server_rs.Gateway.{validate_authorization}
use act_web_server_rs.Gateway.State.{Server}
use act_web_server_rs.Gateway.Transport.{TransportGateway, read, read_mode}
use act_web_server_rs.Routes.{AppState, Features, data_read, serve, value_of_reply}
use act_web_server_rs.Routes.Reply.{private_json}
use act_web_server_rs.Routes.Success.{serve_data_sound, serve_data_complete}
use act_web_server_rs.Migration.{ColumnDef, event_columns}
use act_web_server_rs.Migration.Query.{IsPostgres, read_events}
use act_web_server_rs.Migration.Reads.{IsServed, events_for_subject_migrated_iff}

module _ (p : Ports) where
  -- A read of the database that is let in answers exactly if the store does.
  direct-read_ok :
      (g : TransportGateway p) (store : DirectReadStore p) (subject bearer : String) (s : Server p)
      (n : ℕ)
      → g.direct ≡ some store
      → validate_authorization p.max_authorization_bytes bearer ≡ ok tt
      → s.permits ≡ suc n
      → is_ok (read p g direct_read_only_database subject bearer s).0
        ≡ is_ok (events_for_subject p store subject s.world).0
  unfolding read read_mode
  direct-read_ok g store subject bearer s n configured valid left = ground arith

  private_json-ok : (value : _) → (private_json value).status ≡ 200
  unfolding private_json
  private_json-ok value = refl

  module _ (tables : p.World → String → Option (List ColumnDef)) (features : Features)
      (state : AppState p) (name bearer : String) (headers : HeaderMap) (s : Server p)
      (v : SharedAuthVerifier p) (identity : VerifiedIdentity) (store : DirectReadStore p)
      (n : ℕ) where
    -- To a request whose identity the verifier establishes and whose header the gateway accepts, while a
    -- permit is left, the data route in the mode of the database answers 200 exactly if the database
    -- serves the events of this identity's subject: for a configured store with a reviewed role, a valid
    -- subject, and the table that the migration makes, in a database that answers a statement with at most
    -- as many rows as its limit and with each selected column that cannot be null.
    pub serve_direct_iff :
        state.shared_auth ≡ some v
        → (verify p v headers s.world).0 ≡ ok identity
        → p.parse_mode name ≡ some direct_read_only_database
        → headers authorization_header ≡ some bearer
        → validate_authorization p.max_authorization_bytes bearer ≡ ok tt
        → s.permits ≡ suc n
        → state.gateway.direct ≡ some store
        → has_suffix "_web_ro" store.expected_role ≡ true
        → is_invalid_subject identity.subject ≡ false
        → IsPostgres p tables read_events
        → tables (p.begin store.database read_only (verify p v headers s.world).1).1 "events"
          ≡ some event_columns
        → ((serve p features state (data_read name) headers s).0.status ≡ 200)
          ↔ IsServed p tables store identity.subject (verify p v headers s.world).1
    serve_direct_iff open_ known named given valid left configured reviewed subject database
          migrated =
        let w = (verify p v headers s.world).1 in
        let t = record s { world = w } in
        let stored =
          events_for_subject_migrated_iff p tables store identity.subject w database migrated
            subject reviewed in
        let same =
          direct-read_ok state.gateway store identity.subject bearer t n configured valid left in
        (
          (λ e.
              let (
                v', identity', mode, bearer', reply, open', known', verified, named', given',
                answered, made,
              ) =
                serve_data_sound p features state name headers s e in
              let same_verifier : v' ≡ v = cc in
              let same_mode : mode ≡ direct_read_only_database = cc in
              let same_bearer : bearer' ≡ bearer = cc in
              let same_identity : identity' ≡ identity = ground (
                arith,
                ap (λ (u : SharedAuthVerifier p). (verify p u headers s.world).0) same_verifier,
              ) in
              let asked : (read p state.gateway direct_read_only_database identity.subject bearer
                    t).0
                  ≡ ok reply =
                rw (same_mode, same_identity, same_bearer, same_verifier) at answered in
              stored.0 (sym same ∙ ap is_ok asked)),
          (λ served.
              elim (Result-cases
                (read p state.gateway direct_read_only_database identity.subject bearer t).0) [
                  | inl (reply, answered) ↦
                      let whole =
                        serve_data_complete p features state name bearer headers s v identity
                          direct_read_only_database reply open_ known named given answered in
                      rw whole (private_json-ok (value_of_reply p reply))
                  | inr (f, refused) ↦ let read_ok = stored.1 served in absurd (ground arith)
                ]),
        )
