-- ===== src/Main/Wiring.antt =====
-- src/main.rs: what the start wires together.
use act_web_server_rs.Common.{
  ◌≡◌, inl, inr, refl, ap, String, true, Option, none, some, Result, ok, arith, Result-cases,
  is_some, AnyError, traverse,
}
use act_web_server_rs.Ports.{Ports}
use act_web_server_rs.Config.{Config}
use act_web_server_rs.Gateway.Mtls.Setup.{from_config}
use act_web_server_rs.Gateway.Transport
use act_web_server_rs.Gateway.Transport.{TransportGateway, client_for, read}
use act_web_server_rs.Gateway.Transport.Configured.{IsPaired, IsClientOf, new_sound}
use act_web_server_rs.Routes.{AppState}
use act_web_server_rs.Main.{start, verifier_of, direct_of, jetstream_of}

module _ (p : Ports) where
  traverse-is_some :
      {A B : Type 0} (f : A → Result AnyError B) (o : Option A) (r : Option B)
      → traverse f o ≡ ok r
      → is_some r ≡ is_some o
  traverse-is_some f none r e = ground arith
  traverse-is_some f (some a) r e = ground arith

  jetstream_of-some :
      (url : Option String) (w : p.World) (c : Option p.JetStream)
      → (jetstream_of p url w).0 ≡ ok c
      → is_some c ≡ true
      → is_some url ≡ true
  unfolding jetstream_of
  jetstream_of-some none w c e h = ground arith
  jetstream_of-some (some url) w c e h = refl

  -- what has been wired together at the start
  pub record IsWired (c : Config p) (state : AppState p) : Type 0 where
    pub direct : state.direct_database_connected ≡ is_some state.gateway.direct
    pub http : state.stateless_http_configured ≡ is_some state.gateway.api_url
    pub tcp : state.stateful_mtls_configured ≡ is_some state.gateway.tcp
    pub jetstream : state.jetstream_configured ≡ is_some state.gateway.jetstream
    pub paired : IsPaired p state.gateway
    pub api_url : state.gateway.api_url ≡ c.api_url
    pub key : state.gateway.operation_attestation_key ≡ c.operation_attestation_key
    pub mtls : is_some state.gateway.tcp ≡ is_some c.mtls
    pub nats : is_some state.gateway.jetstream ≡ true → is_some c.nats_url ≡ true
    pub auth : is_some state.shared_auth ≡ is_some c.shared_auth
    pub client :
        (h : p.HttpClient) → state.gateway.http ≡ some h → IsClientOf p state.gateway.api_url h

  pub start-IsWired :
      (c : Config p) (w : p.World) (state : AppState p)
      → (start p c w).0 ≡ ok state
      → IsWired c state
  unfolding start
  start-IsWired c w state e =
      let d = direct_of p c.direct_database w in
      let j = jetstream_of p c.nats_url d.1 in
      elim (Result-cases (traverse (verifier_of p) c.shared_auth)) [
        | inr (f, failed) ↦ absurd (ground arith)
        | inl (auth, authed) ↦ elim (Result-cases d.0) [
          | inr (f, failed) ↦ absurd (ground arith)
          | inl (direct, direct_made) ↦ elim (Result-cases (traverse (from_config p) c.mtls)) [
            | inr (f, failed) ↦ absurd (ground arith)
            | inl (tcp, tcp_made) ↦ elim (Result-cases j.0) [
              | inr (f, failed) ↦ absurd (ground arith)
              | inl (jetstream, jetstream_made) ↦
                  elim (Result-cases
                    (Transport.new p direct c.api_url tcp jetstream c.operation_attestation_key)) [
                      | inr (f, failed) ↦ absurd (ground arith)
                      | inl (gateway, made) ↦
                          let h1 = traverse-is_some (verifier_of p) c.shared_auth auth authed in
                          let h2 = traverse-is_some (from_config p) c.mtls tcp tcp_made in
                          let h3 = jetstream_of-some c.nats_url d.1 jetstream jetstream_made in
                          let same : state ≡ record {
                            shared_auth = auth;
                            gateway = gateway;
                            direct_database_connected = is_some direct;
                            stateless_http_configured = is_some c.api_url;
                            stateful_mtls_configured = is_some tcp;
                            jetstream_configured = is_some jetstream;
                          } =
                            ground arith in
                          let (paired, q1, q2, q3, q4, q5, built) =
                            new_sound p direct c.api_url tcp jetstream c.operation_attestation_key
                              gateway made in
                          record {
                            direct = ground arith;
                            http = ground arith;
                            tcp = ground arith;
                            jetstream = ground arith;
                            paired = ground arith;
                            api_url = ground arith;
                            key = ground arith;
                            mtls = ground arith;
                            nats = λ h. h3 (ground arith);
                            auth = ground arith;
                            client = λ h e.
                                rw (ap (λ g. g.gateway.api_url) same, q2) (built h (ground arith));
                          }
                    ]
            ]
          ]
        ]
      ]
