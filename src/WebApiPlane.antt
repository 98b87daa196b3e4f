-- ===== src/WebApiPlane.antt =====
-- src/web_api_plane.rs: the policies of the four avenues between web and API. The crate
-- `k8s_web_api_data_plane` is a parameter; a failed `expect` is `none`.
use act_web_server_rs.Common.{
  ℕ, ◌≡◌, ◌↔◌, String, Option, none, some, Result, ok, arith, Option-cases, inl, inr,
}
use act_web_server_rs.Common.Outcome.{◌>>◌}

-- what the module uses of `k8s_web_api_data_plane`
pub record PlanePorts : Type 1 where
  pub OrgIdentity : Type 0
  pub new : String → String → String → Option OrgIdentity
  pub DataPlaneError : Type 0
  pub DataPlaneCapabilities : Type 0
  pub capabilities_for : OrgIdentity → DataPlaneCapabilities
  pub DirectDatabasePolicy : Type 0
  pub direct_database_for : OrgIdentity → DirectDatabasePolicy
  pub validate_direct_database :
      DirectDatabasePolicy → OrgIdentity → Result DataPlaneError (Unit {0})
  pub StatelessHttpPolicy : Type 0
  pub stateless_http_for : OrgIdentity → StatelessHttpPolicy
  pub validate_stateless_http : StatelessHttpPolicy → Result DataPlaneError (Unit {0})
  pub StatefulMtlsTcpPolicy : Type 0
  pub stateful_mtls_tcp_for : OrgIdentity → ℕ → StatefulMtlsTcpPolicy
  pub validate_stateful_mtls_tcp : StatefulMtlsTcpPolicy → Result DataPlaneError (Unit {0})
  pub JetStreamPolicy : Type 0
  pub jet_stream_for : OrgIdentity → JetStreamPolicy
  pub validate_jet_stream : JetStreamPolicy → Result DataPlaneError (Unit {0})

abbrev pub github_org : String
github_org = "anticaptrad"

abbrev pub org_slug : String
org_slug = "anticaptrad"

abbrev pub dns_zone : String
dns_zone = "anticaptrad.dev"

-- the tuple that `policies` returns
pub record Policies (p : PlanePorts) : Type 0 where
  pub db : p.DirectDatabasePolicy
  pub http : p.StatelessHttpPolicy
  pub tcp : p.StatefulMtlsTcpPolicy
  pub nats : p.JetStreamPolicy

module _ (p : PlanePorts) where
  unfoldable pub identity : Option p.OrgIdentity
  identity = p.new github_org org_slug dns_zone

  abbrev map_identity : {A : Type 0} → (p.OrgIdentity → A) → Option p.OrgIdentity → Option A
  map_identity f none = none
  map_identity f (some i) = some (f i)

  unfoldable pub capabilities : Option p.DataPlaneCapabilities
  unfolding identity
  capabilities = map_identity p.capabilities_for identity

  abbrev pub policies_for : p.OrgIdentity → Policies p
  policies_for i = record {
    db = p.direct_database_for i;
    http = p.stateless_http_for i;
    tcp = p.stateful_mtls_tcp_for i 7443;
    nats = p.jet_stream_for i;
  }

  unfoldable pub policies : Option (Policies p)
  unfolding identity
  policies = map_identity policies_for identity

  abbrev validate_all : p.OrgIdentity → Policies p → Result p.DataPlaneError (Unit {0})
  validate_all i four = do
    p.validate_direct_database four.db i
    p.validate_stateless_http four.http
    p.validate_stateful_mtls_tcp four.tcp
    p.validate_jet_stream four.nats

  abbrev validate_with :
      Option p.OrgIdentity → Option (Policies p) → Option (Result p.DataPlaneError (Unit {0}))
  validate_with (some i) (some four) = some (validate_all i four)
  validate_with none _ = none
  validate_with (some i) none = none

  unfoldable pub validate_four_avenues : Option (Result p.DataPlaneError (Unit {0}))
  unfolding identity policies
  validate_four_avenues = validate_with identity policies

  -- each avenue's policy for the identity is valid
  pub record AreValid (i : p.OrgIdentity) : Type 0 where
    pub db : p.validate_direct_database (p.direct_database_for i) i ≡ ok tt
    pub http : p.validate_stateless_http (p.stateless_http_for i) ≡ ok tt
    pub tcp : p.validate_stateful_mtls_tcp (p.stateful_mtls_tcp_for i 7443) ≡ ok tt
    pub nats : p.validate_jet_stream (p.jet_stream_for i) ≡ ok tt

  validate_four_avenues-AreValid :
      validate_four_avenues ≡ some (ok tt)
      → (i : p.OrgIdentity) × (p.new "anticaptrad" "anticaptrad" "anticaptrad.dev" ≡ some i)
        × AreValid i
  unfolding validate_four_avenues identity policies
  validate_four_avenues-AreValid e =
      elim (Option-cases (p.new "anticaptrad" "anticaptrad" "anticaptrad.dev")) [
        | inl refused ↦ absurd (ground arith)
        | inr (i, accepted) ↦ (
          i,
          accepted,
          record {
            db = ground arith;
            http = ground arith;
            tcp = ground arith;
            nats = ground arith;
          },
        )
      ]

  -- The check of the four avenues passes exactly if the crate accepts the repository's names as an
  -- identity and each of the four policies for this identity, the one for TCP at port 7443, is valid.
  pub validate_four_avenues_iff : (validate_four_avenues ≡ some (ok tt)) ↔ (
      (i : p.OrgIdentity) × (p.new "anticaptrad" "anticaptrad" "anticaptrad.dev" ≡ some i)
      × AreValid i)
  unfolding validate_four_avenues identity policies
  validate_four_avenues_iff = (
    validate_four_avenues-AreValid,
    λ (i, accepted, h). ground (arith, accepted, h.db, h.http, h.tcp, h.nats),
  )
