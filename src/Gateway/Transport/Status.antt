-- ===== src/Gateway/Transport/Status.antt =====
-- src/data_plane.rs: when `status` returns the status of an operation.
use Prim.Native.String.{◌++◌}
use act_web_server_rs.Common.{◌≡◌, ◌↔◌, String, ok, arith, inl, inr, Result-cases}
use act_web_server_rs.Common.Json.{Value}
use act_web_server_rs.Gateway.{validate_identifier}
use act_web_server_rs.Gateway.Http.{api_endpoint}
use act_web_server_rs.Gateway.Http.Fetch.{IsFetched, bounded_http_get_iff}
use act_web_server_rs.Gateway.State.{Server}
use act_web_server_rs.Gateway.Transport.{TransportGateway, status}
use act_web_server_rs.Ports.{Ports}

module _ (p : Ports) (g : TransportGateway p) where
  -- The API server has been asked for the status of the operation, with the bearer as it is.
  pub record IsReported (operation_id bearer : String) (s : Server p) (value : Value) : Type 0 where
    pub endpoint : p.Url
    pub named : validate_identifier operation_id 128 ≡ ok tt
    pub joined : api_endpoint p g.api_url ("v1/operations/" ++ operation_id) ≡ ok endpoint
    pub fetched : IsFetched p g.http endpoint bearer s value

  -- A status is returned exactly if the id is valid and the API server's answer under this id, asked for
  -- with this bearer, has it.
  pub status_iff :
      (operation_id bearer : String) (s : Server p) (value : Value)
      → ((status p g operation_id bearer s).0 ≡ ok value) ↔ IsReported operation_id bearer s value
  unfolding status
  status_iff operation_id bearer s value = (
    λ e. elim (Result-cases (api_endpoint p g.api_url ("v1/operations/" ++ operation_id))) [
      | inr (e', absent) ↦ absurd (ground arith)
      | inl (endpoint, joined) ↦ record {
        endpoint = endpoint;
        named = ground arith;
        joined = joined;
        fetched = (bounded_http_get_iff p g.http endpoint bearer s value).0 (ground arith);
      }
    ],
    λ h.
        let got = (bounded_http_get_iff p g.http h.endpoint bearer s value).1 h.fetched in
        ground (arith, h.named, h.joined, got),
  )
