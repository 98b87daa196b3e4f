-- ===== src/Gateway/Http/Fetch.antt =====
-- src/data_plane.rs: when `bounded_http_get` returns a value.
use act_web_server_rs.Common.{
  ◌≡◌, ◌↔◌, refl, String, Option, some, ok, arith, inl, inr, Option-cases,
}
use act_web_server_rs.Common.Json.{Value}
use act_web_server_rs.Gateway.Http.{read_response, bounded_http_get}
use act_web_server_rs.Gateway.State.{Server}
use act_web_server_rs.Ports.{Ports, HttpResponse, Fetched, responded, timed_out, failed}

module _ (p : Ports) (http : Option p.HttpClient) (endpoint : p.Url) (bearer : String) where
  -- The client has been answered at the endpoint, asked with the bearer, and the value is read from its
  -- response.
  pub record IsFetched (s : Server p) (value : Value) : Type 0 where
    pub client : p.HttpClient
    pub response : HttpResponse
    pub present : http ≡ some client
    pub answered : (p.http_get client endpoint bearer s.world).0 ≡ responded response
    pub read : read_response p response ≡ ok value

  fetched-IsFetched :
      (s : Server p) (value : Value) (client : p.HttpClient)
      → http ≡ some client
      → (f : Fetched) → (p.http_get client endpoint bearer s.world).0 ≡ f
      → (bounded_http_get p http endpoint bearer s).0 ≡ ok value
      → IsFetched s value
  unfolding bounded_http_get
  fetched-IsFetched s value client present timed_out asked e = absurd (ground arith)
  fetched-IsFetched s value client present failed asked e = absurd (ground arith)
  fetched-IsFetched s value client present (responded response) asked e = record {
    client = client;
    response = response;
    present = present;
    answered = asked;
    read = ground arith;
  }

  -- A value is returned exactly if the client is there, has been answered, and the value is read from
  -- the response.
  pub bounded_http_get_iff :
      (s : Server p) (value : Value)
      → ((bounded_http_get p http endpoint bearer s).0 ≡ ok value) ↔ IsFetched s value
  unfolding bounded_http_get
  bounded_http_get_iff s value = (
    λ e. elim (Option-cases http) [
      | inl absent ↦ absurd (ground arith)
      | inr (client, present) ↦
          fetched-IsFetched s value client present (p.http_get client endpoint bearer s.world).0
            refl e
    ],
    λ h. ground (arith, h.present, h.answered, h.read),
  )
