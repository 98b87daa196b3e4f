-- ===== src/Config/Laws.antt =====
-- What `Config::from_env` guarantees of a configuration that it returns.
use Prim.Native.String.{len}
use act_web_server_rs.Common.Outcome.{or_else}
use act_web_server_rs.Common.{
  ℕ, ◌≤◌, ◌≡◌, ◌≢◌, inl, inr, String, Bool, true, false, ◌&&◌, ◌||◌, not, Option, none, some, ok,
  arith, is_some, traverse,
}
use act_web_server_rs.Common.Decimal.Parse.{parse_u16-le}
use act_web_server_rs.Common.Text.{any_char, is_control, is_whitespace, has_suffix}
use act_web_server_rs.Config.{
  Config, Env, env_non_empty, SharedAuthConfig, DirectDatabaseConfig, MtlsConfig, parse_port,
  shared_auth_of, direct_database_of, parse_mtls_config, mtls_of, validate_nats, from_env,
}
use act_web_server_rs.Config.Transports.{
  validate_https_or_loopback, validate_nats_url, validate_async_configuration,
}
use act_web_server_rs.Config.Valid.{
  IsAllowed, validate_https_or_loopback_iff, validate_async_configuration_iff,
}
use act_web_server_rs.Ports.{Ports}

module _ (p : Ports) where
  -- The steps of `from_env` have all succeeded, and the fields are their results.
  record Parts (env : Env) (c : Config p) : Type 0 where
    port : parse_port (env_non_empty env "PORT") 8080 "PORT" ≡ ok c.port
    shared_auth :
        shared_auth_of
          (env_non_empty env "SHARED_AUTH_URL")
          (env_non_empty env "SHARED_AUTH_SERVICE_CREDENTIAL")
        ≡ ok c.shared_auth
    direct_database :
        direct_database_of
          (or_else
            (env_non_empty env "ACT_READONLY_DATABASE_URL")
            (env_non_empty env "DATABASE_URL"))
          (env_non_empty env "ACT_READONLY_DATABASE_ROLE")
        ≡ ok c.direct_database
    api_url :
        traverse
          (λ value. validate_https_or_loopback p value "ACT_API_URL")
          (env_non_empty env "ACT_API_URL")
        ≡ ok c.api_url
    mtls : parse_mtls_config p env ≡ ok c.mtls
    nats_url : c.nats_url ≡ env_non_empty env "ACT_NATS_URL"
    nats_valid : validate_nats c.nats_url ≡ ok tt
    key : c.operation_attestation_key ≡ env_non_empty env "ACT_NATS_OPERATION_HMAC_KEY"
    async :
        validate_async_configuration
          (is_some c.nats_url)
          c.operation_attestation_key
          (is_some c.api_url)
        ≡ ok tt
    required :
        ((is_some c.api_url || is_some c.mtls || is_some c.nats_url) && not (is_some c.shared_auth))
        ≡ false

  from_env-Parts : (env : Env) (c : Config p) → from_env p env ≡ ok c → Parts env c
  unfolding from_env
  from_env-Parts env c e = ground arith

  shared_auth_of_sound :
      (url credential : Option String) (a : SharedAuthConfig)
      → shared_auth_of url credential ≡ ok (some a)
      → (16 ≤ len a.service_credential)
        × (any_char is_control a.service_credential ≡ false)
        × (a.audience ≡ "act-api")
        × (url ≡ some a.base_url)
        × (credential ≡ some a.service_credential)
  unfolding shared_auth_of
  shared_auth_of_sound url credential a e = ground arith

  direct_database_of_sound :
      (url role : Option String) (d : DirectDatabaseConfig)
      → direct_database_of url role ≡ ok (some d)
      → (has_suffix "_web_ro" d.expected_role ≡ true)
        × (url ≡ some d.url)
        × (role ≡ some d.expected_role)
  unfolding direct_database_of
  direct_database_of_sound url role d e = ground arith

  api_url_sound :
      (value : Option String) (url : p.Url)
      → traverse (λ v. validate_https_or_loopback p v "ACT_API_URL") value ≡ ok (some url)
      → IsAllowed p url
  api_url_sound none url e = cc
  api_url_sound (some v) url e =
      ((validate_https_or_loopback_iff p v "ACT_API_URL" url).0 (ground arith)).1

  parse_port-le :
      (value : Option String) (name : String) (port : ℕ)
      → parse_port value 8080 name ≡ ok port
      → port ≤ 65535
  unfolding parse_port
  parse_port-le none name port e = ground arith
  parse_port-le (some v) name port e = ground (arith, parse_u16-le v port)

  async_sound :
      (nats : Bool) (key : Option String) (api : Bool)
      → validate_async_configuration nats key api ≡ ok tt
      → nats ≡ true
      → (api ≡ true)
        × ((k : String) × (key ≡ some k) × (32 ≤ len k) × (any_char is_control k ≡ false))
  async_sound nats key api e on = elim ((validate_async_configuration_iff nats key api).0 e) [
    | inl off ↦ absurd (ground arith)
    | inr (_, given, key_given) ↦ (given, key_given)
  ]

  key_needs_nats :
      (nats : Bool) (key : Option String) (api : Bool)
      → validate_async_configuration nats key api ≡ ok tt
      → is_some key ≡ true
      → nats ≡ true
  unfolding validate_async_configuration
  key_needs_nats nats key api e given = ground arith

  mtls_of_sound :
      (a b c d e : Option String) (m : MtlsConfig)
      → mtls_of p a b c d e ≡ ok (some m)
      → (p.parse_socket_addr m.address ≢ none) × (any_char is_whitespace m.server_name ≡ false)
  unfolding mtls_of
  mtls_of_sound a b c d e m h = ground arith

  -- The rules that the configuration of a running process obeys.
  pub record IsValid (c : Config p) : Type 0 where
    pub port : c.port ≤ 65535
    pub credential :
        (a : SharedAuthConfig)
        → c.shared_auth ≡ some a
        → (16 ≤ len a.service_credential)
          × (any_char is_control a.service_credential ≡ false)
          × (a.audience ≡ "act-api")
    pub role :
        (d : DirectDatabaseConfig)
        → c.direct_database ≡ some d
        → has_suffix "_web_ro" d.expected_role ≡ true
    pub api_url : (url : p.Url) → c.api_url ≡ some url → IsAllowed p url
    pub mtls :
        (m : MtlsConfig)
        → c.mtls ≡ some m
        → (p.parse_socket_addr m.address ≢ none) × (any_char is_whitespace m.server_name ≡ false)
    pub nats :
        (url : String)
        → c.nats_url ≡ some url
        → (validate_nats_url url ≡ ok tt)
          × (is_some c.api_url ≡ true)
          × ((key : String) × (c.operation_attestation_key ≡ some key)
              × (32 ≤ len key)
              × (any_char is_control key ≡ false))
    pub key : is_some c.operation_attestation_key ≡ true → is_some c.nats_url ≡ true
    pub authenticated :
        (is_some c.api_url || is_some c.mtls || is_some c.nats_url) ≡ true
        → is_some c.shared_auth ≡ true

  -- A configuration that `from_env` returns, from whatever variables, is valid: the port is a `u16`;
  -- a service credential has at least 16 bytes and no control character, for the audience `act-api`;
  -- a database role ends in `_web_ro`; an API URL is HTTPS or this machine, with no credentials, query,
  -- fragment or path; an mTLS address is a socket address and its server name holds no white space;
  -- NATS comes with an accepted URL, an API URL and a key of at least 32 bytes with no control
  -- character, and that key only with NATS; and with any of the three API transports, Shared Auth is
  -- configured.
  pub from_env-IsValid : (env : Env) (c : Config p) → from_env p env ≡ ok c → IsValid c
  unfolding parse_port parse_mtls_config
  from_env-IsValid env c e = record {
    port = parse_port-le _ "PORT" c.port parts.port;
    credential =
        λ a h. let f = shared_auth_of_sound _ _ a (rw h at parts.shared_auth) in (f.0, f.1, f.2);
    role = λ d h. (direct_database_of_sound _ _ d (rw h at parts.direct_database)).0;
    api_url = λ url h. api_url_sound _ url (rw h at parts.api_url);
    mtls = λ m h. mtls_of_sound _ _ _ _ _ m (rw h at parts.mtls);
    nats = λ url h.
        let (api, key) =
          async_sound (is_some c.nats_url) c.operation_attestation_key (is_some c.api_url)
            parts.async (ground arith) in
        (rw h at parts.nats_valid, api, key);
    key =
        key_needs_nats (is_some c.nats_url) c.operation_attestation_key (is_some c.api_url)
          parts.async;
    authenticated = λ h. ground (arith, parts.required);
  }
    where
      parts : Parts env c
      parts = from_env-Parts env c e
