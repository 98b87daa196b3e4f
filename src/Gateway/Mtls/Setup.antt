-- ===== src/Gateway/Mtls/Setup.antt =====
-- src/data_plane.rs: `PersistentMtlsClient::from_config`, which runs once at the start.
use act_web_server_rs.Common.{
  String, Bool, true, false, List, [], ◌∷◌, Result, ok, ok_or, fail_if, not, AnyError, bail,
  library,
}
use act_web_server_rs.Common.Outcome.{◌>>=◌, ◌>>◌}
use act_web_server_rs.Config.{MtlsConfig}
use act_web_server_rs.Ports.{Ports}

pub record PersistentMtlsClient (p : Ports) : Type 0 where
  pub address : p.SocketAddr
  pub server_name : String
  pub connector : p.Connector

abbrev pub nonempty {ℓ} : {A : Type ℓ} → List A → Bool
nonempty [] = false
nonempty (_ ∷ _) = true

module _ (p : Ports) where
  -- `for certificate in server_certificates { roots.add(certificate)?; }`
  unfoldable pub add_roots : p.RootStore → List p.Certificate → Result AnyError p.RootStore
  add_roots roots [] = ok roots
  add_roots roots (c ∷ cs) = do r ← ok_or (p.add_root roots c) library; add_roots r cs

  -- `from_config`
  unfoldable pub from_config : MtlsConfig → Result AnyError (PersistentMtlsClient p)
  unfolding add_roots
  from_config config = do
    client_certificates ← ok_or (p.read_certificates config.client_certificate_file) library
    fail_if (not (nonempty client_certificates))
        (bail "ACT_WEB_CLIENT_CERT_FILE contains no certificates")
    client_private_key ←
        ok_or (p.read_private_key config.client_private_key_file)
          (bail "ACT_WEB_CLIENT_KEY_FILE contains no usable key")
    server_certificates ← ok_or (p.read_certificates config.server_ca_file) library
    fail_if (not (nonempty server_certificates)) (bail "ACT_API_CA_FILE contains no certificates")
    roots ← add_roots p.empty_roots server_certificates
    tls ← ok_or (p.client_connector roots client_certificates client_private_key) library
    address ← ok_or (p.parse_socket_addr config.address) library
    ok (record { address = address; server_name = config.server_name; connector = tls })
