-- ===== src/Tests/Config.antt =====
-- The configuration's theorems at concrete variables.
use act_web_server_rs.Common.{err, bail, ◌≡◌, refl, ok}
use act_web_server_rs.Common.Text.{
  is_empty, trim, trim_start, trim_end, trim_last, is_whitespace, any_char, is_control, has_suffix,
  has_prefix,
}
use act_web_server_rs.Common.Decimal.{parse_unsigned, unsigned, scan}
use act_web_server_rs.Config.{
  from_env, parse_port, env_non_empty, non_empty, shared_auth_of, direct_database_of,
  parse_mtls_config, mtls_of,
}
use act_web_server_rs.Config.Transports.{
  validate_https_or_loopback, validate_nats_url, validate_async_configuration, attestation_ok,
  is_refused, is_loopback,
}
use act_web_server_rs.Config.Laws.{IsValid, from_env-IsValid}
use act_web_server_rs.Tests.Fixture.{ports}
use act_web_server_rs.Tests.State.{direct_env, direct_config, env, config}

pub env_accepted : from_env ports env ≡ ok config
unfolding from_env parse_port env_non_empty non_empty shared_auth_of direct_database_of
    parse_mtls_config mtls_of validate_https_or_loopback validate_nats_url
    validate_async_configuration attestation_ok is_refused is_loopback is_empty trim trim_start
    trim_end trim_last is_whitespace any_char is_control has_suffix has_prefix parse_unsigned
    unsigned scan
env_accepted = refl

pub direct_env_accepted : from_env ports direct_env ≡ ok direct_config
unfolding from_env parse_port env_non_empty non_empty shared_auth_of direct_database_of
    parse_mtls_config mtls_of validate_https_or_loopback validate_nats_url
    validate_async_configuration attestation_ok is_refused is_loopback is_empty trim trim_start
    trim_end trim_last is_whitespace any_char is_control has_suffix has_prefix parse_unsigned
    unsigned scan
direct_env_accepted = refl

from_env-IsValid_example : IsValid ports config
from_env-IsValid_example = from_env-IsValid ports env config env_accepted

-- HTTP is refused but to this machine.
rejects_cleartext :
    validate_https_or_loopback ports "http://api.example" "ACT_API_URL"
    ≡ err (bail "ACT_API_URL requires HTTPS outside explicit loopback development")
unfolding validate_https_or_loopback is_refused is_loopback
rejects_cleartext = refl
