-- ===== src/Tests/Bearer.antt =====
-- The checks of bearers and identifiers at concrete texts.
use Prim.Native.String.{len, ◌++◌}
use act_web_server_rs.Common.{◌≡◌, ◌≤◌, ◌↔◌, refl, ok, err, some}
use act_web_server_rs.Common.Text.{
  is_empty, trim, trim_start, trim_end, trim_last, is_whitespace, any_char, split_once,
  eq_ignore_ascii_case, strip_prefix,
}
use act_web_server_rs.Auth.{bearer_of, bearer_token, token_of, verify, identity_of, missing}
use act_web_server_rs.Auth.Laws.{IsVerified, verify_iff}
use act_web_server_rs.Gateway.{validate_authorization}
use act_web_server_rs.Routes.Bearer.{validate_authorization_of_bearer_iff}
use act_web_server_rs.Tests.Fixture.{ports}
use act_web_server_rs.Tests.State.{headers, no_headers, verifier, actor}

lower_case_bearer : bearer_of (some "bearer token") ≡ ok "token"
unfolding bearer_of token_of split_once eq_ignore_ascii_case is_empty trim trim_start trim_end
    trim_last is_whitespace any_char
lower_case_bearer = refl

pub known_actor : (verify ports verifier headers 0).0 ≡ ok actor
unfolding verify bearer_token bearer_of token_of split_once eq_ignore_ascii_case is_empty trim
    trim_start trim_end trim_last is_whitespace any_char identity_of
known_actor = refl

pub unknown_actor : (verify ports verifier no_headers 0).0 ≡ err missing
unfolding verify bearer_token bearer_of
unknown_actor = refl

verify_iff_example :
    ((verify ports verifier headers 0).0 ≡ ok actor) ↔ IsVerified ports verifier headers 0 actor
verify_iff_example = verify_iff ports verifier headers 0 actor

IsVerified-actor : IsVerified ports verifier headers 0 actor
IsVerified-actor = (verify_iff ports verifier headers 0 actor).0 known_actor

validate_authorization_of_bearer_iff_example :
    (validate_authorization 4096 "bearer token" ≡ ok tt)
    ↔ (("bearer token" ≡ "Bearer " ++ "token") × (len "bearer token" ≤ 4096))
validate_authorization_of_bearer_iff_example =
    validate_authorization_of_bearer_iff 4096 "bearer token" "token" lower_case_bearer

pub well_formed : validate_authorization 4096 "Bearer token" ≡ ok tt
unfolding validate_authorization strip_prefix is_empty trim trim_start trim_end trim_last
    is_whitespace any_char
well_formed = refl
