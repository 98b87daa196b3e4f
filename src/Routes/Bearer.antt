-- ===== src/Routes/Bearer.antt =====
-- src/auth.rs and src/data_plane.rs: the two checks of a bearer, by the middleware and by the gateway.
use Prim.Native.String.{len, ◌++◌}
use text.Mathlib.TextLemmas.{cons-append, nil-append, append_assoc}
use act_web_server_rs.Common.{true, ℕ, ◌≤◌, ◌≡◌, ◌∙◌, ◌↔◌, refl, ap, String, some, ok, arith}
use act_web_server_rs.Common.Text.{split_once, any_char, eq_ignore_ascii_case}
use act_web_server_rs.Common.Text.Laws.{split_once-append}
use act_web_server_rs.Auth.{bearer_of}
use act_web_server_rs.Auth.Laws.{bearer_of_iff}
use act_web_server_rs.Gateway.{validate_authorization}
use act_web_server_rs.Gateway.Validation.{validate_authorization_iff}

bearer_spaced : (t : String) → "Bearer " ++ t ≡ "Bearer" ++ String.◌∷◌ " " t
bearer_spaced t =
    append_assoc "Bearer" " " t
    ∙ ap (◌++◌ "Bearer") (cons-append " " "" t ∙ ap (String.◌∷◌ " ") (nil-append t))

split_once-bearer : (t : String) → split_once " " ("Bearer " ++ t) ≡ some ("Bearer", t)
unfolding any_char
split_once-bearer t = rw (bearer_spaced t) (split_once-append " " "Bearer" t refl)

same_scheme : eq_ignore_ascii_case "Bearer" "Bearer" ≡ true
unfolding eq_ignore_ascii_case
same_scheme = refl

-- Of the headers from which the middleware takes a token `t`, the gateway accepts exactly those that
-- read `Bearer ` and `t`, with the scheme in that spelling, and are within its limit.
pub validate_authorization_of_bearer_iff :
    (max : ℕ) (raw t : String)
    → bearer_of (some raw) ≡ ok t
    → (validate_authorization max raw ≡ ok tt) ↔ ((raw ≡ "Bearer " ++ t) × (len raw ≤ max))
validate_authorization_of_bearer_iff max raw t e =
    let (scheme, split, bearer, nonempty, plain) = (bearer_of_iff raw t).0 e in
    (
      λ h.
          let (token, whole, n, q, fits) = (validate_authorization_iff max raw).0 h in
          let split' : split_once " " raw ≡ some ("Bearer", token) =
            rw whole (split_once-bearer token) in
          let same : token ≡ t = ground arith in (rw (← same) whole, fits),
      λ (whole, fits). (validate_authorization_iff max raw).1 (t, whole, nonempty, plain, fits),
    )

-- Whatever the gateway accepts the middleware accepts too, with the same token.
pub bearer_of_valid :
    (max : ℕ) (raw : String)
    → validate_authorization max raw ≡ ok tt
    → (t : String) × (bearer_of (some raw) ≡ ok t) × (raw ≡ "Bearer " ++ t)
bearer_of_valid max raw h =
    let (token, whole, nonempty, plain, fits) = (validate_authorization_iff max raw).0 h in
    (
      token,
      (bearer_of_iff raw token).1
          ("Bearer", rw whole (split_once-bearer token), same_scheme, nonempty, plain),
      whole,
    )
