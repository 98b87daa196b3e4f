-- ===== src/Auth/Laws.antt =====
-- What the bearer parser and the verifier accept, and how the two checks of a bearer agree.
use text.Mathlib.TextPositions.{eq_refl}
use act_web_server_rs.Common.{
  ◌≡◌, ◌≢◌, ◌↔◌, inl, inr, String, true, false, some, Result, ok, err, arith, Option-cases,
  Result-cases, eq_iff,
}
use act_web_server_rs.Common.Text.{any_char, is_whitespace, trim, split_once, eq_ignore_ascii_case}
use act_web_server_rs.Common.Text.Laws.{is_empty_iff, trim_of_no_whitespace}
use act_web_server_rs.Auth.{
  HeaderMap, VerifiedIdentity, AuthFailure, SharedAuthVerifier, token_of, bearer_of, bearer_token,
  identity_of, verify, required_scopes, introspected,
}
use act_web_server_rs.Ports.{Ports, Claims, ClientError}

token_of_iff :
    (scheme token t : String)
    → (token_of scheme token ≡ ok t) ↔ (
        (t ≡ token)
        × (eq_ignore_ascii_case scheme "Bearer" ≡ true)
        × (token ≢ "")
        × (any_char is_whitespace token ≡ false))
unfolding token_of
token_of_iff scheme token t =
    ground (arith, is_empty_iff token, trim_of_no_whitespace token, eq_iff (trim token) token)

-- A header gives the token `t` exactly if it is a scheme without a space, a space and `t`, where the
-- scheme is `Bearer` in any ASCII case and `t` is not empty and holds no white space.
pub bearer_of_iff :
    (raw t : String)
    → (bearer_of (some raw) ≡ ok t) ↔ (
        (scheme : String) × (split_once " " raw ≡ some (scheme, t))
        × (eq_ignore_ascii_case scheme "Bearer" ≡ true)
        × (t ≢ "")
        × (any_char is_whitespace t ≡ false))
unfolding bearer_of
bearer_of_iff raw t = elim (Option-cases (split_once " " raw)) [
  | inl unsplit ↦
      (λ h. absurd (ground arith), λ (scheme, split, rest, more, plain). absurd (ground arith))
  | inr ((scheme, token), split) ↦ (
    λ h.
        let found : token_of scheme token ≡ ok t = ground arith in
        let (same, bearer, nonempty, plain) = (token_of_iff scheme token t).0 found in
        (scheme, ground arith, bearer, rw same nonempty, rw same plain),
    λ (scheme', split', bearer, nonempty, plain). ground (arith, token_of_iff scheme token t),
  )
]

module _ (p : Ports) where
  -- what stands behind an identity
  pub record IsVerified (v : SharedAuthVerifier p) (headers : HeaderMap) (w : p.World)
      (identity : VerifiedIdentity) : Type 0 where
    pub token : String
    pub claims : Claims
    pub bearer : bearer_token headers ≡ ok token
    pub introspected : (p.introspect v.client token v.audience required_scopes w).0 ≡ ok claims
    pub active : claims.active ≡ true
    pub audience : claims.aud ≡ some v.audience
    pub subject : claims.sub ≡ some identity.subject
    pub nonblank : trim identity.subject ≢ ""

  identity_of_sound :
      (claims : Claims) (audience : String) (identity : VerifiedIdentity)
      → identity_of claims audience ≡ ok identity
      → (claims.active ≡ true)
        × (claims.aud ≡ some audience)
        × (claims.sub ≡ some identity.subject)
        × (trim identity.subject ≢ "")
  unfolding identity_of
  identity_of_sound claims audience identity e = elim (Option-cases claims.aud) [
    | inl absent ↦ absurd (ground arith)
    | inr (aud, given) ↦ elim (Option-cases claims.sub) [
      | inl absent ↦ absurd (ground arith)
      | inr (sub, named) ↦
          let same : sub ≡ identity.subject = ground arith in
          (
            ground arith,
            ground (arith, eq_iff aud audience),
            ground arith,
            ground (arith, is_empty_iff (trim sub)),
          )
    ]
  ]

  introspected-eq-ok :
      {A : Type 0} (r : Result ClientError A) (a : A) → introspected r ≡ ok a → r ≡ ok a
  introspected-eq-ok (ok b) a e = ground arith
  introspected-eq-ok (err f) a e = cc

  -- An identity is returned only for a request with a bearer token which the authority, asked with
  -- the token, the verifier's audience and the required scopes, has answered with active claims for
  -- exactly that audience; its subject is the claims' and is not blank.
  pub verify_sound :
      (v : SharedAuthVerifier p) (headers : HeaderMap) (w : p.World) (identity : VerifiedIdentity)
      → (verify p v headers w).0 ≡ ok identity
      → IsVerified v headers w identity
  unfolding verify
  verify_sound v headers w identity e = elim (Result-cases (bearer_token headers)) [
    | inr (f, refused) ↦ absurd (ground arith)
    | inl (token, bearer) ↦
        let r = p.introspect v.client token v.audience required_scopes w in
        elim (Result-cases (introspected r.0)) [
          | inr (f, refused) ↦ absurd (ground arith)
          | inl (claims, answered) ↦
              let (active, audience, subject, nonblank) =
                identity_of_sound claims v.audience identity (ground arith) in
              record {
                token = token;
                claims = claims;
                bearer = bearer;
                introspected = introspected-eq-ok r.0 claims answered;
                active = active;
                audience = audience;
                subject = subject;
                nonblank = nonblank;
              }
        ]
  ]

  identity_of_complete :
      (claims : Claims) (audience : String) (identity : VerifiedIdentity)
      → claims.active ≡ true
      → claims.aud ≡ some audience
      → claims.sub ≡ some identity.subject
      → trim identity.subject ≢ ""
      → identity_of claims audience ≡ ok identity
  unfolding identity_of
  identity_of_complete claims audience identity active given named nonblank =
      ground (arith, eq_refl audience, is_empty_iff (trim identity.subject))

  -- An identity is returned exactly if the request has a bearer token with which, with the verifier's
  -- audience and the required scopes, the authority answers with active claims for exactly that
  -- audience, and the identity's subject is the claims' and is not blank.
  pub verify_iff :
      (v : SharedAuthVerifier p) (headers : HeaderMap) (w : p.World) (identity : VerifiedIdentity)
      → ((verify p v headers w).0 ≡ ok identity) ↔ IsVerified v headers w identity
  unfolding verify
  verify_iff v headers w identity = (
    verify_sound v headers w identity,
    λ h.
        let made =
          identity_of_complete h.claims v.audience identity h.active h.audience h.subject
            h.nonblank in
        ground (arith, h.bearer, h.introspected, made),
  )

  -- A request without an acceptable bearer is refused before the authority is asked.
  pub verify_no_bearer :
      (v : SharedAuthVerifier p) (headers : HeaderMap) (w : p.World) (f : AuthFailure)
      → bearer_token headers ≡ err f
      → verify p v headers w ≡ (err f, w)
  unfolding verify
  verify_no_bearer v headers w f e = rw (e, verify)
