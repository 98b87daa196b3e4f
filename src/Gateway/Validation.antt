-- ===== src/Gateway/Validation.antt =====
-- What `validate_authorization` and `validate_identifier` accept.
use act_web_server_rs.Common.{
  ℕ, ◌≤◌, String, ◌≡◌, ◌≢◌, ◌↔◌, inl, inr, false, arith, ok, eq_iff, Option-cases,
}
use act_web_server_rs.Common.Text.{any_char, is_whitespace, is_control, trim, strip_prefix}
use act_web_server_rs.Common.Text.Laws.{strip_prefix_iff, is_empty_iff, trim_of_no_whitespace}
use act_web_server_rs.Gateway.{validate_authorization, validate_identifier}
use Prim.Native.String.{len, ◌++◌}

-- An authorization is accepted exactly if it is `Bearer `, in this spelling, and a token that is not
-- empty and holds no white space, and is within the limit as a whole.
pub validate_authorization_iff :
    (max : ℕ) (value : String)
    → (validate_authorization max value ≡ ok tt) ↔ (
        (token : String) × (value ≡ "Bearer " ++ token)
        × (token ≢ "")
        × (any_char is_whitespace token ≡ false)
        × (len value ≤ max))
unfolding validate_authorization
validate_authorization_iff max value = (accepted, refused)
  where
    accepted :
        validate_authorization max value ≡ ok tt
        → (token : String) × (value ≡ "Bearer " ++ token)
          × (token ≢ "")
          × (any_char is_whitespace token ≡ false)
          × (len value ≤ max)
    accepted h = elim (Option-cases (strip_prefix "Bearer " value)) [
      | inl missing ↦ absurd (ground arith)
      | inr (token, found) ↦ (
        token,
        (strip_prefix_iff "Bearer " value token).0 found,
        ground (arith, is_empty_iff token),
        ground arith,
        ground arith,
      )
    ]

    refused :
        ((token : String) × (value ≡ "Bearer " ++ token)
          × (token ≢ "")
          × (any_char is_whitespace token ≡ false)
          × (len value ≤ max))
        → validate_authorization max value ≡ ok tt
    refused (token, e, nonempty, plain, fits) =
        rw ((strip_prefix_iff "Bearer " value token).1 e, validate_authorization)
          (ground (
            arith,
            is_empty_iff token,
            trim_of_no_whitespace token plain,
            eq_iff (trim token) token,
          ))

-- An identifier is accepted exactly if it is not empty, has at most `maximum` bytes, no white space
-- at either end and no control character.
pub validate_identifier_iff :
    (value : String) (maximum : ℕ)
    → (validate_identifier value maximum ≡ ok tt) ↔ (
        (value ≢ "")
        × (len value ≤ maximum)
        × (trim value ≡ value)
        × (any_char is_control value ≡ false))
unfolding validate_identifier
validate_identifier_iff value maximum =
    ground (arith, is_empty_iff value, eq_iff (trim value) value)
