-- ===== src/Flags/Once.antt =====
-- src/flags.rs: `RESOLVED` and the calls that read it. The first of them resolves the settings from the
-- command line and the environment of that moment.
use act_web_server_rs.Common.{
  ◌≡◌, ◌≢◌, refl, ap, String, Option, none, some, List, [], ◌∷◌, Result, ok, err, map, All, arith,
  Result-cases, inl, inr,
}
use act_web_server_rs.Common.Maps.{Map}
use act_web_server_rs.Flags.{FlagParser, resolve_from}
use act_web_server_rs.Flags.Control.{process_control, var}
use act_web_server_rs.Flags.Help.{TomlReader}

-- `OnceLock<Result<BTreeMap<String, String>, String>>`
abbrev pub Once : Type 0
Once = Option (Result String (Map String))

abbrev pub Environment : Type 0
Environment = List (String × String)

pub data Call : Type 0 where
  control : Call
  variable : String → Call

pub data Answer : Type 0 where
  controlled : Result String (Option String) → Answer
  valued : Option String → Answer
  panicked : String → Answer

module _ (f : FlagParser) (read : TomlReader) (contract : String) (argv : List String) where
  -- `resolve`
  unfoldable pub resolve : Environment → Result String (Map String)
  resolve environment = resolve_from f contract argv environment

  -- `try_resolved`
  unfoldable pub try_resolved : Environment → Once → Result String (Map String) × Once
  unfolding resolve
  try_resolved environment none = let r = resolve environment in (r, some r)
  try_resolved environment (some r) = (r, some r)

  -- `var` behind `resolved`, which panics with the error
  unfoldable pub valued_or_panic : String → Result String (Map String) → Answer
  valued_or_panic name (ok values) = valued (var values name)
  valued_or_panic name (err e) = panicked e

  abbrev pub answer_of : Call → Result String (Map String) → Answer
  answer_of control r = controlled (process_control read contract r)
  answer_of (variable name) r = valued_or_panic name r

  -- a call in the environment of its moment
  unfoldable pub answer : Call → Environment → Once → Answer × Once
  unfolding try_resolved valued_or_panic
  answer call environment once =
      let (r, once') = try_resolved environment once in (answer_of call r, once')

  unfoldable pub answers : List (Call × Environment) → Once → List Answer
  unfolding answer
  answers [] once = []
  answers ((call, environment) ∷ calls) once =
      let (a, once') = answer call environment once in a ∷ answers calls once'

  answers-some :
      (calls : List (Call × Environment)) (r : Result String (Map String))
      → answers calls (some r) ≡ map (λ (call : Call × Environment). answer_of call.0 r) calls
  unfolding answers
  answers-some [] r = refl
  answers-some ((call, environment) ∷ calls) r =
      ap (λ (rest : List Answer). answer_of call r ∷ rest) (answers-some calls r)

  -- The settings of a process are those of its first call: whatever is asked later, and however the
  -- environment has changed by then, is answered from what the first call has resolved.
  pub answers-none :
      (first : Call) (environment : Environment) (calls : List (Call × Environment))
      → answers ((first, environment) ∷ calls) none
        ≡ map
            (λ (call : Call × Environment).
              answer_of call.0 (resolve_from f contract argv environment))
            ((first, environment) ∷ calls)
  unfolding answers
  answers-none first environment calls =
      ap (λ (rest : List Answer). answer_of first (resolve_from f contract argv environment) ∷ rest)
        (answers-some calls (resolve_from f contract argv environment))

  answer_of-ne-panicked :
      (call : Call) (values : Map String) (e : String) → answer_of call (ok values) ≢ panicked e
  unfolding valued_or_panic
  answer_of-ne-panicked control values e h = cc
  answer_of-ne-panicked (variable name) values e h = cc

  answers_some-ne-panicked :
      (calls : List (Call × Environment)) (values : Map String)
      → All (λ a. (e : String) → a ≢ panicked e) (answers calls (some (ok values)))
  unfolding answers
  answers_some-ne-panicked [] values = tt
  answers_some-ne-panicked ((call, environment) ∷ calls) values =
      (answer_of-ne-panicked call values, answers_some-ne-panicked calls values)

  -- Once `process_control` has succeeded, no call panics.
  pub answers-ne-panicked :
      (environment : Environment) (calls : List (Call × Environment)) (output : Option String)
      → process_control read contract (resolve_from f contract argv environment) ≡ ok output
      → All (λ a. (e : String) → a ≢ panicked e) (answers ((control, environment) ∷ calls) none)
  unfolding answers process_control
  answers-ne-panicked environment calls output h =
      elim (Result-cases (resolve_from f contract argv environment)) [
        | inl (values, resolved) ↦
            rw resolved
              (answer_of-ne-panicked control values, answers_some-ne-panicked calls values)
        | inr (e, refused) ↦ absurd (ground arith)
      ]
