-- ===== src/Gateway/Keeps.antt =====
-- Which part of the gateway's state an action leaves alone, with the rules for `do` blocks.
use act_web_server_rs.Common.{◌≡◌, refl, Result, ok, err}
use act_web_server_rs.Common.Effect.{Action, after}
use act_web_server_rs.Ports.{Ports}
use act_web_server_rs.Gateway.{GatewayError}
use act_web_server_rs.Gateway.State.{Server}

module _ (p : Ports) {B : Type 0} (part : Server p → B) where
  -- The part is the same before and after.
  abbrev pub Keeps : {A : Type 0} → Action (Server p) GatewayError A → Type 0
  Keeps m = (s : Server p) → part (m s).1 ≡ part s

  pub after-Keeps :
      {A C : Type 0} (f : A → Action (Server p) GatewayError C)
      (r : Result GatewayError A × Server p)
      → ((a : A) → Keeps (f a))
      → part (after f r).1 ≡ part r.1
  after-Keeps f (ok a, s) h = h a s
  after-Keeps f (err e, s) h = refl
