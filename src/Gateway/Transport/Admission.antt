-- ===== src/Gateway/Transport/Admission.antt =====
-- Requests that run at the same time: each is admitted by the semaphore, works, and drops its permit
-- when it ends or is cancelled.
use act_web_server_rs.Common.{ℕ, suc, ◌+◌, ◌≤◌, ◌≡◌, ◌↔◌, ok, err, arith}
use act_web_server_rs.Ports.{Ports}
use act_web_server_rs.Gateway.{backpressure}
use act_web_server_rs.Gateway.State.{Server}
use act_web_server_rs.Gateway.Transport.{max_in_flight_operations, try_acquire, release}

-- the gateway with the number of requests that hold a permit
pub record Load (p : Ports) : Type 0 where
  pub server : Server p
  pub in_flight : ℕ

module _ (p : Ports) where
  -- Any request may be next, and a running one may be dropped at any point.
  pub data Step (a b : Load p) : Type 0 where
    admit : try_acquire p a.server ≡ (ok tt, b.server) → b.in_flight ≡ suc a.in_flight → Step a b
    refuse :
        try_acquire p a.server ≡ (err backpressure, b.server) → b.in_flight ≡ a.in_flight → Step a b
    work : b.server.permits ≡ a.server.permits → b.in_flight ≡ a.in_flight → Step a b
    drop :
        a.in_flight ≡ suc b.in_flight
        → b.server ≡ (release p {A = Unit {0}} (tt, a.server)).1
        → Step a b

  pub data Reach (a : Load p) : Load p → Type 0 where
    here : Reach a a
    later : {b c : Load p} → Reach a b → Step b c → Reach a c

  abbrev pub IsBalanced : Load p → Type 0
  IsBalanced a = a.server.permits + a.in_flight ≡ max_in_flight_operations

  Step-IsBalanced : {a b : Load p} → Step a b → IsBalanced a → IsBalanced b
  unfolding try_acquire
  Step-IsBalanced (admit e n) h = ground arith
  Step-IsBalanced (refuse e n) h = ground arith
  Step-IsBalanced (work e n) h = omega arith
  Step-IsBalanced (drop n e) h = ground arith

  Reach-IsBalanced : {a b : Load p} → IsBalanced a → Reach a b → IsBalanced b
  Reach-IsBalanced h here = h
  Reach-IsBalanced h (later r step) = Step-IsBalanced step (Reach-IsBalanced h r)

  -- From a gateway with all 64 permits and no request in flight, in every interleaving at most 64
  -- requests are in flight at a time, and a request is refused with `Backpressure` exactly if 64 are.
  pub Reach-bounded :
      (a b : Load p)
      → a.server.permits ≡ max_in_flight_operations
      → a.in_flight ≡ 0
      → Reach a b
      → (b.in_flight ≤ max_in_flight_operations)
        × (((try_acquire p b.server).0 ≡ err backpressure)
            ↔ (b.in_flight ≡ max_in_flight_operations))
  unfolding try_acquire
  Reach-bounded a b full idle r =
      let balanced = Reach-IsBalanced {a = a} {b = b} (omega arith) r in ground arith
