-- ===== src/Process/Shutdown.antt =====
-- src/main.rs: `shutdown_signal`, on Unix. The race of `tokio::select!` is polled in rounds, and a round
-- polls its two branches in either order.
use act_web_server_rs.Common.{
  ℕ, zero, suc, ◌<◌, ◌≡◌, refl, ◌≢◌, ◌⊎◌, ◌↔◌, inl, inr, Bool, true, false, Option, none, some,
  arith, if◌then◌else◌,
}

-- what a branch answers to a poll; `uninstallable` is a handler that could not be installed
pub data Signal : Type 0 where
  not_yet received uninstallable : Signal

pub record Round : Type 0 where
  pub terminate_first : Bool
  pub ctrl_c : Signal
  pub terminate : Signal

-- how the future ends; `expect` panics
pub data Ended : Type 0 where
  shut_down panicked : Ended

unfoldable pub branch : Signal → Option Ended → Option Ended
branch not_yet other = other
branch received other = some shut_down
branch uninstallable other = some panicked

-- one round of `tokio::select!`
unfoldable pub select : Round → Option Ended
unfolding branch
select round =
    if round.terminate_first
    then branch round.terminate (branch round.ctrl_c none)
    else branch round.ctrl_c (branch round.terminate none)

-- `shutdown_signal` in so many rounds; `none` is a future that still waits
unfoldable pub shutdown_signal : ℕ → (ℕ → Round) → Option Ended
unfolding select
shutdown_signal zero rounds = none
shutdown_signal (suc n) rounds = elim (select (rounds 0)) [
  | some ended ↦ some ended
  | none ↦ shutdown_signal n (λ k. rounds (suc k))
]

abbrev pub IsInstalled : Round → Type 0
IsInstalled round = (round.ctrl_c ≢ uninstallable) × (round.terminate ≢ uninstallable)

abbrev pub HasSignal : Round → Type 0
HasSignal round = (round.ctrl_c ≡ received) ⊎ (round.terminate ≡ received)

select-cases_of :
    (first : Bool) (interrupt terminate : Signal)
    → interrupt ≢ uninstallable
    → terminate ≢ uninstallable
    → let round : Round = record {
      terminate_first = first;
      ctrl_c = interrupt;
      terminate = terminate;
    } in
      ((select round ≡ some shut_down) × HasSignal round)
      ⊎ ((select round ≡ none) × (¬ HasSignal round))
unfolding select
select-cases_of first interrupt uninstallable h h' = absurd (h' refl)
select-cases_of first uninstallable terminate h h' = absurd (h refl)
select-cases_of true received not_yet h h' = inl (refl, inl refl)
select-cases_of false received not_yet h h' = inl (refl, inl refl)
select-cases_of true not_yet not_yet h h' = inr (refl, λ signal. ground arith)
select-cases_of false not_yet not_yet h h' = inr (refl, λ signal. ground arith)
select-cases_of true not_yet received h h' = inl (refl, inr refl)
select-cases_of false not_yet received h h' = inl (refl, inr refl)
select-cases_of true received received h h' = inl (refl, inr refl)
select-cases_of false received received h h' = inl (refl, inr refl)

select-cases :
    (round : Round)
    → IsInstalled round
    → ((select round ≡ some shut_down) × HasSignal round)
      ⊎ ((select round ≡ none) × (¬ HasSignal round))
unfolding select
select-cases round installed =
    select-cases_of round.terminate_first round.ctrl_c round.terminate installed.0 installed.1

shutdown_signal-first :
    (rounds : ℕ → Round) (n : ℕ)
    → ((k : ℕ) → IsInstalled (rounds k))
    → (shutdown_signal n rounds ≡ some shut_down)
    → (k : ℕ) × (k < n) × HasSignal (rounds k)
unfolding shutdown_signal
shutdown_signal-first rounds zero installed h = absurd (ground arith)
shutdown_signal-first rounds (suc n) installed h = elim (select-cases (rounds 0) (installed 0)) [
  | inl (ended, signal) ↦ (0, omega arith, signal)
  | inr (waits, silent) ↦
      let (k, few, signal) =
        shutdown_signal-first (λ k. rounds (suc k)) n (λ k. installed (suc k)) (ground arith) in
      (suc k, omega arith, signal)
]

shutdown_signal-some :
    (rounds : ℕ → Round) (n k : ℕ)
    → ((k : ℕ) → IsInstalled (rounds k))
    → k < n
    → HasSignal (rounds k)
    → shutdown_signal n rounds ≡ some shut_down
unfolding shutdown_signal
shutdown_signal-some rounds zero k installed few signal = absurd (omega arith)
shutdown_signal-some rounds (suc n) zero installed few signal =
    elim (select-cases (rounds 0) (installed 0)) [
      | inl (ended, _) ↦ ground arith
      | inr (waits, silent) ↦ absurd (silent signal)
    ]
shutdown_signal-some rounds (suc n) (suc k) installed few signal =
    elim (select-cases (rounds 0) (installed 0)) [
      | inl (ended, _) ↦ ground arith
      | inr (waits, silent) ↦
          rw (waits, shutdown_signal)
            (shutdown_signal-some (λ j. rounds (suc j)) n k (λ j. installed (suc j)) (omega arith)
              signal)
    ]

-- With both handlers installed the future ends, within `n` rounds, exactly if one of the two signals has
-- come in one of them, whichever branch the rounds poll first.
pub shutdown_signal_iff :
    (rounds : ℕ → Round) (n : ℕ)
    → ((k : ℕ) → IsInstalled (rounds k))
    → (shutdown_signal n rounds ≡ some shut_down) ↔ ((k : ℕ) × (k < n) × HasSignal (rounds k))
shutdown_signal_iff rounds n installed = (
  shutdown_signal-first rounds n installed,
  λ (k, few, signal). shutdown_signal-some rounds n k installed few signal,
)
