-- ===== src/Gateway/Overlap/Progress.antt =====
-- src/data_plane.rs: which of the overlapping calls can move.
use act_web_server_rs.Common.{
  ◌≡◌, ◌⊎◌, inl, inr, refl, ap, Bool, true, false, List, [], ◌∷◌, ◌++◌, All, arith, ◌&&◌, not,
  Bool-cases,
}
use act_web_server_rs.Ports.{Ports}
use act_web_server_rs.Gateway.Transport.{TransportGateway, max_in_flight_operations}
use act_web_server_rs.Gateway.Link.{linked}
use act_web_server_rs.Gateway.Overlap.{Phase, waiting, returned, permits_held, holds_mutex}
use act_web_server_rs.Gateway.Overlap.System.{System, Reach, fresh}
use act_web_server_rs.Gateway.Overlap.Invariant.{total, guards, bit, IsSound, Reach-IsSound}

abbrev pub is_returned : {p : Ports} → Phase p → Bool
is_returned (returned r) = true
is_returned _ = false

abbrev is_waiting : {p : Ports} → Phase p → Bool
is_waiting (waiting r) = true
is_waiting _ = false

module _ {p : Ports} where
  -- a call in a list that passes a test
  pub record Found (test : Phase p → Bool) (calls : List (Phase p)) : Type 0 where
    pub before : List (Phase p)
    pub phase : Phase p
    pub behind : List (Phase p)
    pub split : calls ≡ before ++ phase ∷ behind
    pub passes : test phase ≡ true

  find_call :
      (test : Phase p → Bool) (calls : List (Phase p))
      → Found test calls ⊎ All (λ call. test call ≡ false) calls
  find_call test [] = inr tt
  find_call test (call ∷ calls) = elim (Bool-cases (test call)) [
    | inl e ↦ inl (record { before = []; phase = call; behind = calls; split = refl; passes = e })
    | inr e ↦ elim (find_call test calls) [
      | inl f ↦ inl (record {
        before = call ∷ f.before;
        phase = f.phase;
        behind = f.behind;
        split = ap (λ (l : List (Phase p)). call ∷ l) f.split;
        passes = f.passes;
      })
      | inr none_left ↦ inr (e, none_left)
    ]
  ]

  -- It has not returned, and it does not wait for a locked mutex.
  abbrev pub can_move : Bool → Phase p → Bool
  can_move locked call = not (is_returned call) && not (is_waiting call && locked)

  without_moves_locked :
      (calls : List (Phase p)) → All (λ call. can_move true call ≡ false) calls → guards calls ≡ 0
  without_moves_locked [] h = refl
  without_moves_locked (call ∷ calls) (h, rest) = ground (arith, without_moves_locked calls rest)

  without_moves :
      (calls : List (Phase p))
      → All (λ call. can_move false call ≡ false) calls
      → All (λ call. is_returned call ≡ true) calls
  without_moves [] h = tt
  without_moves (call ∷ calls) (h, rest) = (ground arith, without_moves calls rest)

  nothing_held :
      (calls : List (Phase p))
      → All (λ call. is_returned call ≡ true) calls
      → (total permits_held calls ≡ 0) × (guards calls ≡ 0)
  nothing_held [] h = (refl, refl)
  nothing_held (call ∷ calls) (h, rest) = ground (arith, nothing_held calls rest)

  -- Where a call has not returned, one can move: the call with the mutex, if it is locked.
  movable :
      (a : System p)
      → IsSound a
      → Found (can_move a.shared.locked) a.calls ⊎ All (λ call. is_returned call ≡ true) a.calls
  movable a h = elim (find_call (can_move a.shared.locked) a.calls) [
    | inl f ↦ inl f
    | inr stuck ↦ elim (Bool-cases a.shared.locked) [
      | inl e ↦
          let exclusive = h.exclusive in
          let idle = without_moves_locked a.calls (rw e at stuck) in absurd (ground arith)
      | inr e ↦ inr (without_moves a.calls (rw e at stuck))
    ]
  ]

  -- Each call has returned, the permits are back, and the mutex is free.
  pub record IsFinished (b : System p) : Type 0 where
    pub all_returned : All (λ call. is_returned call ≡ true) b.calls
    pub permits_back : b.shared.server.permits ≡ max_in_flight_operations
    pub mutex_free : b.shared.locked ≡ false

  all_returned-IsFinished :
      (a : System p) → IsSound a → All (λ call. is_returned call ≡ true) a.calls → IsFinished a
  all_returned-IsFinished a h all_returned =
      let held = nothing_held a.calls all_returned in
      let permitted = h.permitted in
      let exclusive = h.exclusive in
      record { all_returned = all_returned; permits_back = omega arith; mutex_free = ground arith }

module _ (p : Ports) (g : TransportGateway (linked p)) where
  -- However calls of `read` overlap, fail and are dropped, the mutex is locked exactly while one call holds
  -- it, and never two do; and some call has not returned and does not wait for a locked mutex, unless all
  -- of them have returned, all 64 permits are back and the mutex is free.
  pub Reach-movable :
      (w : p.World) (b : System p)
      → Reach p g (fresh p w) b
      → (total (λ call. bit (holds_mutex call)) b.calls ≡ bit b.shared.locked)
        × (Found (can_move b.shared.locked) b.calls ⊎ IsFinished b)
  Reach-movable w b reached =
      let h = Reach-IsSound p g w reached in
      (
        h.exclusive,
        elim (movable b h) [
          | inl f ↦ inl f
          | inr all_returned ↦ inr (all_returned-IsFinished b h all_returned)
        ],
      )
