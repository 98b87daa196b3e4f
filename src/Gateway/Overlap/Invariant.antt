-- ===== src/Gateway/Overlap/Invariant.antt =====
-- src/data_plane.rs: what holds between any two steps of overlapping calls.
use act_web_server_rs.Common.{
  ℕ, ◌+◌, ◌≤◌, ◌≡◌, refl, String, Bool, true, false, Option, none, some, List, [], ◌∷◌, ◌++◌, All,
  All-around, All-insert, arith, ap, ◌&&◌, is_some,
}
use act_web_server_rs.Operation.{
  WebApiMode, direct_read_only_database, stateless_http, stateful_mtls_tcp, jet_stream_async,
}
use act_web_server_rs.Ports.{Ports}
use act_web_server_rs.Gateway.Http.{bounded_http_get}
use act_web_server_rs.Gateway.Envelope.{bearer_operation, attested_operation}
use act_web_server_rs.Gateway.State.{Server}
use act_web_server_rs.Gateway.Transport.{
  TransportGateway, jetstream_submit, max_in_flight_operations,
}
use act_web_server_rs.Gateway.Link.{Link, linked}
use act_web_server_rs.Gateway.Overlap.{
  Shared, Phase, called, admitted, waiting, dialing, shaking, sending, receiving, holding, returned,
  permits_held, holds_mutex, expected_id, advance, dropped,
}
use act_web_server_rs.Gateway.Overlap.System.{
  System, Step, arrive, move, drop, outside, in_world, Reach, here, later, fresh, moved,
}

abbrev pub bit : Bool → ℕ
bit true = 1
bit false = 0

-- the operations sent on the connection of a slot for which no frame has been read
abbrev pub unread_of : {p : Ports} → Option (Link p) → List String
unread_of none = []
unread_of (some c) = c.unread

-- On a connection that a call has taken a frame has been read for each operation but the call's own.
abbrev pub IsOwned : {p : Ports} → Phase p → Type 0
IsOwned (sending r c) = c.unread ≡ []
IsOwned (receiving r c) = c.unread ≡ expected_id r ∷ []
IsOwned _ = Unit {0}

module _ {p : Ports} where
  -- over all calls
  abbrev pub total : (Phase p → ℕ) → List (Phase p) → ℕ
  total f [] = 0
  total f (phase ∷ calls) = f phase + total f calls

  abbrev pub guards : List (Phase p) → ℕ
  guards = total (λ phase. bit (holds_mutex phase))

  -- the shared part: while the mutex is held the slot is empty, and for each operation
  -- sent on a kept connection a frame has been read
  pub record IsSettled (s : Shared p) : Type 0 where
    pub emptied : (s.locked && is_some s.server.connection) ≡ false
    pub read_out : unread_of s.server.connection ≡ []

  pub record IsSound (a : System p) : Type 0 where
    pub permitted : a.shared.server.permits + total permits_held a.calls ≡ max_in_flight_operations
    pub exclusive : guards a.calls ≡ bit a.shared.locked
    pub settled : IsSettled a.shared
    pub owned : All IsOwned a.calls

  -- what a step of one call owes to the others
  pub record IsFair (s : Shared p) (phase : Phase p) (t : Phase p × Shared p) : Type 0 where
    pub permits : t.1.server.permits + permits_held t.0 ≡ s.server.permits + permits_held phase
    pub guards : bit t.1.locked + bit (holds_mutex phase) ≡ bit s.locked + bit (holds_mutex t.0)
    pub settled : IsSettled t.1
    pub owned : IsOwned t.0

  pub total-around :
      (f : Phase p → ℕ) (before : List (Phase p)) (phase : Phase p) (behind : List (Phase p))
      → total f (before ++ phase ∷ behind) ≡ f phase + total f (before ++ behind)
  total-around f [] phase behind = refl
  total-around f (other ∷ before) phase behind = omega (arith, total-around f before phase behind)

module _ (p : Ports) where
  attested_operation_keeps :
      (subject key : String) (s : Server p)
      → ((attested_operation p subject key s).1.permits ≡ s.permits)
        × ((attested_operation p subject key s).1.connection ≡ s.connection)
  unfolding attested_operation
  attested_operation_keeps subject key s = ground arith

  jetstream_submit_keeps :
      (g : TransportGateway p) (subject : String) (s : Server p)
      → ((jetstream_submit p g subject s).1.permits ≡ s.permits)
        × ((jetstream_submit p g subject s).1.connection ≡ s.connection)
  unfolding jetstream_submit
  jetstream_submit_keeps g subject s = grind (arith, attested_operation_keeps)

module _ (p : Ports) (g : TransportGateway (linked p)) where
  begin_mode-IsFair :
      (mode : WebApiMode) (subject authorization : String) (s : Shared p)
      → IsSettled s
      → IsFair s
          (admitted mode subject authorization)
          (advance p g (admitted mode subject authorization) s)
  unfolding advance bounded_http_get bearer_operation
  begin_mode-IsFair direct_read_only_database subject authorization s h = ground arith
  begin_mode-IsFair stateless_http subject authorization s h = ground arith
  begin_mode-IsFair stateful_mtls_tcp subject authorization s h = ground arith
  begin_mode-IsFair jet_stream_async subject authorization s h =
      ground (arith, jetstream_submit_keeps (linked p) g subject s.server)

  advance-IsFair :
      (phase : Phase p) (s : Shared p)
      → IsSettled s
      → IsOwned phase
      → bit (holds_mutex phase) ≤ bit s.locked
      → IsFair s phase (advance p g phase s)
  unfolding advance
  advance-IsFair (called mode subject authorization) s h o l = ground arith
  advance-IsFair (admitted mode subject authorization) s h o l =
      begin_mode-IsFair mode subject authorization s h
  advance-IsFair (waiting r) s h o l = ground arith
  advance-IsFair (dialing r) s h o l = ground arith
  advance-IsFair (shaking r name tcp) s h o l = ground arith
  advance-IsFair (sending r c) s h o l = ground arith
  advance-IsFair (receiving r c) s h o l = ground arith
  advance-IsFair (holding r) s h o l = ground arith
  advance-IsFair (returned r) s h o l = ground arith

  pub moved-IsSound :
      (before : List (Phase p)) (phase : Phase p) (behind : List (Phase p)) (a : System p)
      → a.calls ≡ before ++ phase ∷ behind
      → IsSound a
      → IsSound (moved p g before phase behind a)
  moved-IsSound before phase behind a e h =
      let owned = All-around IsOwned before phase behind (rw e at h.owned) in
      let permits = total-around permits_held before phase behind in
      let mutexes = total-around (λ c. bit (holds_mutex c)) before phase behind in
      let permits' = total-around permits_held before (advance p g phase a.shared).0 behind in
      let mutexes' =
        total-around (λ c. bit (holds_mutex c)) before (advance p g phase a.shared).0 behind in
      let same = ap (total permits_held) e in
      let same' = ap guards e in
      let permitted = h.permitted in
      let exclusive = h.exclusive in
      let fair = advance-IsFair phase a.shared h.settled owned.0 (omega arith) in
      record {
        permitted = omega (arith, fair.permits);
        exclusive = omega (arith, fair.guards);
        settled = fair.settled;
        owned = All-insert IsOwned before (advance p g phase a.shared).0 behind fair.owned owned.1;
      }

  dropped-IsSettled :
      (phase : Phase p) (s : Shared p)
      → IsSettled s
      → bit (holds_mutex phase) ≤ bit s.locked
      → IsSettled (dropped p phase s)
        × ((dropped p phase s).server.permits ≡ s.server.permits + permits_held phase)
        × (bit (dropped p phase s).locked + bit (holds_mutex phase) ≡ bit s.locked)
  unfolding dropped
  dropped-IsSettled phase s h l = ground arith

  dropped-IsSound :
      (before : List (Phase p)) (phase : Phase p) (behind : List (Phase p)) (a : System p)
      → a.calls ≡ before ++ phase ∷ behind
      → IsSound a
      → IsSound (record { shared = dropped p phase a.shared; calls = before ++ behind })
  dropped-IsSound before phase behind a e h =
      let owned = All-around IsOwned before phase behind (rw e at h.owned) in
      let permits = total-around permits_held before phase behind in
      let mutexes = total-around (λ c. bit (holds_mutex c)) before phase behind in
      let same = ap (total permits_held) e in
      let same' = ap guards e in
      let permitted = h.permitted in
      let exclusive = h.exclusive in
      let (settled, given, unlocked) = dropped-IsSettled phase a.shared h.settled (omega arith) in
      record {
        permitted = omega arith;
        exclusive = omega arith;
        settled = settled;
        owned = owned.1;
      }

  pub in_world-IsSound : (w : p.World) (a : System p) → IsSound a → IsSound (in_world p w a)
  in_world-IsSound w a h = ground (arith, h.permitted, h.exclusive)

  Step-IsSound : {a b : System p} → Step p g a b → IsSound a → IsSound b
  Step-IsSound {a} {b} (arrive mode subject authorization e) h =
      rw e (ground (arith, h.permitted, h.exclusive))
  Step-IsSound {a} {b} (move before phase behind e e') h =
      rw e' (moved-IsSound before phase behind a e h)
  Step-IsSound {a} {b} (drop before phase behind e e') h =
      rw e' (dropped-IsSound before phase behind a e h)
  Step-IsSound {a} {b} (outside w e) h = rw e (in_world-IsSound w a h)

  fresh-IsSound : (w : p.World) → IsSound (fresh p w)
  fresh-IsSound w = ground arith

  Reach-IsSound_from : {a b : System p} → IsSound a → Reach p g a b → IsSound b
  Reach-IsSound_from h here = h
  Reach-IsSound_from h (later r step) = Step-IsSound step (Reach-IsSound_from h r)

  -- Every system that calls of `read` bring about is sound.
  pub Reach-IsSound : (w : p.World) {b : System p} → Reach p g (fresh p w) b → IsSound b
  Reach-IsSound w r = Reach-IsSound_from (fresh-IsSound w) r
