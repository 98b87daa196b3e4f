-- ===== src/Gateway/Overlap/Safety.antt =====
-- src/data_plane.rs: the permits, the mutex and the replies of overlapping calls.
use act_web_server_rs.Common.{
  ◌≤◌, ◌≡◌, ◌↔◌, ap, true, false, none, err, List, [], ◌∷◌, ◌++◌, All, All-around, arith,
}
use act_web_server_rs.Ports.{Ports}
use act_web_server_rs.Gateway.{backpressure}
use act_web_server_rs.Gateway.Transport.{TransportGateway, max_in_flight_operations, try_acquire}
use act_web_server_rs.Gateway.Link.{Link, linked}
use act_web_server_rs.Gateway.Overlap.{
  Phase, Request, receiving, permits_held, holds_mutex, expected_id,
}
use act_web_server_rs.Gateway.Overlap.System.{System, Reach, fresh}
use act_web_server_rs.Gateway.Overlap.Invariant.{
  bit, unread_of, total, guards, total-around, IsOwned, IsSound, Reach-IsSound,
}

module _ (p : Ports) where
  without_guards :
      (calls : List (Phase p)) → guards calls ≡ 0 → All (λ call. holds_mutex call ≡ false) calls
  without_guards [] h = tt
  without_guards (call ∷ calls) h = (ground arith, without_guards calls (omega arith))

  -- In a sound system a call that waits for its reply has the only connection in use, from which no
  -- frame is still to be read but the one for its own operation.
  IsSound-receiving :
      (b : System p) (before behind : List (Phase p)) (r : Request p) (c : Link p)
      → IsSound b
      → b.calls ≡ before ++ receiving r c ∷ behind
      → (c.unread ≡ expected_id r ∷ [])
        × (b.shared.server.connection ≡ none)
        × (b.shared.locked ≡ true)
        × All (λ call. holds_mutex call ≡ false) (before ++ behind)
  IsSound-receiving b before behind r c h e =
      let owned = All-around IsOwned before (receiving r c) behind (rw e at h.owned) in
      let mutexes = total-around (λ call. bit (holds_mutex call)) before (receiving r c) behind in
      let same = ap guards e in
      let exclusive = h.exclusive in
      let locked : b.shared.locked ≡ true = ground arith in
      let emptied = h.settled.emptied in
      (owned.0, ground arith, locked, without_guards (before ++ behind) (ground arith))

module _ (p : Ports) (g : TransportGateway (linked p)) where
  -- However calls of `read` overlap, are dropped or fail: when a call waits for its reply, a frame has
  -- been read from its connection for each operation sent on it but the call's own, no other call is
  -- connecting, sending or receiving, and the slot is empty and locked.
  pub Reach-receiving :
      (w : p.World) (b : System p) (before behind : List (Phase p)) (r : Request p) (c : Link p)
      → Reach p g (fresh p w) b
      → b.calls ≡ before ++ receiving r c ∷ behind
      → (c.unread ≡ expected_id r ∷ [])
        × (b.shared.server.connection ≡ none)
        × (b.shared.locked ≡ true)
        × All (λ call. holds_mutex call ≡ false) (before ++ behind)
  Reach-receiving w b before behind r c reached =
      IsSound-receiving p b before behind r c (Reach-IsSound p g w reached)

  -- However calls of `read` overlap and are dropped, at most 64 hold a permit at a time, a call is refused
  -- with `Backpressure` exactly while 64 do, and for each operation sent on the connection
  -- that is kept a frame has been read from it.
  pub Reach-permits :
      (w : p.World) (b : System p)
      → Reach p g (fresh p w) b
      → (total permits_held b.calls ≤ max_in_flight_operations)
        × (((try_acquire (linked p) b.shared.server).0 ≡ err backpressure)
            ↔ (total permits_held b.calls ≡ max_in_flight_operations))
        × (unread_of b.shared.server.connection ≡ [])
  unfolding try_acquire
  Reach-permits w b reached =
      let h = Reach-IsSound p g w reached in
      let permitted = h.permitted in (omega arith, ground arith, h.settled.read_out)
