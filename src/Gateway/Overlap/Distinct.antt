-- ===== src/Gateway/Overlap/Distinct.antt =====
-- src/data_plane.rs: overlapping calls are told apart by the ids of their operations.
use act_web_server_rs.Common.{
  ℕ, suc, ◌+◌, ◌≤◌, ◌<◌, ◌≡◌, ◌∙◌, sym, ap, inl, inr, refl, String, List, ◌∷◌, ◌++◌, All,
  All-around, All-insert, arith,
}
use act_web_server_rs.Operation.{WebApiMode}
use act_web_server_rs.Ports.{Ports}
use act_web_server_rs.Gateway.Envelope.{u64}
use act_web_server_rs.Gateway.Transport.{TransportGateway}
use act_web_server_rs.Gateway.Link.{linked}
use act_web_server_rs.Gateway.Overlap.{Phase, Shared, called, advance, dropped}
use act_web_server_rs.Gateway.Overlap.System.{
  System, arrive, move, drop, outside, Reach, here, later, fresh,
}
use act_web_server_rs.Gateway.Overlap.Invariant.{total, total-around}
use act_web_server_rs.Gateway.Overlap.Ids.{draws, Change, kept, wasted, made, advance-Change}
use act_web_server_rs.Gateway.Overlap.Apart.{
  Differs, Apart, IsIssued, All-Differs-none, All-Differs_congr, All-Differs_fresh,
  All-IsIssued_mono, Apart-around, Apart-insert,
}

module _ {p : Ports} where
  -- After `n` calls have come, as long as the numbers do not wrap, the ids are made of the numbers drawn
  -- so far and differ.
  pub record IsNumbered (n : ℕ) (b : System p) : Type 0 where
    pub drawn : b.shared.server.sequence + total draws b.calls ≤ 1 + n
    pub issued : All (IsIssued b.shared.server.sequence) b.calls
    pub apart : Apart b.calls

  -- the middle call replaced by one that is issued and differs from the others
  replaced-IsNumbered :
      (n : ℕ) (before : List (Phase p)) (phase : Phase p) (behind : List (Phase p)) (a : System p)
      (t : Phase p × Shared p)
      → a.calls ≡ before ++ phase ∷ behind
      → IsNumbered n a
      → a.shared.server.sequence ≤ t.1.server.sequence
      → t.1.server.sequence + draws t.0 ≤ a.shared.server.sequence + draws phase
      → IsIssued t.1.server.sequence t.0
      → All (Differs t.0) (before ++ behind)
      → IsNumbered n (record { shared = t.1; calls = before ++ t.0 ∷ behind })
  replaced-IsNumbered n before phase behind a t e h grown spent issued differs =
      let drawn = h.drawn in
      let same = ap (total draws) e in
      let old = total-around draws before phase behind in
      let new = total-around draws before t.0 behind in
      let (_, others) =
        All-around (IsIssued a.shared.server.sequence) before phase behind (rw e at h.issued) in
      let (_, apart) = Apart-around before phase behind (rw e at h.apart) in
      record {
        drawn = omega arith;
        issued = All-insert (IsIssued t.1.server.sequence) before t.0 behind issued (
            All-IsIssued_mono a.shared.server.sequence t.1.server.sequence (before ++ behind) grown
              others);
        apart = Apart-insert before t.0 behind differs apart;
      }

  changed-IsNumbered :
      (n : ℕ) (before : List (Phase p)) (phase : Phase p) (behind : List (Phase p)) (a : System p)
      (t : Phase p × Shared p)
      → a.calls ≡ before ++ phase ∷ behind
      → 1 + n < u64
      → IsNumbered n a
      → Change p a.shared phase t
      → IsNumbered n (record { shared = t.1; calls = before ++ t.0 ∷ behind })
  changed-IsNumbered n before phase behind a t e bound h (kept same few (inl id)) =
      let (mine, _) =
        All-around (IsIssued a.shared.server.sequence) before phase behind (rw e at h.issued) in
      let (differs, _) = Apart-around before phase behind (rw e at h.apart) in
      replaced-IsNumbered n before phase behind a t e h (omega arith) (omega arith)
        (λ name e'.
          let (now, q, below, made_of) = mine name (sym id ∙ e') in (now, q, omega arith, made_of))
        (All-Differs_congr phase t.0 (before ++ behind) id differs)
  changed-IsNumbered n before phase behind a t e bound h (kept same few (inr gone)) =
      replaced-IsNumbered n before phase behind a t e h (omega arith) (omega arith)
        (λ name e'. absurd (ground arith)) (All-Differs-none t.0 (before ++ behind) gone)
  changed-IsNumbered n before phase behind a t e bound h (wasted advances spent gone) =
      let drawn = h.drawn in
      let same = ap (total draws) e in
      let old = total-around draws before phase behind in
      replaced-IsNumbered n before phase behind a t e h (ground arith) (ground arith)
        (λ name e'. absurd (ground arith)) (All-Differs-none t.0 (before ++ behind) gone)
  changed-IsNumbered n before phase behind a t e bound h (made now moves spent id) =
      let drawn = h.drawn in
      let same = ap (total draws) e in
      let old = total-around draws before phase behind in
      let (_, others) =
        All-around (IsIssued a.shared.server.sequence) before phase behind (rw e at h.issued) in
      let next : t.1.server.sequence ≡ a.shared.server.sequence + 1 = omega arith in
      replaced-IsNumbered n before phase behind a t e h (omega arith) (omega arith)
        (λ name e'. (now, a.shared.server.sequence, omega arith, ground arith))
        (All-Differs_fresh t.0 now a.shared.server.sequence (before ++ behind) id others)

module _ (p : Ports) (g : TransportGateway (linked p)) where
  -- the calls that have come
  unfoldable pub arrivals : {a b : System p} → Reach p g a b → ℕ
  arrivals here = 0
  arrivals (later r (arrive mode subject authorization e)) = suc (arrivals r)
  arrivals (later r (move before phase behind e e')) = arrivals r
  arrivals (later r (drop before phase behind e e')) = arrivals r
  arrivals (later r (outside w e)) = arrivals r

  dropped-IsNumbered :
      (n : ℕ) (before : List (Phase p)) (phase : Phase p) (behind : List (Phase p)) (a : System p)
      → a.calls ≡ before ++ phase ∷ behind
      → IsNumbered n a
      → IsNumbered n (record { shared = dropped p phase a.shared; calls = before ++ behind })
  unfolding dropped
  dropped-IsNumbered n before phase behind a e h =
      let drawn = h.drawn in
      let same = ap (total draws) e in
      let old = total-around draws before phase behind in
      let (_, others) =
        All-around (IsIssued a.shared.server.sequence) before phase behind (rw e at h.issued) in
      let (_, apart) = Apart-around before phase behind (rw e at h.apart) in
      record { drawn = omega arith; issued = others; apart = apart }

  arrived-IsNumbered :
      (n : ℕ) (mode : WebApiMode) (subject authorization : String) (a : System p)
      → IsNumbered n a
      → IsNumbered (suc n) (record a { calls = called mode subject authorization ∷ a.calls })
  arrived-IsNumbered n mode subject authorization a h =
      let drawn = h.drawn in
      record {
        drawn = omega arith;
        issued = ((λ id e. absurd (ground arith)), h.issued);
        apart = (All-Differs-none (called mode subject authorization) a.calls refl, h.apart);
      }

  Reach-IsNumbered :
      {w : p.World} {b : System p} (r : Reach p g (fresh p w) b)
      → 1 + arrivals r < u64
      → IsNumbered (arrivals r) b
  unfolding arrivals
  Reach-IsNumbered here bound = record { drawn = omega arith; issued = tt; apart = tt }
  Reach-IsNumbered (later {b = a} r (arrive mode subject authorization e)) bound = rw e (
      arrived-IsNumbered (arrivals r) mode subject authorization a
        (Reach-IsNumbered r (omega arith)))
  Reach-IsNumbered (later {b = a} r (move before phase behind e e')) bound = rw e' (
      changed-IsNumbered (arrivals r) before phase behind a (advance p g phase a.shared) e bound
        (Reach-IsNumbered r bound) (advance-Change p g phase a.shared))
  Reach-IsNumbered (later {b = a} r (drop before phase behind e e')) bound =
      rw e' (dropped-IsNumbered (arrivals r) before phase behind a e (Reach-IsNumbered r bound))
  Reach-IsNumbered (later {b = a} r (outside w e)) bound =
      let h = Reach-IsNumbered r bound in
      rw e (record { drawn = h.drawn; issued = h.issued; apart = h.apart })

  -- However calls of `read` overlap and are dropped, no two of them have made operations of one id,
  -- whether they wait for the API server's reply to it or have been told that it is accepted, as long as
  -- fewer than 2^64 - 1 calls have come.
  pub Reach-Apart :
      (w : p.World) (b : System p) (r : Reach p g (fresh p w) b)
      → 1 + arrivals r < u64
      → Apart b.calls
  Reach-Apart w b r bound = let h = Reach-IsNumbered r bound in h.apart
