-- ===== src/Db/Complete.antt =====
-- src/db.rs: when a read of the database succeeds.
use act_web_server_rs.Common.{◌↔◌, length, ◌≡◌, String, true, false, List, [], ◌∷◌, ok, arith, refl}
use act_web_server_rs.Common.Text.{has_suffix}
use act_web_server_rs.Ports.{Ports}
use act_web_server_rs.Db.{
  DirectReadStore, EventProjection, projection_of, projections_of, events_for_subject,
  is_invalid_subject,
}
use act_web_server_rs.Db.Laws.{events_for_subject_sound, AreProjections, IsRead, IsProjection}

module _ (p : Ports) where
  projection_of_complete :
      (row : p.Row) (e : EventProjection) → IsProjection p row e → projection_of p row ≡ ok e
  unfolding projection_of
  projection_of_complete row e h = ground arith

  projections_of_complete :
      (rows : List p.Row) (es : List EventProjection)
      → AreProjections p rows es
      → projections_of p rows ≡ ok es
  unfolding projections_of
  projections_of_complete [] [] h = refl
  projections_of_complete [] (e ∷ es) h = elim h [ ]
  projections_of_complete (row ∷ rows) [] h = elim h [ ]
  projections_of_complete (row ∷ rows) (e ∷ es) (one, rest) =
      ground (arith, projection_of_complete row e one, projections_of_complete rows es rest)

  AreProjections-length :
      (rows : List p.Row) (es : List EventProjection)
      → AreProjections p rows es
      → length rows ≡ length es
  AreProjections-length [] [] h = refl
  AreProjections-length [] (e ∷ es) h = elim h [ ]
  AreProjections-length (row ∷ rows) [] h = elim h [ ]
  AreProjections-length (row ∷ rows) (e ∷ es) (one, rest) =
      omega (arith, AreProjections-length rows es rest)

  -- A read with a valid subject from a store with a reviewed role returns the events `es` if the
  -- database answers with rows that they project, at most 100, in a read-only transaction which it
  -- commits.
  pub events_for_subject_complete :
      (store : DirectReadStore p) (subject : String) (w : p.World) (es : List EventProjection)
      → is_invalid_subject subject ≡ false
      → has_suffix "_web_ro" store.expected_role ≡ true
      → IsRead p store subject w es
      → (events_for_subject p store subject w).0 ≡ ok es
  unfolding events_for_subject
  events_for_subject_complete store subject w es valid reviewed h =
      let made = projections_of_complete h.rows es h.projected in
      let same = AreProjections-length h.rows es h.projected in
      ground (arith, made, same, h.begun, h.asked, h.committed, h.bounded)

  -- A read returns the events `es` exactly if the subject is valid, the store's role ends in `_web_ro`,
  -- and, in a read-only transaction which it commits, the one fixed statement for this subject has given
  -- at most 100 rows of which `es` are the projections, one for each row and in their order.
  pub events_for_subject_iff :
      (store : DirectReadStore p) (subject : String) (w : p.World) (es : List EventProjection)
      → ((events_for_subject p store subject w).0 ≡ ok es) ↔ (
          (is_invalid_subject subject ≡ false)
          × (has_suffix "_web_ro" store.expected_role ≡ true)
          × IsRead p store subject w es)
  events_for_subject_iff store subject w es = (
    events_for_subject_sound p store subject w es,
    λ (valid, reviewed, h). events_for_subject_complete store subject w es valid reviewed h,
  )
