-- ===== src/Session/LocalTracks/Refinement.antt =====
-- local_track_map.go as a state machine for each request ID.
use moqtransport_fec.Base.{
  ℕ, ◌≡◌, arith, Option, none, some, ◌⊎◌, inl, inr, ◌==◌, if◌then◌else◌, Option-cases,
}
use moqtransport_fec.Base.Assoc.{lookup, lookup-insert, lookup-delete}
use moqtransport_fec.Session.LocalTracks.{
  LocalTrack, LocalTrackMap, add_pending, delete_track, confirm, reject,
}

-- What is known under a request ID.
pub data Status : Type 0 where
  absent : Status
  waiting : LocalTrack → Status
  accepted : LocalTrack → Status

abbrev status_of : Option LocalTrack → Option LocalTrack → Status
status_of (some lt) o = waiting lt
status_of none (some lt) = accepted lt
status_of none none = absent

unfoldable pub status : LocalTrackMap → ℕ → Status
status m id = status_of (lookup id m.pending) (lookup id m.opened)

-- No request ID is in both maps.
unfoldable pub IsDisjoint : LocalTrackMap → Type 0
IsDisjoint m = (id : ℕ) → (lookup id m.pending ≡ none) ⊎ (lookup id m.opened ≡ none)

-- The calls of the map, with the ID that each is about.
pub data Call : Type 0 where
  adds : LocalTrack → Call
  confirms rejects deletes : ℕ → Call

abbrev pub about : Call → ℕ
about (adds lt) = lt.request_id
about (confirms id) = id
about (rejects id) = id
about (deletes id) = id

abbrev pub apply : LocalTrackMap → Call → LocalTrackMap
apply m (adds lt) = (add_pending m lt).0
apply m (confirms id) = (confirm m id).0
apply m (rejects id) = (reject m id).0
apply m (deletes id) = (delete_track m id).0

-- What a call makes of the status under its ID.
abbrev pub advance : Call → Status → Status
advance (adds lt) absent = waiting lt
advance (confirms id) (waiting lt) = accepted lt
advance (rejects id) (waiting lt) = absent
advance (deletes id) s = absent
advance c s = s

module _ (m : LocalTrackMap) (valid : IsDisjoint m) where
  add_pending-status :
      (lt : LocalTrack) (j : ℕ)
      → status (add_pending m lt).0 j
        ≡ (if lt.request_id == j then advance (adds lt) (status m lt.request_id) else status m j)
  unfolding status add_pending
  add_pending-status lt j = ground (arith, lookup-insert lt.request_id j lt m.pending)

  confirm-status :
      (id j : ℕ)
      → status (confirm m id).0 j
        ≡ (if id == j then advance (confirms id) (status m id) else status m j)
  unfolding status confirm
  confirm-status id j = elim (Option-cases (lookup id m.pending)) [
    | inl e ↦ ground arith
    | inr (lt, e) ↦ ground (arith, lookup-delete id j m.pending, lookup-insert id j lt m.opened)
  ]

  reject-status :
      (id j : ℕ)
      → status (reject m id).0 j
        ≡ (if id == j then advance (rejects id) (status m id) else status m j)
  unfolding status reject IsDisjoint
  reject-status id j = ground (arith, lookup-delete id j m.pending, valid id)

  delete-status :
      (id j : ℕ)
      → status (delete_track m id).0 j
        ≡ (if id == j then advance (deletes id) (status m id) else status m j)
  unfolding status delete_track
  delete-status id j = ground (arith, lookup-delete id j m.pending, lookup-delete id j m.opened)

  -- In a map in which no request ID is both pending and open, every call moves the status of the
  -- ID it is about as the state machine says, and leaves the status of every other ID alone.
  pub apply-status :
      (c : Call) (j : ℕ)
      → status (apply m c) j ≡ (if about c == j then advance c (status m (about c)) else status m j)
  apply-status (adds lt) j = add_pending-status lt j
  apply-status (confirms id) j = confirm-status id j
  apply-status (rejects id) j = reject-status id j
  apply-status (deletes id) j = delete-status id j

  -- If no request ID is both pending and open, none is after a call.
  pub apply-IsDisjoint : (c : Call) → IsDisjoint (apply m c)
  unfolding IsDisjoint add_pending confirm reject delete_track
  apply-IsDisjoint (adds lt) j = ground (arith, valid j, lookup-insert lt.request_id j lt m.pending)
  apply-IsDisjoint (confirms id) j = elim (Option-cases (lookup id m.pending)) [
    | inl e ↦ ground (arith, valid j)
    | inr (lt, e) ↦
        ground (arith, valid j, lookup-delete id j m.pending, lookup-insert id j lt m.opened)
  ]
  apply-IsDisjoint (rejects id) j = ground (arith, valid j, lookup-delete id j m.pending)
  apply-IsDisjoint (deletes id) j =
      ground (arith, valid j, lookup-delete id j m.pending, lookup-delete id j m.opened)
