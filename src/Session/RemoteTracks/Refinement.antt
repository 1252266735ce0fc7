-- ===== src/Session/RemoteTracks/Refinement.antt =====
-- What a track of remote_track_map.go can be found under.
use moqtransport_fec.Base.{
  ℕ, ◌≡◌, arith, Option, none, some, ◌⊎◌, inl, inr, ◌==◌, if◌then◌else◌, Option-cases,
}
use moqtransport_fec.Base.Assoc.{lookup, lookup-insert, lookup-delete}
use moqtransport_fec.Session.RemoteTracks.{
  RemoteTrack, RemoteTrackMap, find_by_request_id, find_by_track_alias, add_pending,
  add_pending_with_alias, set_alias, confirm, reject,
}

-- The calls that change the map.
pub data Call : Type 0 where
  adds : ℕ → RemoteTrack → Call
  adds_with_alias : ℕ → RemoteTrack → Call
  sets_alias : ℕ → ℕ → Call
  confirms rejects : ℕ → Call

abbrev pub apply : RemoteTrackMap → Call → RemoteTrackMap
apply m (adds id rt) = (add_pending m id rt).0
apply m (adds_with_alias id rt) = (add_pending_with_alias m id rt).0
apply m (sets_alias id alias) = (set_alias m id alias).0
apply m (confirms id) = (confirm m id).0
apply m (rejects id) = (reject m id).0

-- A track that is found is found still, unless the call rejects its ID.
abbrev pub keeps : Option RemoteTrack → Option RemoteTrack → Option RemoteTrack
keeps (some rt) o = some rt
keeps none o = o

-- What is found under `j` after a call, for what was found there, and what was open.
abbrev pub found : Call → ℕ → Option RemoteTrack → Option RemoteTrack → Option RemoteTrack
found (adds id rt) j known live = if id == j then keeps known (some rt) else known
found (adds_with_alias id rt) j known live = if id == j then keeps known (some rt) else known
found (sets_alias id alias) j known live = known
found (confirms id) j known live = known
found (rejects id) j known live = if id == j then live else known

-- No request ID is both pending and open.
unfoldable pub IsDisjoint : RemoteTrackMap → Type 0
IsDisjoint m = (id : ℕ) → (lookup id m.pending ≡ none) ⊎ (lookup id m.opened ≡ none)

alias_kept :
    (m : RemoteTrackMap) (c : Call) (alias id : ℕ)
    → lookup alias m.track_alias_to_request_id ≡ some id
    → lookup alias (apply m c).track_alias_to_request_id ≡ some id
unfolding add_pending add_pending_with_alias set_alias confirm reject
alias_kept m (adds j rt) alias id h = ground arith
alias_kept m (adds_with_alias j rt) alias id h = ground arith
alias_kept m (sets_alias j other) alias id h =
    ground (arith, lookup-insert other alias j m.track_alias_to_request_id)
alias_kept m (confirms j) alias id h = ground arith
alias_kept m (rejects j) alias id h = ground arith

module _ (m : RemoteTrackMap) (valid : IsDisjoint m) where
  -- In a map in which no request ID is both pending and open: a track that is added under an ID is
  -- found there unless one was known already; under a rejected ID only an open track is still found;
  -- and no other call, and no call about another ID, changes what is found.
  pub find_by_request_id-apply :
      (c : Call) (j : ℕ)
      → find_by_request_id (apply m c) j ≡ found c j (find_by_request_id m j) (lookup j m.opened)
  unfolding find_by_request_id add_pending add_pending_with_alias set_alias confirm reject
      IsDisjoint
  find_by_request_id-apply (adds id rt) j = ground (arith, lookup-insert id j rt m.pending)
  find_by_request_id-apply (adds_with_alias id rt) j =
      ground (arith, lookup-insert id j rt m.pending)
  find_by_request_id-apply (sets_alias id alias) j = ground arith
  find_by_request_id-apply (confirms id) j = elim (Option-cases (lookup id m.pending)) [
    | inl e ↦ ground arith
    | inr (lt, e) ↦
        ground (arith, valid id, lookup-delete id j m.pending, lookup-insert id j lt m.opened)
  ]
  find_by_request_id-apply (rejects id) j = ground (arith, lookup-delete id j m.pending, valid id)

  -- If no request ID is both pending and open, none is after a call.
  pub remote-IsDisjoint : (c : Call) → IsDisjoint (apply m c)
  unfolding IsDisjoint add_pending add_pending_with_alias set_alias confirm reject
  remote-IsDisjoint (adds id rt) j = ground (arith, valid j, lookup-insert id j rt m.pending)
  remote-IsDisjoint (adds_with_alias id rt) j =
      ground (arith, valid j, lookup-insert id j rt m.pending)
  remote-IsDisjoint (sets_alias id alias) j = ground (arith, valid j)
  remote-IsDisjoint (confirms id) j = elim (Option-cases (lookup id m.pending)) [
    | inl e ↦ ground (arith, valid j)
    | inr (lt, e) ↦
        ground (arith, valid j, lookup-delete id j m.pending, lookup-insert id j lt m.opened)
  ]
  remote-IsDisjoint (rejects id) j = ground (arith, valid j, lookup-delete id j m.pending)

  -- In a map in which no request ID is both pending and open, a track alias that is set keeps its
  -- request ID through every call, also through `setAlias` for the same alias: what is found by the
  -- alias after the call is what is found by that ID.
  pub find_by_track_alias-apply :
      (c : Call) (alias id : ℕ)
      → lookup alias m.track_alias_to_request_id ≡ some id
      → find_by_track_alias (apply m c) alias
        ≡ found c id (find_by_request_id m id) (lookup id m.opened)
  unfolding find_by_track_alias
  find_by_track_alias-apply c alias id known =
      rw (find_by_track_alias, alias_kept m c alias id known) (find_by_request_id-apply c id)
