-- ===== src/Session/LocalTracks.antt =====
-- local_track_map.go, and the fields of local_track.go that the map and the session read. The lock
-- makes each call atomic. A pointer in the map is the track itself.
pub mod Refinement
use moqtransport_fec.Base.{ℕ, Bool, true, false, List, [], Option, none, some}
use moqtransport_fec.Base.Assoc.{lookup, insert, delete}

-- The fields that never change. `is_fetch` says that the track has no callback `subscribeDone`.
pub record LocalTrack : Type 0 where
  pub request_id : ℕ
  pub track_alias : ℕ
  pub is_fetch : Bool

pub record LocalTrackMap : Type 0 where
  pub pending : List (ℕ × LocalTrack)
  pub opened : List (ℕ × LocalTrack)

unfoldable pub new_local_track_map : LocalTrackMap
new_local_track_map = record { pending = []; opened = [] }

unfoldable pub find_by_id : LocalTrackMap → ℕ → Option LocalTrack
find_by_id m id = elim (lookup id m.pending) [ some lt ↦ some lt | none ↦ lookup id m.opened ]

unfoldable pub add_pending : LocalTrackMap → LocalTrack → LocalTrackMap × Bool
add_pending m lt = elim (lookup lt.request_id m.pending) [
  | some _ ↦ (m, false)
  | none ↦ elim (lookup lt.request_id m.opened) [
    | some _ ↦ (m, false)
    | none ↦ (record m { pending = insert lt.request_id lt m.pending }, true)
  ]
]

unfoldable pub delete_track : LocalTrackMap → ℕ → LocalTrackMap × Option LocalTrack
unfolding find_by_id
delete_track m id = elim (find_by_id m id) [
  | none ↦ (m, none)
  | some lt ↦ (record m { pending = delete id m.pending; opened = delete id m.opened }, some lt)
]

unfoldable pub confirm : LocalTrackMap → ℕ → LocalTrackMap × Option LocalTrack
confirm m id = elim (lookup id m.pending) [
  | none ↦ (m, none)
  | some lt ↦ (record m { pending = delete id m.pending; opened = insert id lt m.opened }, some lt)
]

unfoldable pub reject : LocalTrackMap → ℕ → LocalTrackMap × Option LocalTrack
reject m id = elim (lookup id m.pending) [
  | none ↦ (m, none)
  | some lt ↦ (record m { pending = delete id m.pending }, some lt)
]
