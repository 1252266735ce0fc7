-- ===== src/Session/RemoteTracks.antt =====
-- remote_track_map.go, over the request ID that the map keeps of a remote_track.go track: a pointer in
-- the map is a track, and the map reads none of its fields. The lock makes each call atomic, less
-- that `findByTrackAlias` takes it twice.
pub mod Refinement
use moqtransport_fec.Base.{ℕ, List, [], Option, none, some, ◌⊎◌, inl, inr}
use moqtransport_fec.Base.Assoc.{lookup, insert, delete}
use moqtransport_fec.Session.Errors.{
  SessionError, unknown_request_id, duplicate_request_id_bug, duplicate_track_alias_bug,
}

-- Tracks are told apart by `address`, which stands for the pointer.
pub record RemoteTrack : Type 0 where
  pub address : ℕ
  pub request_id : ℕ

pub record RemoteTrackMap : Type 0 where
  pub next_track_alias : ℕ
  pub pending : List (ℕ × RemoteTrack)
  pub opened : List (ℕ × RemoteTrack)
  pub track_alias_to_request_id : List (ℕ × ℕ)

unfoldable pub new_remote_track_map : RemoteTrackMap
new_remote_track_map = record {
  next_track_alias = 0;
  pending = [];
  opened = [];
  track_alias_to_request_id = [];
}

unfoldable pub find_by_request_id : RemoteTrackMap → ℕ → Option RemoteTrack
find_by_request_id m id = elim (lookup id m.opened) [
  | some sub ↦ some sub
  | none ↦ lookup id m.pending
]

unfoldable pub add_pending : RemoteTrackMap → ℕ → RemoteTrack → RemoteTrackMap × Option SessionError
add_pending m request_id rt = elim (lookup request_id m.pending) [
  | some _ ↦ (m, some duplicate_request_id_bug)
  | none ↦ elim (lookup request_id m.opened) [
    | some _ ↦ (m, some duplicate_request_id_bug)
    | none ↦ (record m { pending = insert request_id rt m.pending }, none)
  ]
]

-- The source has a second copy of the same body.
unfoldable pub add_pending_with_alias :
    RemoteTrackMap → ℕ → RemoteTrack → RemoteTrackMap × Option SessionError
add_pending_with_alias m request_id rt = elim (lookup request_id m.pending) [
  | some _ ↦ (m, some duplicate_request_id_bug)
  | none ↦ elim (lookup request_id m.opened) [
    | some _ ↦ (m, some duplicate_request_id_bug)
    | none ↦ (record m { pending = insert request_id rt m.pending }, none)
  ]
]

unfoldable pub set_alias : RemoteTrackMap → ℕ → ℕ → RemoteTrackMap × Option SessionError
set_alias m id alias = elim (lookup alias m.track_alias_to_request_id) [
  | some _ ↦ (m, some duplicate_track_alias_bug)
  | none ↦
      (record m { track_alias_to_request_id = insert alias id m.track_alias_to_request_id }, none)
]

-- `confirm` returns a track or an error.
unfoldable pub confirm : RemoteTrackMap → ℕ → RemoteTrackMap × (SessionError ⊎ RemoteTrack)
confirm m id = elim (lookup id m.pending) [
  | none ↦ (m, inl unknown_request_id)
  | some s ↦ (record m { pending = delete id m.pending; opened = insert id s m.opened }, inr s)
]

unfoldable pub reject : RemoteTrackMap → ℕ → RemoteTrackMap × Option RemoteTrack
reject m id = elim (lookup id m.pending) [
  | none ↦ (m, none)
  | some s ↦ (record m { pending = delete id m.pending }, some s)
]

unfoldable pub find_by_track_alias : RemoteTrackMap → ℕ → Option RemoteTrack
find_by_track_alias m alias = elim (lookup alias m.track_alias_to_request_id) [
  | none ↦ none
  | some id ↦ find_by_request_id m id
]
