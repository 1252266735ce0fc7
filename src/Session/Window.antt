-- ===== src/Session/Window.antt =====
-- Request IDs of both directions in session.go: addLocalTrack, which checks the peer's IDs against
-- the maximum and raises it, and getRequestID, which takes an ID of our own.
pub mod Grants
use moqtransport_fec.Base.{ℕ, ◌*◌, ◌/◌, ◌%◌, Bool, List, Option, none, some, leb, if◌then◌else◌}
use moqtransport_fec.Wire.Env.{Env}
use moqtransport_fec.Wire.Message.{ControlMessage}
use moqtransport_fec.Session.Errors.{SessionError, max_request_id_violated, duplicate_request_id}
use moqtransport_fec.Session.Ids.{next, u64_mod}
use moqtransport_fec.Session.LocalTracks.{LocalTrack, add_pending}
use moqtransport_fec.Session.State.{Session, write}

module _ (env : Env) (accepts : List ControlMessage → ControlMessage → Bool) where
  -- The maximum is doubled when half of it is used up. Whether the message is sent does not matter.
  unfoldable pub raise_max : Session → ℕ → Session
  raise_max s request_id =
      if leb (s.local_max_request_id / 2) request_id
      then (let new_max = 2 * s.local_max_request_id % u64_mod in
          (write env accepts (record s { local_max_request_id = new_max })
            (ControlMessage.max_request_id (record { request_id = new_max }))).0)
      else s

  unfoldable pub add_local_track : Session → LocalTrack → Session × Option SessionError
  add_local_track s lt =
      if leb s.local_max_request_id lt.request_id
      then (s, some max_request_id_violated)
      else (let s' = raise_max s lt.request_id in
          let (tracks, added) = add_pending s'.local_tracks lt in
          (record s' { local_tracks = tracks }, if added then none else some duplicate_request_id))

  unfoldable pub get_request_id : Session → Session × ℕ × Option SessionError
  get_request_id s =
      let (ids, id, e) = next s.request_ids in
      let s' = record s { request_ids = ids } in
      elim e [
        | none ↦ (s', id, none)
        | some e ↦ (
          (write env accepts s'
              (ControlMessage.requests_blocked (record { maximum_request_id = id }))).0,
          id,
          some e,
        )
      ]
