-- ===== src/Session/Peer.antt =====
-- The whole state of a Session (session.go) after its handshake, and what the application sees of it:
-- the messages of handler.go and the channels on which a request waits for its answer. Where the
-- code shares an object by a pointer, its fields that change stand here under a key: a local track's
-- under its track alias, a remote track's under its address. The channels of announcements, of
-- subscriptions to announcements and of track status requests stand under the request ID; all have
-- room for one answer. What is written to the log is left out.
use moqtransport_fec.Base.{ℕ, Bool, false, List, [], ◌∷◌, ◌++◌, Option, none, some}
use moqtransport_fec.Base.Assoc.{lookup, insert}
use moqtransport_fec.Wire.Env.{Env}
use moqtransport_fec.Wire.Fields.{Location}
use moqtransport_fec.Wire.Params.{KeyValuePair}
use moqtransport_fec.Wire.Message.{ControlMessage}
use moqtransport_fec.Session.Errors.{SessionError}
use moqtransport_fec.Session.Ids.{Sequence}
use moqtransport_fec.Session.LocalTracks.{LocalTrackMap}
use moqtransport_fec.Session.RemoteTracks.{RemoteTrackMap, new_remote_track_map}
use moqtransport_fec.Session.Announcements.{
  AnnouncementMap, AnnouncementSubscriptionMap, TrackStatusRequestMap, new_announcement_map,
  new_announcement_subscription_map, new_track_status_request_map,
}
use moqtransport_fec.Session.Tracks.{TrackState, new_local_track}
use moqtransport_fec.Session.Handshake.{error_of}
use moqtransport_fec.Session.State.{Session, write}

-- Message.Method
pub data Method : Type 0 where
  message_subscribe message_fetch message_announce message_announce_cancel message_unannounce :
      Method
  message_track_status_request message_track_status message_go_away : Method
  message_subscribe_announces message_unsubscribe_announces : Method

pub record Message : Type 0 where
  pub method : Method
  pub request_id : ℕ
  pub namespace : List (List ℕ)
  pub track : List ℕ
  pub authorization : List ℕ
  pub new_session_uri : List ℕ
  pub error_code : ℕ
  pub reason_phrase : List ℕ

abbrev pub message : Method → Message
message method = record {
  method = method;
  request_id = 0;
  namespace = [];
  track = [];
  authorization = [];
  new_session_uri = [];
  error_code = 0;
  reason_phrase = [];
}

pub record TrackStatus : Type 0 where
  pub namespace : List (List ℕ)
  pub trackname : List ℕ
  pub status_code : ℕ
  pub last_group_id : ℕ
  pub last_object_id : ℕ

-- What a channel brings: nil, a ProtocolError, or a status.
pub data Answer : Type 0 where
  accepted : Answer
  protocol_error : ℕ → List ℕ → Answer
  status : TrackStatus → Answer

-- The fields of a RemoteTrack that change, less those that its streams change. `is_fetch` tells which
-- message its Close sends.
pub record RemoteState : Type 0 where
  pub is_fetch : Bool
  pub expires : ℕ
  pub group_order : ℕ
  pub content_exists : Bool
  pub largest_location : Option Location
  pub parameters : List KeyValuePair
  pub done : Option (ℕ × List ℕ)
  pub response_chan : Option Answer

unfoldable pub new_remote_track : Bool → RemoteState
new_remote_track is_fetch = record {
  is_fetch = is_fetch;
  expires = 0;
  group_order = 0;
  content_exists = false;
  largest_location = none;
  parameters = [];
  done = none;
  response_chan = none;
}

-- `notified` are the messages that the application's Handler was called with.
pub record Peer : Type 0 where
  pub session : Session
  pub outgoing_announcements : AnnouncementMap
  pub incoming_announcements : AnnouncementMap
  pub pending_outgoing_announcement_subscriptions : AnnouncementSubscriptionMap
  pub pending_incoming_announcement_subscriptions : AnnouncementSubscriptionMap
  pub track_aliases : Sequence
  pub remote_tracks : RemoteTrackMap
  pub outgoing_track_status_requests : TrackStatusRequestMap
  pub local_states : List (ℕ × TrackState)
  pub remote_states : List (ℕ × RemoteState)
  pub responses : List (ℕ × Answer)
  pub notified : List Message

-- What `Run` makes, beside the part that the handshake uses.
unfoldable pub new_peer : Session → Peer
new_peer s = record {
  session = s;
  outgoing_announcements = new_announcement_map;
  incoming_announcements = new_announcement_map;
  pending_outgoing_announcement_subscriptions = new_announcement_subscription_map;
  pending_incoming_announcement_subscriptions = new_announcement_subscription_map;
  track_aliases = record { last = 0; interval = 1 };
  remote_tracks = new_remote_track_map;
  outgoing_track_status_requests = new_track_status_request_map;
  local_states = [];
  remote_states = [];
  responses = [];
  notified = [];
}

-- Handler.Handle
abbrev pub notify : Peer → Message → Peer
notify p m = record p { notified = p.notified ++ (m ∷ []) }

abbrev pub set_local_tracks : Peer → LocalTrackMap → Peer
set_local_tracks p m = record p { session = record p.session { local_tracks = m } }

-- A send on a channel with room for one answer, which is dropped if there is one already.
unfoldable pub offer : ℕ → Answer → List (ℕ × Answer) → List (ℕ × Answer)
offer id a responses = elim (lookup id responses) [
  | some _ ↦ responses
  | none ↦ insert id a responses
]

unfoldable pub local_state : Peer → ℕ → TrackState
local_state p alias = elim (lookup alias p.local_states) [ none ↦ new_local_track | some t ↦ t ]

unfoldable pub change_local : Peer → ℕ → (TrackState → TrackState) → Peer
change_local p alias f = record p {
  local_states = insert alias (f (local_state p alias)) p.local_states;
}

unfoldable pub remote_state : Peer → ℕ → RemoteState
remote_state p address = elim (lookup address p.remote_states) [
  | none ↦ new_remote_track false
  | some t ↦ t
]

unfoldable pub change_remote : Peer → ℕ → (RemoteState → RemoteState) → Peer
change_remote p address f = record p {
  remote_states = insert address (f (remote_state p address)) p.remote_states;
}

module _ (env : Env) (accepts : List ControlMessage → ControlMessage → Bool) where
  -- `return s.controlStream.write(msg)`
  unfoldable pub send : Peer → ControlMessage → Peer × Option SessionError
  send p msg =
      let (s, sent) = write env accepts p.session msg in (record p { session = s }, error_of sent)
