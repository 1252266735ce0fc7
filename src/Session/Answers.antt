-- ===== src/Session/Answers.antt =====
-- The handlers of session.go for the peer's answers and for what ends a request.
pub mod Aliases
use moqtransport_fec.Base.{ℕ, Bool, true, false, List, Option, none, some, inl, inr, if◌then◌else◌}
use moqtransport_fec.Wire.Env.{Env}
use moqtransport_fec.Wire.Setup.{GoAwayMessage}
use moqtransport_fec.Wire.Subscribe.{
  SubscribeErrorMessage, SubscribeUpdateMessage, UnsubscribeMessage, SubscribeDoneMessage,
}
use moqtransport_fec.Wire.SubscribeOk.{SubscribeOkMessage}
use moqtransport_fec.Wire.FetchReply.{FetchOkMessage, FetchErrorMessage, FetchCancelMessage}
use moqtransport_fec.Wire.Status.{TrackStatusMessage}
use moqtransport_fec.Wire.Announce.{
  AnnounceOkMessage, AnnounceErrorMessage, UnannounceMessage, AnnounceCancelMessage,
}
use moqtransport_fec.Wire.Announces.{
  SubscribeAnnouncesOkMessage, SubscribeAnnouncesErrorMessage, UnsubscribeAnnouncesMessage,
}
use moqtransport_fec.Wire.Message.{ControlMessage}
use moqtransport_fec.Session.Errors.{
  SessionError, unknown_request_id, unknown_announcement, invalid_namespace_length,
  unknown_subscribe_announces_prefix, unknown_track_status_request,
}
use moqtransport_fec.Session.LocalTracks.{find_by_id, delete_track}
use moqtransport_fec.Session.RemoteTracks.{
  RemoteTrack, RemoteTrackMap, find_by_request_id, confirm, reject, set_alias,
}
use moqtransport_fec.Session.Announcements.{
  Ranging, Announcement, confirm_and_get, delete_namespace, delete_by_id, delete_request,
}
use moqtransport_fec.Session.Announcements as Announcements
use moqtransport_fec.Session.Tracks.{unsubscribe}
use moqtransport_fec.Session.Peer.{
  message_go_away, message_unannounce, message_announce_cancel, message_unsubscribe_announces,
  message, Answer, accepted, protocol_error, status, RemoteState, Peer, notify, offer, change_local,
  remote_state, change_remote, set_local_tracks,
}
use moqtransport_fec.Session.Replies.{close_remote}
use moqtransport_fec.Session.Handlers.{invalid_length}

unfoldable pub on_go_away : Peer → GoAwayMessage → Peer × Option SessionError
on_go_away p m =
    (notify p (record (message message_go_away) { new_session_uri = m.new_session_uri }), none)

abbrev pub set_remote_tracks : Peer → RemoteTrackMap → Peer
set_remote_tracks p m = record p { remote_tracks = m }

-- A send on the channel of a track.
unfoldable pub offer_response : Answer → RemoteState → RemoteState
offer_response a t = elim t.response_chan [
  | some _ ↦ t
  | none ↦ record t { response_chan = some a }
]

-- What SUBSCRIBE_OK says of the subscription.
unfoldable pub subscribed : SubscribeOkMessage → RemoteState → RemoteState
subscribed m t = record t {
  expires = m.expires;
  group_order = m.group_order;
  content_exists = m.content_exists;
  largest_location = if m.content_exists then some m.largest_location else none;
  parameters = m.parameters;
}

module _ (env : Env) (accepts : List ControlMessage → ControlMessage → Bool) where
  -- The answer is handed to the track, or the track is closed if nobody waits; an error of that is
  -- only logged.
  unfoldable pub respond : Peer → RemoteTrack → Peer
  respond p rt = elim (remote_state p rt.address).response_chan [
    | none ↦ change_remote p rt.address (offer_response accepted)
    | some _ ↦ (close_remote env accepts p rt.request_id (remote_state p rt.address)).0
  ]

  unfoldable pub on_subscribe_ok : Peer → SubscribeOkMessage → Peer × Option SessionError
  on_subscribe_ok p m =
      let (tracks, found) = confirm p.remote_tracks m.request_id in
      elim found [
        | inl e ↦ (p, some e)
        | inr rt ↦
            let (tracks', e) = set_alias tracks m.request_id m.track_alias in
            elim e [
              | some e ↦ (set_remote_tracks p tracks', some e)
              | none ↦ (
                respond (change_remote (set_remote_tracks p tracks') rt.address (subscribed m)) rt,
                none,
              )
            ]
      ]

  unfoldable pub on_fetch_ok : Peer → FetchOkMessage → Peer × Option SessionError
  on_fetch_ok p m =
      let (tracks, found) = confirm p.remote_tracks m.request_id in
      elim found [ inl e ↦ (p, some e) | inr rt ↦ (respond (set_remote_tracks p tracks) rt, none) ]

-- onSubscribeError and onFetchError, which do the same.
unfoldable pub on_request_error : Peer → ℕ → ℕ → List ℕ → Peer × Option SessionError
on_request_error p id code reason =
    let (tracks, found) = reject p.remote_tracks id in
    elim found [
      | none ↦ (p, some unknown_request_id)
      | some rt ↦ (
        change_remote (set_remote_tracks p tracks) rt.address
            (offer_response (protocol_error code reason)),
        none,
      )
    ]

unfoldable pub on_subscribe_error : Peer → SubscribeErrorMessage → Peer × Option SessionError
on_subscribe_error p m = on_request_error p m.request_id m.error_code m.reason_phrase

unfoldable pub on_fetch_error : Peer → FetchErrorMessage → Peer × Option SessionError
on_fetch_error p m = on_request_error p m.request_id m.error_code m.reason_phrase

unfoldable pub on_subscribe_update : Peer → SubscribeUpdateMessage → Peer × Option SessionError
on_subscribe_update p m = elim (find_by_id p.session.local_tracks m.request_id) [
  | none ↦ (p, some unknown_request_id)
  | some _ ↦ (p, none)
]

-- The track is cancelled, and stays in the map.
unfoldable pub on_unsubscribe : Peer → UnsubscribeMessage → Peer × Option SessionError
on_unsubscribe p m = elim (find_by_id p.session.local_tracks m.request_id) [
  | none ↦ (p, some unknown_request_id)
  | some lt ↦ (change_local p lt.track_alias unsubscribe, none)
]

-- A context keeps the cause of its first cancellation.
unfoldable pub finish : ℕ → List ℕ → RemoteState → RemoteState
finish code reason t = elim t.done [ some _ ↦ t | none ↦ record t { done = some (code, reason) } ]

unfoldable pub on_subscribe_done : Peer → SubscribeDoneMessage → Peer × Option SessionError
on_subscribe_done p m = elim (find_by_request_id p.remote_tracks m.request_id) [
  | none ↦ (p, some unknown_request_id)
  | some rt ↦ (change_remote p rt.address (finish m.status_code m.reason_phrase), none)
]

unfoldable pub on_fetch_cancel : Peer → FetchCancelMessage → Peer × Option SessionError
on_fetch_cancel p m =
    let (tracks, found) = delete_track p.session.local_tracks m.request_id in
    elim found [
      | none ↦ (p, some unknown_request_id)
      | some lt ↦ (change_local (set_local_tracks p tracks) lt.track_alias unsubscribe, none)
    ]

unfoldable pub on_track_status : Peer → TrackStatusMessage → Peer × Option SessionError
on_track_status p m =
    let (requests, found) = delete_request p.outgoing_track_status_requests m.request_id in
    elim found [
      | none ↦ (p, some unknown_track_status_request)
      | some tsr ↦ (
        record p {
          outgoing_track_status_requests = requests;
          responses =
              offer tsr.request_id
                (status (record {
                  namespace = tsr.namespace;
                  trackname = tsr.trackname;
                  status_code = m.status_code;
                  last_group_id = m.largest_location.group;
                  last_object_id = m.largest_location.object;
                }))
                p.responses;
        },
        none,
      )
    ]

unfoldable pub on_announce_ok : Peer → AnnounceOkMessage → Peer × Option SessionError
on_announce_ok p m =
    let (left, found) = confirm_and_get p.outgoing_announcements m.request_id in
    elim found [
      | inl e ↦ (p, some unknown_announcement)
      | inr a ↦ (
        record p {
          outgoing_announcements = left;
          responses = offer a.request_id accepted p.responses;
        },
        none,
      )
    ]

unfoldable pub on_announce_error : Peer → AnnounceErrorMessage → Peer × Option SessionError
on_announce_error p m =
    let (left, found) = Announcements.reject p.outgoing_announcements m.request_id in
    elim found [
      | none ↦ (p, some unknown_announcement)
      | some a ↦ (
        record p {
          outgoing_announcements = left;
          responses = offer a.request_id (protocol_error m.error_code m.reason_phrase) p.responses;
        },
        none,
      )
    ]

unfoldable pub on_unannounce :
    Ranging Announcement → Peer → UnannounceMessage → Peer × Option SessionError
on_unannounce r p m =
    if invalid_length m.track_namespace
    then (p, some invalid_namespace_length)
    else (let (left, removed) = delete_namespace r p.incoming_announcements m.track_namespace in
        elim removed [
          | false ↦ (p, some unknown_announcement)
          | true ↦ (
            notify (record p { incoming_announcements = left })
                (record (message message_unannounce) { namespace = m.track_namespace }),
            none,
          )
        ])

unfoldable pub on_announce_cancel : Peer → AnnounceCancelMessage → Peer × Option SessionError
on_announce_cancel p m =
    if invalid_length m.track_namespace then (p, some invalid_namespace_length) else (
      notify p (record (message message_announce_cancel) {
        namespace = m.track_namespace;
        error_code = m.error_code;
        reason_phrase = m.reason_phrase;
      }),
      none,
    )

-- onSubscribeAnnouncesOk and onSubscribeAnnouncesError with their answers.
unfoldable pub answer_subscription : Peer → ℕ → Answer → Peer × Option SessionError
answer_subscription p id a =
    let (left, found) = delete_by_id p.pending_outgoing_announcement_subscriptions id in
    let p' = record p { pending_outgoing_announcement_subscriptions = left } in
    elim found [
      | none ↦ (p', some unknown_subscribe_announces_prefix)
      | some s ↦ (record p' { responses = offer s.request_id a p.responses }, none)
    ]

unfoldable pub on_subscribe_announces_ok :
    Peer → SubscribeAnnouncesOkMessage → Peer × Option SessionError
on_subscribe_announces_ok p m = answer_subscription p m.request_id accepted

unfoldable pub on_subscribe_announces_error :
    Peer → SubscribeAnnouncesErrorMessage → Peer × Option SessionError
on_subscribe_announces_error p m =
    answer_subscription p m.request_id (protocol_error m.error_code m.reason_phrase)

unfoldable pub on_unsubscribe_announces :
    Peer → UnsubscribeAnnouncesMessage → Peer × Option SessionError
on_unsubscribe_announces p m = (
  notify p
      (record (message message_unsubscribe_announces) { namespace = m.track_namespace_prefix }),
  none,
)
