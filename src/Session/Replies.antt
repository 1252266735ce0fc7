-- ===== src/Session/Replies.antt =====
-- The messages of session.go that answer or end a request.
use moqtransport_fec.Base.{ℕ, Bool, true, false, List, [], Option, none, some, inl, inr}
use moqtransport_fec.Wire.Env.{Env}
use moqtransport_fec.Wire.Fields.{Location}
use moqtransport_fec.Wire.Params.{KeyValuePair}
use moqtransport_fec.Wire.Filter.{no_location}
use moqtransport_fec.Wire.SubscribeOk.{SubscribeOkMessage}
use moqtransport_fec.Wire.Message.{ControlMessage}
use moqtransport_fec.Session.Errors.{SessionError, unknown_request_id}
use moqtransport_fec.Session.LocalTracks.{LocalTrack, confirm, reject, delete_track}
use moqtransport_fec.Session.Announcements.{confirm_and_get}
use moqtransport_fec.Session.Tracks.{subscription_done, cancel}
use moqtransport_fec.Session.Peer.{
  Peer, TrackStatus, RemoteState, set_local_tracks, send, local_state, change_local,
}

-- Parameters are copied by ToWire and FromWire of messages.go, which change nothing.
pub record SubscribeOkOptions : Type 0 where
  pub expires : ℕ
  pub group_order : ℕ
  pub content_exists : Bool
  pub largest_location : Option Location
  pub parameters : List KeyValuePair

-- The message, whose track alias is not set.
abbrev pub subscribe_ok_of : ℕ → SubscribeOkOptions → SubscribeOkMessage
subscribe_ok_of id opts = record {
  request_id = id;
  track_alias = 0;
  expires = opts.expires;
  group_order = opts.group_order;
  content_exists = opts.content_exists;
  largest_location = elim opts.content_exists [
    | false ↦ no_location
    | true ↦ elim opts.largest_location [ none ↦ no_location | some l ↦ l ]
  ];
  parameters = opts.parameters;
}

module _ (env : Env) (accepts : List ControlMessage → ControlMessage → Bool) where
  unfoldable pub accept_subscription_with_options :
      Peer → ℕ → SubscribeOkOptions → Peer × Option SessionError
  accept_subscription_with_options p id opts =
      let (m, found) = confirm p.session.local_tracks id in
      elim found [
        | none ↦ (p, some unknown_request_id)
        | some lt ↦
            send env accepts (set_local_tracks p m)
              (ControlMessage.subscribe_ok (subscribe_ok_of id opts))
      ]

  unfoldable pub reject_subscription : Peer → ℕ → ℕ → List ℕ → Peer × Option SessionError
  reject_subscription p id error_code reason =
      let (m, found) = reject p.session.local_tracks id in
      elim found [
        | none ↦ (p, some unknown_request_id)
        | some lt ↦ send env accepts (set_local_tracks p m) (
            ControlMessage.subscribe_error (record {
              request_id = lt.request_id;
              error_code = error_code;
              reason_phrase = reason;
            }))
      ]

  unfoldable pub unsubscribe : Peer → ℕ → Peer × Option SessionError
  unsubscribe p id = send env accepts p (ControlMessage.unsubscribe (record { request_id = id }))

  -- Session.subscriptionDone
  unfoldable pub send_subscription_done : Peer → ℕ → ℕ → ℕ → List ℕ → Peer × Option SessionError
  send_subscription_done p id code count reason =
      let (m, found) = delete_track p.session.local_tracks id in
      elim found [
        | none ↦ (p, some unknown_request_id)
        | some lt ↦ send env accepts (set_local_tracks p m) (
            ControlMessage.subscribe_done (record {
              request_id = lt.request_id;
              status_code = code;
              stream_count = count;
              reason_phrase = reason;
            }))
      ]

  -- localTrack.close
  unfoldable pub close : Peer → LocalTrack → ℕ → List ℕ → Peer × Option SessionError
  close p lt code reason =
      let cancelled = change_local p lt.track_alias (cancel subscription_done) in
      elim lt.is_fetch [
        | true ↦ (cancelled, none)
        | false ↦
            send_subscription_done cancelled lt.request_id code
              (local_state cancelled lt.track_alias).subgroup_count reason
      ]

  unfoldable pub accept_fetch : Peer → ℕ → Peer × Option SessionError
  accept_fetch p id =
      let (m, found) = confirm p.session.local_tracks id in
      elim found [
        | none ↦ (p, some unknown_request_id)
        | some lt ↦ send env accepts (set_local_tracks p m) (
            ControlMessage.fetch_ok (record {
              request_id = id;
              group_order = 1;
              end_of_track = 0;
              end_location = no_location;
              subscribe_parameters = [];
            }))
      ]

  unfoldable pub reject_fetch : Peer → ℕ → ℕ → List ℕ → Peer × Option SessionError
  reject_fetch p id error_code reason =
      let (m, found) = reject p.session.local_tracks id in
      elim found [
        | none ↦ (p, some unknown_request_id)
        | some lt ↦ send env accepts (set_local_tracks p m) (
            ControlMessage.fetch_error (record {
              request_id = lt.request_id;
              error_code = error_code;
              reason_phrase = reason;
            }))
      ]

  unfoldable pub fetch_cancel : Peer → ℕ → Peer × Option SessionError
  fetch_cancel p id = send env accepts p (ControlMessage.fetch_cancel (record { request_id = id }))

  -- RemoteTrack.Close, by the function that the track was made with.
  unfoldable pub close_remote : Peer → ℕ → RemoteState → Peer × Option SessionError
  close_remote p id t = elim t.is_fetch [ true ↦ fetch_cancel p id | false ↦ unsubscribe p id ]

  -- The request ID of the answer is always 0, and its location is empty.
  unfoldable pub send_track_status : Peer → TrackStatus → Peer × Option SessionError
  send_track_status p ts = send env accepts p (
      ControlMessage.track_status (record {
        request_id = 0;
        status_code = ts.status_code;
        largest_location = no_location;
        parameters = [];
      }))

  unfoldable pub accept_announcement : Peer → ℕ → Peer × Option SessionError
  accept_announcement p id =
      let (m, found) = confirm_and_get p.incoming_announcements id in
      elim found [
        | inl e ↦ (p, some e)
        | inr a ↦
            send env accepts (record p { incoming_announcements = m })
              (ControlMessage.announce_ok (record { request_id = id }))
      ]

  unfoldable pub reject_announcement : Peer → ℕ → ℕ → List ℕ → Peer × Option SessionError
  reject_announcement p id c r = send env accepts p (
      ControlMessage.announce_error (record { request_id = id; error_code = c; reason_phrase = r }))

  unfoldable pub accept_announcement_subscription : Peer → ℕ → Peer × Option SessionError
  accept_announcement_subscription p id =
      send env accepts p (ControlMessage.subscribe_announces_ok (record { request_id = id }))

  unfoldable pub reject_announcement_subscription :
      Peer → ℕ → ℕ → List ℕ → Peer × Option SessionError
  reject_announcement_subscription p id c r = send env accepts p (
      ControlMessage.subscribe_announces_error
        (record { request_id = id; error_code = c; reason_phrase = r }))
