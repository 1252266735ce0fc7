-- ===== src/Session/Receive.antt =====
-- `receive` of session.go, and readControlStream, which calls it on message after message until one
-- is refused.
use moqtransport_fec.Base.{if◌then◌else◌, Bool, true, false, List, [], ◌∷◌, Option, none, some}
use moqtransport_fec.Wire.Env.{Env}
use moqtransport_fec.Wire.Message.{
  ControlMessage, go_away, max_request_id, requests_blocked, subscribe, subscribe_ok,
  subscribe_error, unsubscribe, subscribe_update, subscribe_done, fetch, fetch_ok, fetch_error,
  fetch_cancel, track_status_request, track_status, announce, announce_ok, announce_error,
  unannounce, announce_cancel, subscribe_announces, subscribe_announces_ok,
  subscribe_announces_error, unsubscribe_announces,
}
use moqtransport_fec.Session.Errors.{SessionError, unexpected_message_type}
use moqtransport_fec.Session.State.{Session}
use moqtransport_fec.Session.Handshake.{receive_before_setup, on_max_request_id}
use moqtransport_fec.Session.Announcements.{Ranging, Announcement}
use moqtransport_fec.Session.Peer.{Peer}
use moqtransport_fec.Session.Handlers.{
  Application, on_subscribe, on_fetch, on_track_status_request, on_announce, on_subscribe_announces,
}
use moqtransport_fec.Session.Answers.{
  on_go_away, on_subscribe_ok, on_subscribe_error, on_subscribe_update, on_unsubscribe,
  on_subscribe_done, on_fetch_ok, on_fetch_error, on_fetch_cancel, on_track_status, on_announce_ok,
  on_announce_error, on_unannounce, on_announce_cancel, on_subscribe_announces_ok,
  on_subscribe_announces_error, on_unsubscribe_announces,
}

-- A part that works on the fields of the handshake alone.
abbrev pub within : Peer → Session × Option SessionError → Peer × Option SessionError
within p (s, e) = (record p { session = s }, e)

module _ (env : Env) (accepts : List ControlMessage → ControlMessage → Bool) (app : Application)
    (r : Ranging Announcement) where
  unfoldable pub receive_after_setup : Peer → ControlMessage → Peer × Option SessionError
  receive_after_setup p msg = elim msg [
    | go_away m ↦ on_go_away p m
    | max_request_id m ↦ within p (on_max_request_id p.session m)
    | requests_blocked m ↦ (p, none)
    | subscribe m ↦ on_subscribe env accepts app p m
    | subscribe_ok m ↦ on_subscribe_ok env accepts p m
    | subscribe_error m ↦ on_subscribe_error p m
    | subscribe_update m ↦ on_subscribe_update p m
    | unsubscribe m ↦ on_unsubscribe p m
    | subscribe_done m ↦ on_subscribe_done p m
    | fetch m ↦ on_fetch env accepts app p m
    | fetch_ok m ↦ on_fetch_ok env accepts p m
    | fetch_error m ↦ on_fetch_error p m
    | fetch_cancel m ↦ on_fetch_cancel p m
    | track_status_request m ↦ on_track_status_request env accepts app p m
    | track_status m ↦ on_track_status p m
    | announce m ↦ on_announce env accepts app p m
    | announce_ok m ↦ on_announce_ok p m
    | announce_error m ↦ on_announce_error p m
    | unannounce m ↦ on_unannounce r p m
    | announce_cancel m ↦ on_announce_cancel p m
    | subscribe_announces m ↦ on_subscribe_announces env accepts app p m
    | subscribe_announces_ok m ↦ on_subscribe_announces_ok p m
    | subscribe_announces_error m ↦ on_subscribe_announces_error p m
    | unsubscribe_announces m ↦ on_unsubscribe_announces p m
    | _ ↦ (p, some unexpected_message_type)
  ]

  unfoldable pub receive : Peer → ControlMessage → Peer × Option SessionError
  receive p msg = elim p.session.handshake_done [
    | true ↦ receive_after_setup p msg
    | false ↦ within p (receive_before_setup env accepts p.session msg)
  ]

  -- On the messages that the stream brings; a panic ends the program.
  unfoldable pub read_control_stream : Peer → List ControlMessage → Peer × Option SessionError
  read_control_stream p [] = (p, none)
  read_control_stream p (msg ∷ msgs) =
      let (p', e) = receive p msg in
      let rest = read_control_stream p' msgs in
      if p'.session.panicked then (p', e) else elim e [ some e ↦ (p', some e) | none ↦ rest ]
