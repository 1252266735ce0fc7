-- ===== src/Session/Handlers.antt =====
-- `receive` of session.go after the handshake, with the handlers of all messages. The application is a
-- parameter: what it calls on the writer that it is handed, for a SUBSCRIBE and for any other message;
-- it has a Handler, while a SubscribeHandler may be missing. A SUBSCRIBE_UPDATE, and what the log is
-- told, change nothing.
pub mod Budget
pub mod Once
use moqtransport_fec.Base.{
  ℕ, Bool, true, false, ◌||◌, List, [], Option, none, some, ltb, ◌==◌, length, if◌then◌else◌,
}
use moqtransport_fec.Wire.Env.{Env}
use moqtransport_fec.Wire.Params.{KeyValuePair, authorization_token_parameter_key}
use moqtransport_fec.Wire.Subscribe.{SubscribeMessage}
use moqtransport_fec.Wire.Fetch.{FetchMessage}
use moqtransport_fec.Wire.Status.{TrackStatusRequestMessage}
use moqtransport_fec.Wire.Announce.{AnnounceMessage}
use moqtransport_fec.Wire.Announces.{SubscribeAnnouncesMessage}
use moqtransport_fec.Wire.Message.{ControlMessage}
use moqtransport_fec.Session.Errors.{
  SessionError, invalid_namespace_length, max_request_id_violated,
}
use moqtransport_fec.Session.Texts.{
  internal, too_many_subscribes, unhandled_subscription, unhandled_fetch, unhandled_announcement,
  unhandled_announcement_subscription,
}
use moqtransport_fec.Session.Ids.{next_in_sequence}
use moqtransport_fec.Session.LocalTracks.{LocalTrack}
use moqtransport_fec.Session.Announcements.{Announcement, add, add_subscription}
use moqtransport_fec.Session.Handshake.{find_parameter}
use moqtransport_fec.Session.Window.{add_local_track}
use moqtransport_fec.Session.Peer.{
  message_fetch, message_announce, message_track_status_request, message_subscribe_announces,
  Message, message, Peer, notify, send,
}
use moqtransport_fec.Session.Replies.{
  reject_subscription, reject_fetch, reject_announcement, reject_announcement_subscription,
  send_track_status,
}
use moqtransport_fec.Session.Writers.{
  SubscribeCall, Call, subscribe_writer, fetch_writer, announcement_writer,
  announcement_subscription_writer, track_status_writer, does_not_exist,
}

-- The public message of a SUBSCRIBE has the fields of the message and the token.
pub record Application : Type 0 where
  pub handle : Message → List Call
  pub handle_subscribe : Option (SubscribeMessage → List ℕ → List SubscribeCall)

-- It never returns an error.
unfoldable pub validate_auth_parameter : List KeyValuePair → List ℕ
validate_auth_parameter pp = elim (find_parameter authorization_token_parameter_key pp) [
  | none ↦ []
  | some (_, p) ↦ p.value_bytes
]

-- len(msg.TrackNamespace) == 0 || len(msg.TrackNamespace) > 32
abbrev pub invalid_length : List (List ℕ) → Bool
invalid_length namespace = length namespace == 0 || ltb 32 (length namespace)

-- The code and the reason of a SUBSCRIBE_ERROR for a request ID that is refused.
abbrev pub refusal_code : SessionError → ℕ
refusal_code max_request_id_violated = 0x07
refusal_code e = 0x01

abbrev pub refusal_reason : SessionError → List ℕ
refusal_reason max_request_id_violated = too_many_subscribes
refusal_reason e = internal

-- What the application does with a SUBSCRIBE.
abbrev pub subscribe_calls : Application → SubscribeMessage → List SubscribeCall
subscribe_calls app m = elim app.handle_subscribe [
  | none ↦ []
  | some f ↦ f m (validate_auth_parameter m.parameters)
]

-- newLocalTrack with the next track alias.
abbrev pub make_track : Peer → ℕ → Bool → Peer × LocalTrack
make_track p id is_fetch =
    let (aliases, alias) = next_in_sequence p.track_aliases in
    (
      record p { track_aliases = aliases },
      record { request_id = id; track_alias = alias; is_fetch = is_fetch },
    )

module _ (env : Env) (accepts : List ControlMessage → ControlMessage → Bool) where
  -- s.addLocalTrack(lt)
  unfoldable pub add_track : Peer → LocalTrack → Peer × Option SessionError
  add_track p lt =
      let (s, e) = add_local_track env accepts p.session lt in (record p { session = s }, e)

  -- The end of onSubscribe, once the track is added.
  unfoldable pub serve_subscribe :
      Peer → LocalTrack → List SubscribeCall → Peer × Option SessionError
  serve_subscribe p lt calls =
      let (p', handled) = subscribe_writer env accepts p lt false calls in
      elim handled [
        | true ↦ (p', none)
        | false ↦ reject_subscription env accepts p' lt.request_id 0 unhandled_subscription
      ]

module _ (env : Env) (accepts : List ControlMessage → ControlMessage → Bool)
    (app : Application) where
  unfoldable pub on_subscribe : Peer → SubscribeMessage → Peer × Option SessionError
  on_subscribe p m =
      if invalid_length m.track_namespace
      then (p, some invalid_namespace_length)
      else (let (made, lt) = make_track p m.request_id false in
          let (p', e) = add_track env accepts made lt in
          elim e [
            | some e ↦ send env accepts p' (
                ControlMessage.subscribe_error (record {
                  request_id = lt.request_id;
                  error_code = refusal_code e;
                  reason_phrase = refusal_reason e;
                }))
            | none ↦ serve_subscribe env accepts p' lt (subscribe_calls app m)
          ])

  -- A duplicate is answered by rejectFetch, which looks for a pending track of that ID.
  unfoldable pub on_fetch : Peer → FetchMessage → Peer × Option SessionError
  on_fetch p m =
      if invalid_length m.track_namespace
      then (p, some invalid_namespace_length)
      else (let (made, lt) = make_track p m.request_id true in
          let (p', e) = add_track env accepts made lt in
          elim e [
            | some e ↦
                let (p'', rejected) = reject_fetch env accepts p' m.request_id 0x00 [] in
                (p'', elim rejected [ some e' ↦ some e' | none ↦ some e ])
            | none ↦
                let msg = record (message message_fetch) {
                  request_id = m.request_id;
                  namespace = m.track_namespace;
                  track = m.track_name;
                } in
                let (p'', handled) =
                  fetch_writer env accepts (notify p' msg) m.request_id false (app.handle msg) in
                elim handled [
                  | true ↦ (p'', none)
                  | false ↦ reject_fetch env accepts p'' m.request_id 0 unhandled_fetch
                ]
          ])

  unfoldable pub on_track_status_request :
      Peer → TrackStatusRequestMessage → Peer × Option SessionError
  on_track_status_request p m =
      if invalid_length m.track_namespace
      then (p, some invalid_namespace_length)
      else (let msg = record (message message_track_status_request) {
        namespace = m.track_namespace;
        track = m.track_name;
      } in
          let (p', ts, handled) =
            track_status_writer env accepts (notify p msg)
              (record {
                namespace = m.track_namespace;
                trackname = m.track_name;
                status_code = 0;
                last_group_id = 0;
                last_object_id = 0;
              })
              false (app.handle msg) in
          elim handled [
            | true ↦ (p', none)
            | false ↦ send_track_status env accepts p' (does_not_exist ts)
          ])

  unfoldable pub on_announce : Peer → AnnounceMessage → Peer × Option SessionError
  on_announce p m =
      if invalid_length m.track_namespace
      then (p, some invalid_namespace_length)
      else (let a : Announcement = record {
        request_id = m.request_id;
        namespace = m.track_namespace;
        parameters = m.parameters;
      } in
          let msg = record (message message_announce) {
            request_id = m.request_id;
            namespace = m.track_namespace;
          } in
          let added = record p { incoming_announcements = add p.incoming_announcements a } in
          let (p', handled) =
            announcement_writer env accepts (notify added msg) m.request_id false
              (app.handle msg) in
          elim handled [
            | true ↦ (p', none)
            | false ↦ reject_announcement env accepts p' m.request_id 0 unhandled_announcement
          ])

  unfoldable pub on_subscribe_announces :
      Peer → SubscribeAnnouncesMessage → Peer × Option SessionError
  on_subscribe_announces p m =
      let msg = record (message message_subscribe_announces) {
        request_id = m.request_id;
        namespace = m.track_namespace_prefix;
      } in
      let added = record p {
        pending_incoming_announcement_subscriptions =
            add_subscription p.pending_incoming_announcement_subscriptions
              (record { request_id = m.request_id; namespace = m.track_namespace_prefix });
      } in
      let (p', handled) =
        announcement_subscription_writer env accepts (notify added msg) m.request_id false
          (app.handle msg) in
      elim handled [
        | true ↦ (p', none)
        | false ↦
            reject_announcement_subscription env accepts p' m.request_id 0
              unhandled_announcement_subscription
      ]
