-- ===== src/Session/Announcing.antt =====
-- Announce, Unannounce, AnnounceCancel, SubscribeAnnouncements, UnsubscribeAnnouncements and
-- RequestTrackStatus of session.go, in two functions where the call waits for an answer. The channel
-- of a request is empty after the answer is read.
pub mod Agreement
use moqtransport_fec.Base.{ℕ, Bool, true, false, List, [], Option, none, some, ◌⊎◌, inl, inr}
use moqtransport_fec.Base.Assoc.{delete}
use moqtransport_fec.Wire.Env.{Env}
use moqtransport_fec.Wire.Message.{ControlMessage}
use moqtransport_fec.Session.Errors.{SessionError, unknown_announcement_namespace}
use moqtransport_fec.Session.Announcements.{
  Ranging, Announcement, AnnouncementSubscription, TrackStatusRequest, add, delete_namespace,
  reject, add_subscription, delete_subscription, delete_by_id, add_request, delete_request,
}
use moqtransport_fec.Session.Peer.{Answer, Peer, send}
use moqtransport_fec.Session.Requests.{Wakeup, context_done, response, take_request_id}

module _ (env : Env) (accepts : List ControlMessage → ControlMessage → Bool) where
  -- The request ID, or the error.
  unfoldable pub announce : Peer → List (List ℕ) → Peer × (SessionError ⊎ ℕ)
  announce p namespace =
      let (p', taken) = take_request_id env accepts p in
      elim taken [
        | inl e ↦ (p', inl e)
        | inr id ↦
            let a : Announcement = record {
              request_id = id;
              namespace = namespace;
              parameters = [];
            } in
            let (p'', e) =
              send env accepts
                (record p' { outgoing_announcements = add p'.outgoing_announcements a })
                (ControlMessage.announce
                  (record { request_id = id; track_namespace = namespace; parameters = [] })) in
            elim e [
              | some e ↦ (
                record p'' { outgoing_announcements = (reject p''.outgoing_announcements id).0 },
                inl e,
              )
              | none ↦ (p'', inr id)
            ]
      ]

  -- A namespace that was announced is refused, and one that was not is sent.
  unfoldable pub unannounce :
      Ranging Announcement → Peer → List (List ℕ) → Peer × Option SessionError
  unannounce r p namespace =
      let (left, removed) = delete_namespace r p.outgoing_announcements namespace in
      let p' = record p { outgoing_announcements = left } in
      elim removed [
        | true ↦ (p', some unknown_announcement_namespace)
        | false ↦
            send env accepts p' (ControlMessage.unannounce (record { track_namespace = namespace }))
      ]

  unfoldable pub announce_cancel :
      Ranging Announcement → Peer → List (List ℕ) → ℕ → List ℕ → Peer × Option SessionError
  announce_cancel r p namespace error_code reason =
      let (left, removed) = delete_namespace r p.incoming_announcements namespace in
      let p' = record p { incoming_announcements = left } in
      elim removed [
        | false ↦ (p', some unknown_announcement_namespace)
        | true ↦ send env accepts p' (
            ControlMessage.announce_cancel (record {
              track_namespace = namespace;
              error_code = error_code;
              reason_phrase = reason;
            }))
      ]

  unfoldable pub subscribe_announcements : Peer → List (List ℕ) → Peer × (SessionError ⊎ ℕ)
  subscribe_announcements p prefix =
      let (p', taken) = take_request_id env accepts p in
      elim taken [
        | inl e ↦ (p', inl e)
        | inr id ↦
            let added = record p' {
              pending_outgoing_announcement_subscriptions =
                  add_subscription p'.pending_outgoing_announcement_subscriptions
                    (record { request_id = id; namespace = prefix });
            } in
            let (p'', e) = send env accepts added (
              ControlMessage.subscribe_announces
                (record { request_id = id; track_namespace_prefix = prefix; parameters = [] })) in
            elim e [
              | some e ↦ (
                record p'' {
                  pending_outgoing_announcement_subscriptions =
                      (delete_by_id p''.pending_outgoing_announcement_subscriptions id).0;
                },
                inl e,
              )
              | none ↦ (p'', inr id)
            ]
      ]

  unfoldable pub unsubscribe_announcements :
      Ranging AnnouncementSubscription → Peer → List (List ℕ) → Peer × Option SessionError
  unsubscribe_announcements r p namespace =
      send env accepts
        (record p {
          pending_outgoing_announcement_subscriptions =
              (delete_subscription r p.pending_outgoing_announcement_subscriptions namespace).0;
        })
        (ControlMessage.unsubscribe_announces (record { track_namespace_prefix = namespace }))

  -- The message is sent without the request ID.
  unfoldable pub request_track_status : Peer → List (List ℕ) → List ℕ → Peer × (SessionError ⊎ ℕ)
  request_track_status p namespace track =
      let (p', taken) = take_request_id env accepts p in
      elim taken [
        | inl e ↦ (p', inl e)
        | inr id ↦
            let tsr : TrackStatusRequest = record {
              request_id = id;
              namespace = namespace;
              trackname = track;
            } in
            let (p'', e) =
              send env accepts
                (record p' {
                  outgoing_track_status_requests =
                      add_request p'.outgoing_track_status_requests tsr;
                })
                (ControlMessage.track_status_request (record {
                  request_id = 0;
                  track_namespace = namespace;
                  track_name = track;
                  parameters = [];
                })) in
            elim e [
              | some e ↦ (
                record p'' {
                  outgoing_track_status_requests =
                      (delete_request p''.outgoing_track_status_requests 0).0;
                },
                inl e,
              )
              | none ↦ (p'', inr id)
            ]
      ]

-- The end of the calls that wait: what they return is what the channel brought.
unfoldable pub wait_end : Peer → ℕ → Wakeup → Peer × Option Answer
wait_end p id w = elim w [
  | context_done ↦ (p, none)
  | response a ↦ (record p { responses = delete id p.responses }, some a)
]
