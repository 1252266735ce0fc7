-- ===== src/Session/Writers.antt =====
-- The response writers: subscribe_response_writer.go, fetch_response_writer.go,
-- announcement_response_writer.go, announcement_subscription_response_writer.go and
-- track_status_response_writer.go. What an application does with a writer is a list of calls; the
-- errors that they return are its own affair, and a list stands for whatever it does about them.
use moqtransport_fec.Base.{ℕ, Bool, true, List, [], ◌∷◌}
use moqtransport_fec.Wire.Env.{Env}
use moqtransport_fec.Wire.Message.{ControlMessage}
use moqtransport_fec.Session.LocalTracks.{LocalTrack}
use moqtransport_fec.Session.Peer.{Peer, TrackStatus}
use moqtransport_fec.Session.Replies.{
  SubscribeOkOptions, accept_subscription_with_options, reject_subscription, close, accept_fetch,
  reject_fetch, send_track_status, accept_announcement, reject_announcement,
  accept_announcement_subscription, reject_announcement_subscription,
}

-- What is called on a SubscribeResponseWriter.
pub data SubscribeCall : Type 0 where
  accept_with : SubscribeOkOptions → SubscribeCall
  reject_with : ℕ → List ℕ → SubscribeCall
  close_with_error : ℕ → List ℕ → SubscribeCall

-- What is called on the other writers; `set_status` on that of a track status request only.
pub data Call : Type 0 where
  accept : Call
  reject_for : ℕ → List ℕ → Call
  set_status : ℕ → ℕ → ℕ → Call

-- TrackStatusDoesNotExist
abbrev pub does_not_exist : TrackStatus → TrackStatus
does_not_exist ts = record ts { status_code = 0x01; last_group_id = 0; last_object_id = 0 }

module _ (env : Env) (accepts : List ControlMessage → ControlMessage → Bool) where
  -- The calls on a writer, with the flag `handled` after them.
  unfoldable pub subscribe_writer : Peer → LocalTrack → Bool → List SubscribeCall → Peer × Bool
  subscribe_writer p lt handled [] = (p, handled)
  subscribe_writer p lt handled (accept_with opts ∷ calls) =
      subscribe_writer (accept_subscription_with_options env accepts p lt.request_id opts).0 lt true
        calls
  subscribe_writer p lt handled (reject_with code reason ∷ calls) =
      subscribe_writer (reject_subscription env accepts p lt.request_id code reason).0 lt true calls
  subscribe_writer p lt handled (close_with_error code reason ∷ calls) =
      subscribe_writer (close env accepts p lt code reason).0 lt handled calls

  unfoldable pub fetch_writer : Peer → ℕ → Bool → List Call → Peer × Bool
  fetch_writer p id handled [] = (p, handled)
  fetch_writer p id handled (accept ∷ calls) =
      fetch_writer (accept_fetch env accepts p id).0 id true calls
  fetch_writer p id handled (reject_for code reason ∷ calls) =
      fetch_writer (reject_fetch env accepts p id code reason).0 id true calls
  fetch_writer p id handled (set_status _ _ _ ∷ calls) = fetch_writer p id handled calls

  unfoldable pub announcement_writer : Peer → ℕ → Bool → List Call → Peer × Bool
  announcement_writer p id handled [] = (p, handled)
  announcement_writer p id handled (accept ∷ calls) =
      announcement_writer (accept_announcement env accepts p id).0 id true calls
  announcement_writer p id handled (reject_for code reason ∷ calls) =
      announcement_writer (reject_announcement env accepts p id code reason).0 id true calls
  announcement_writer p id handled (set_status _ _ _ ∷ calls) =
      announcement_writer p id handled calls

  unfoldable pub announcement_subscription_writer : Peer → ℕ → Bool → List Call → Peer × Bool
  announcement_subscription_writer p id handled [] = (p, handled)
  announcement_subscription_writer p id handled (accept ∷ calls) =
      announcement_subscription_writer (accept_announcement_subscription env accepts p id).0 id true
        calls
  announcement_subscription_writer p id handled (reject_for code reason ∷ calls) =
      announcement_subscription_writer
        (reject_announcement_subscription env accepts p id code reason).0 id true calls
  announcement_subscription_writer p id handled (set_status _ _ _ ∷ calls) =
      announcement_subscription_writer p id handled calls

  unfoldable pub track_status_writer :
      Peer → TrackStatus → Bool → List Call → Peer × TrackStatus × Bool
  track_status_writer p ts handled [] = (p, ts, handled)
  track_status_writer p ts handled (accept ∷ calls) =
      track_status_writer (send_track_status env accepts p ts).0 ts true calls
  track_status_writer p ts handled (reject_for _ _ ∷ calls) =
      track_status_writer (send_track_status env accepts p (does_not_exist ts)).0
        (does_not_exist ts) true calls
  track_status_writer p ts handled (set_status code group object ∷ calls) =
      track_status_writer p
        (record ts { status_code = code; last_group_id = group; last_object_id = object }) handled
        calls
