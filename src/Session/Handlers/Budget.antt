-- ===== src/Session/Handlers/Budget.antt =====
-- How many answers to a SUBSCRIBE may still be sent: what the calls of subscribe_response_writer.go
-- leave of them.
use moqtransport_fec.Base.{
  ℕ, ◌+◌, ◌≤◌, ◌≡◌, refl, ap, ◌∙◌, arith, Bool, false, ◌==◌, List, [], ◌∷◌, ◌++◌, Option, none,
  some, inl, inr, Option-cases, Bool-cases, if◌then◌else◌,
}
use moqtransport_fec.Base.Assoc.{lookup, lookup-delete}
use moqtransport_fec.Wire.Env.{Env}
use moqtransport_fec.Wire.Message.{ControlMessage, subscribe_ok, subscribe_error, subscribe_done}
use moqtransport_fec.Session.State.{Session, write_cases}
use moqtransport_fec.Session.LocalTracks.{
  LocalTrack, LocalTrackMap, confirm, reject, delete_track, find_by_id, add_pending,
}
use moqtransport_fec.Session.Tracks.{cancel, subscription_done}
use moqtransport_fec.Session.Peer.{Peer, send, change_local, set_local_tracks}
use moqtransport_fec.Session.Replies.{
  SubscribeOkOptions, accept_subscription_with_options, reject_subscription, send_subscription_done,
  close,
}

-- A SUBSCRIBE_OK or a SUBSCRIBE_ERROR for the request.
abbrev pub answers_to : ℕ → ControlMessage → ℕ
answers_to id (subscribe_ok m) = if m.request_id == id then 1 else 0
answers_to id (subscribe_error m) = if m.request_id == id then 1 else 0
answers_to id _ = 0

unfoldable pub answers : ℕ → List ControlMessage → ℕ
answers id [] = 0
answers id (msg ∷ msgs) = answers_to id msg + answers id msgs

pub answers-append :
    (id : ℕ) (msgs : List ControlMessage) (msg : ControlMessage)
    → answers id (msgs ++ (msg ∷ [])) ≡ answers id msgs + answers_to id msg
unfolding answers
answers-append id [] msg = omega arith
answers-append id (m ∷ msgs) msg = omega (arith, answers-append id msgs msg)

pub answers_to-le : (id : ℕ) (msg : ControlMessage) → answers_to id msg ≤ 1
answers_to-le id msg = ground arith

-- A pending request may still be answered once.
abbrev pub open_request : Option LocalTrack → ℕ
open_request none = 0
open_request (some _) = 1

unfoldable pub budget : ℕ → Session → ℕ
budget id s = answers id s.sent + open_request (lookup id s.local_tracks.pending)

confirm-gone : (m : LocalTrackMap) (id : ℕ) → lookup id (confirm m id).0.pending ≡ none
unfolding confirm
confirm-gone m id = ground (arith, lookup-delete id id m.pending)

reject-gone : (m : LocalTrackMap) (id : ℕ) → lookup id (reject m id).0.pending ≡ none
unfolding reject
reject-gone m id = ground (arith, lookup-delete id id m.pending)

delete_track-open :
    (m : LocalTrackMap) (id : ℕ)
    → open_request (lookup id (delete_track m id).0.pending) ≤ open_request (lookup id m.pending)
unfolding delete_track find_by_id
delete_track-open m id = ground (arith, lookup-delete id id m.pending)

pub add_pending-open :
    (m : LocalTrackMap) (lt : LocalTrack)
    → lookup lt.request_id m.pending ≡ none
    → (open_request (lookup lt.request_id (add_pending m lt).0.pending) ≤ 1)
      × ((add_pending m lt).1 ≡ false → lookup lt.request_id (add_pending m lt).0.pending ≡ none)
unfolding add_pending
add_pending-open m lt h = ground arith

none-closed : (o : Option LocalTrack) → open_request o ≤ 0 → o ≡ none
none-closed none h = refl
none-closed (some lt) h = absurd (omega arith)

module _ (env : Env) (accepts : List ControlMessage → ControlMessage → Bool) (id : ℕ) where
  -- A message leaves the tracks alone, and answers the request once at most.
  pub send_lem :
      (p : Peer) (msg : ControlMessage)
      → ((send env accepts p msg).0.session.local_tracks ≡ p.session.local_tracks)
        × (answers id (send env accepts p msg).0.session.sent
            ≤ answers id p.session.sent + answers_to id msg)
  unfolding send
  send_lem p msg = elim (write_cases env accepts p.session msg) [
    | inl e ↦ rw e (refl, omega (arith, answers-append id p.session.sent msg))
    | inr (inl e) ↦ rw e (refl, omega arith)
    | inr (inr e) ↦ rw e (refl, omega arith)
  ]

  -- What a call leaves: no more answers than were open, and nothing pending.
  abbrev pub Answered : Peer → Peer → Type 0
  Answered p p' =
      (budget id p'.session ≤ budget id p.session)
      × (lookup id p'.session.local_tracks.pending ≡ none)

  -- A message that is sent for a pending request after it was taken off the map.
  send-Answered :
      (p : Peer) (m : LocalTrackMap) (lt : LocalTrack) (msg : ControlMessage)
      → lookup id p.session.local_tracks.pending ≡ some lt
      → lookup id m.pending ≡ none
      → Answered p (send env accepts (set_local_tracks p m) msg).0
  unfolding budget
  send-Answered p m lt msg there gone =
      let (same, more) = send_lem (set_local_tracks p m) msg in
      let closed : lookup id
            (send env accepts (set_local_tracks p m) msg).0.session.local_tracks.pending
          ≡ none =
        ap (λ (l : LocalTrackMap). lookup id l.pending) same ∙ gone in
      (rw (closed, there) (omega (arith, answers_to-le id msg)), closed)

  pub accept-Answered :
      (p : Peer) (opts : SubscribeOkOptions)
      → Answered p (accept_subscription_with_options env accepts p id opts).0
  unfolding accept_subscription_with_options confirm
  accept-Answered p opts = elim (Option-cases (lookup id p.session.local_tracks.pending)) [
    | inl e ↦ rw (accept_subscription_with_options, confirm, e) (omega arith, e)
    | inr (lt, e) ↦
        rw (accept_subscription_with_options, confirm, e)
          (send-Answered p _ lt _ e (confirm-gone p.session.local_tracks id))
  ]

  pub reject-Answered :
      (p : Peer) (code : ℕ) (reason : List ℕ)
      → Answered p (reject_subscription env accepts p id code reason).0
  unfolding reject_subscription reject
  reject-Answered p code reason = elim (Option-cases (lookup id p.session.local_tracks.pending)) [
    | inl e ↦ rw (reject_subscription, reject, e) (omega arith, e)
    | inr (lt, e) ↦
        rw (reject_subscription, reject, e)
          (send-Answered p _ lt _ e (reject-gone p.session.local_tracks id))
  ]

  -- What a close leaves: no more answers than were open.
  done-budget :
      (p : Peer) (code count : ℕ) (reason : List ℕ)
      → (budget id (send_subscription_done env accepts p id code count reason).0.session
          ≤ budget id p.session)
        × (lookup id p.session.local_tracks.pending ≡ none
            → lookup id
                (send_subscription_done env accepts p id code count
                  reason).0.session.local_tracks.pending
              ≡ none)
  unfolding send_subscription_done budget
  done-budget p code count reason = elim (Option-cases (delete_track p.session.local_tracks id).1) [
    | inl e ↦ rw (send_subscription_done, e) (omega arith, λ h. h)
    | inr (lt, e) ↦
        let msg = subscribe_done (record {
          request_id = lt.request_id;
          status_code = code;
          stream_count = count;
          reason_phrase = reason;
        }) in
        let m = (delete_track p.session.local_tracks id).0 in
        let (same, more) = send_lem (set_local_tracks p m) msg in
        rw (send_subscription_done, e, same)
          (
            omega (arith, more, delete_track-open p.session.local_tracks id),
            λ h.
                none-closed _
                  (omega (arith, delete_track-open p.session.local_tracks id, ap open_request h)),
          )
  ]

  pub close-budget :
      (p : Peer) (lt : LocalTrack) (code : ℕ) (reason : List ℕ)
      → lt.request_id ≡ id
      → (budget id (close env accepts p lt code reason).0.session ≤ budget id p.session)
        × (lookup id p.session.local_tracks.pending ≡ none
            → lookup id (close env accepts p lt code reason).0.session.local_tracks.pending ≡ none)
  unfolding close change_local
  close-budget p lt code reason own = elim (Bool-cases lt.is_fetch) [
    | inl f ↦ rw (close, f) (omega arith, λ h. h)
    | inr f ↦
        rw (close, f, own)
          (done-budget (change_local p lt.track_alias (cancel subscription_done)) code _ reason)
  ]
