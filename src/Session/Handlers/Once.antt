-- ===== src/Session/Handlers/Once.antt =====
-- How often onSubscribe of session.go answers a SUBSCRIBE, whatever the application does.
use moqtransport_fec.Base.{
  ℕ, suc, ◌*◌, ◌/◌, ◌%◌, leb, ◌≤◌, ◌≡◌, ◌≢◌, refl, arith, Bool, true, false, List, [], ◌∷◌, none,
  inl, inr, Option-cases, Bool-cases,
}
use moqtransport_fec.Base.Assoc.{lookup}
use moqtransport_fec.Wire.Env.{Env}
use moqtransport_fec.Wire.Subscribe.{SubscribeMessage}
use moqtransport_fec.Wire.Message.{ControlMessage, subscribe_error, max_request_id}
use moqtransport_fec.Session.State.{Session, write_cases}
use moqtransport_fec.Session.LocalTracks.{LocalTrack}
use moqtransport_fec.Session.Texts.{unhandled_subscription}
use moqtransport_fec.Session.Ids.{u64_mod}
use moqtransport_fec.Session.Window.{add_local_track, raise_max}
use moqtransport_fec.Session.Peer.{Peer}
use moqtransport_fec.Session.Replies.{accept_subscription_with_options, reject_subscription, close}
use moqtransport_fec.Session.Writers.{
  SubscribeCall, accept_with, reject_with, close_with_error, subscribe_writer,
}
use moqtransport_fec.Session.Handlers.{
  Application, make_track, invalid_length, subscribe_calls, refusal_code, refusal_reason, add_track,
  serve_subscribe, on_subscribe,
}
use moqtransport_fec.Session.Handlers.Budget.{
  answers, budget, Answered, answers-append, answers_to-le, send_lem, accept-Answered,
  reject-Answered, close-budget, add_pending-open,
}

module _ (env : Env) (accepts : List ControlMessage → ControlMessage → Bool) (lt : LocalTrack) where
  -- The calls of an application, one after the other. Once one has answered, nothing is pending.
  writer-budget :
      (p : Peer) (handled : Bool) (calls : List SubscribeCall)
      → (handled ≡ true → lookup lt.request_id p.session.local_tracks.pending ≡ none)
      → (budget lt.request_id (subscribe_writer env accepts p lt handled calls).0.session
          ≤ budget lt.request_id p.session)
        × ((subscribe_writer env accepts p lt handled calls).1 ≡ true
            → lookup lt.request_id
                (subscribe_writer env accepts p lt handled calls).0.session.local_tracks.pending
              ≡ none)
  unfolding subscribe_writer
  writer-budget p handled [] h = (omega arith, h)
  writer-budget p handled (accept_with opts ∷ calls) h =
      let (less, gone) = accept-Answered env accepts lt.request_id p opts in
      let (less', gone') =
        writer-budget (accept_subscription_with_options env accepts p lt.request_id opts).0 true
          calls (λ _. gone) in
      (omega arith, gone')
  writer-budget p handled (reject_with code reason ∷ calls) h =
      let (less, gone) = reject-Answered env accepts lt.request_id p code reason in
      let (less', gone') =
        writer-budget (reject_subscription env accepts p lt.request_id code reason).0 true calls
          (λ _. gone) in
      (omega arith, gone')
  writer-budget p handled (close_with_error code reason ∷ calls) h =
      let (less, kept) = close-budget env accepts lt.request_id p lt code reason refl in
      let (less', gone') =
        writer-budget (close env accepts p lt code reason).0 handled calls (λ e. kept (h e)) in
      (omega arith, gone')

  -- Whatever the application calls, nothing is pending in the end.
  serve-Answered :
      (p : Peer) (calls : List SubscribeCall)
      → Answered env accepts lt.request_id p (serve_subscribe env accepts p lt calls).0
  unfolding serve_subscribe
  serve-Answered p calls =
      let (less, gone) = writer-budget p false calls (λ e. cc) in
      elim (Bool-cases (subscribe_writer env accepts p lt false calls).1) [
        | inl e ↦ rw (serve_subscribe, e) (less, gone e)
        | inr e ↦
            let p' = (subscribe_writer env accepts p lt false calls).0 in
            let (less', gone') =
              reject-Answered env accepts lt.request_id p' 0 unhandled_subscription in
            rw (serve_subscribe, e) (omega arith, gone')
      ]

  -- The message that raises the maximum is no answer.
  raise_max-answers :
      (s : Session) (id : ℕ)
      → ((raise_max env accepts s id).local_tracks ≡ s.local_tracks)
        × (answers lt.request_id (raise_max env accepts s id).sent ≤ answers lt.request_id s.sent)
  unfolding raise_max
  raise_max-answers s id =
      let raised = record s { local_max_request_id = 2 * s.local_max_request_id % u64_mod } in
      let msg = max_request_id (record { request_id = 2 * s.local_max_request_id % u64_mod }) in
      elim (Bool-cases (leb (s.local_max_request_id / 2) id)) [
        | inr e ↦ rw e (refl, omega arith)
        | inl e ↦ elim (write_cases env accepts raised msg) [
          | inl w ↦ rw (e, w) (refl, omega (arith, answers-append lt.request_id s.sent msg))
          | inr (inl w) ↦ rw (e, w) (refl, omega arith)
          | inr (inr w) ↦ rw (e, w) (refl, omega arith)
        ]
      ]

  -- A track that is added opens one answer at most, and none if it is refused.
  add_track-budget :
      (p : Peer)
      → lookup lt.request_id p.session.local_tracks.pending ≡ none
      → (budget lt.request_id (add_track env accepts p lt).0.session
          ≤ suc (answers lt.request_id p.session.sent))
        × ((add_track env accepts p lt).1 ≢ none
            → (lookup lt.request_id (add_track env accepts p lt).0.session.local_tracks.pending
                ≡ none)
              × (answers lt.request_id (add_track env accepts p lt).0.session.sent
                  ≤ answers lt.request_id p.session.sent))
  unfolding add_track add_local_track budget
  add_track-budget p h =
      let s = p.session in
      let (same, more) = raise_max-answers s lt.request_id in
      let (full, kept) = add_pending-open s.local_tracks lt h in
      elim (Bool-cases (leb s.local_max_request_id lt.request_id)) [
        | inl e ↦ rw e (rw h (omega arith), λ _. (h, omega arith))
        | inr e ↦ rw (e, same) (omega arith, λ refused. (kept (ground arith), more))
      ]

-- A SUBSCRIBE whose request ID is not pending is answered at most once, by a SUBSCRIBE_OK or a
-- SUBSCRIBE_ERROR, and its request is not pending afterwards: whatever the application calls on the
-- response writer, however often and in whatever order, and whether or not the messages can be
-- written.
pub on_subscribe-answers :
    (env : Env) (accepts : List ControlMessage → ControlMessage → Bool) (app : Application)
    (p : Peer) (m : SubscribeMessage)
    → lookup m.request_id p.session.local_tracks.pending ≡ none
    → (lookup m.request_id (on_subscribe env accepts app p m).0.session.local_tracks.pending ≡ none)
      × (answers m.request_id (on_subscribe env accepts app p m).0.session.sent
          ≤ suc (answers m.request_id p.session.sent))
unfolding on_subscribe budget
on_subscribe-answers env accepts app p m h =
    let (made, lt) = make_track p m.request_id false in
    let (full, refused) = add_track-budget env accepts lt made h in
    let p' = (add_track env accepts made lt).0 in
    elim (Bool-cases (invalid_length m.track_namespace)) [
      | inl bad ↦ rw bad (h, omega arith)
      | inr good ↦ rw good (elim (Option-cases (add_track env accepts made lt).1) [
        | inl e ↦
            let (less, gone) = serve-Answered env accepts lt p' (subscribe_calls app m) in
            rw e (gone, omega arith)
        | inr (e, found) ↦
            let (none_pending, none_sent) = refused (λ q. cc) in
            let msg = subscribe_error (record {
              request_id = lt.request_id;
              error_code = refusal_code e;
              reason_phrase = refusal_reason e;
            }) in
            let (same, more) = send_lem env accepts lt.request_id p' msg in
            rw (found, same) (none_pending, omega (arith, answers_to-le lt.request_id msg))
      ])
    ]
