-- ===== src/Session/Answers/Aliases.antt =====
-- Track aliases between the peers: SUBSCRIBE_OK as session.go sends it and as it takes it.
use moqtransport_fec.Base.{
  ℕ, ◌≡◌, ◌≢◌, refl, ap, ◌∙◌, arith, Bool, List, [], ◌∷◌, ◌++◌, Option, none, some, ◌⊎◌, inl, inr,
  Option-cases, Bool-cases, ==-refl,
}
use moqtransport_fec.Base.Assoc.{lookup, lookup-insert, lookup-delete}
use moqtransport_fec.Wire.Env.{Env}
use moqtransport_fec.Wire.SubscribeOk.{SubscribeOkMessage}
use moqtransport_fec.Wire.Message.{ControlMessage}
use moqtransport_fec.Session.Errors.{SessionError, duplicate_track_alias_bug}
use moqtransport_fec.Session.State.{write_cases}
use moqtransport_fec.Session.LocalTracks.{confirm}
use moqtransport_fec.Session.RemoteTracks.{
  RemoteTrack, RemoteTrackMap, set_alias, find_by_track_alias, find_by_request_id,
}
use moqtransport_fec.Session.RemoteTracks as RemoteTracks
use moqtransport_fec.Session.Peer.{
  Peer, Answer, RemoteState, accepted, remote_state, change_remote, send,
}
use moqtransport_fec.Session.Replies.{
  close_remote, fetch_cancel, unsubscribe, SubscribeOkOptions, subscribe_ok_of,
  accept_subscription_with_options,
}
use moqtransport_fec.Session.Answers.{on_subscribe_ok, respond, subscribed, offer_response}

remote_state-change :
    (p : Peer) (address : ℕ) (f : RemoteState → RemoteState)
    → remote_state (change_remote p address f) address ≡ f (remote_state p address)
unfolding remote_state change_remote
remote_state-change p address f =
    rw
      (
        remote_state,
        change_remote,
        lookup-insert address address (f (remote_state p address)) p.remote_states,
        ==-refl address,
      )
      refl

offer_response-accepted :
    (t : RemoteState) (a : Answer)
    → t.response_chan ≡ none
    → (offer_response a t).response_chan ≡ some a
unfolding offer_response
offer_response-accepted t a h = rw (offer_response, h) refl

subscribed-response :
    (m : SubscribeOkMessage) (t : RemoteState) → (subscribed m t).response_chan ≡ t.response_chan
unfolding subscribed
subscribed-response m t = refl

change_remote-tracks :
    (p : Peer) (address : ℕ) (f : RemoteState → RemoteState)
    → (change_remote p address f).remote_tracks ≡ p.remote_tracks
unfolding change_remote
change_remote-tracks p address f = refl

-- The map after the two calls of onSubscribeOk.
abbrev aliased : RemoteTrackMap → ℕ → ℕ → RemoteTrackMap × Option SessionError
aliased m id alias = set_alias (RemoteTracks.confirm m id).0 id alias

-- A pending subscription under an alias that is not in use.
aliased_lem :
    (m : RemoteTrackMap) (id alias : ℕ) (rt : RemoteTrack)
    → lookup id m.pending ≡ some rt
    → lookup alias m.track_alias_to_request_id ≡ none
    → ((aliased m id alias).1 ≡ none) × (find_by_track_alias (aliased m id alias).0 alias ≡ some rt)
unfolding RemoteTracks.confirm set_alias find_by_track_alias find_by_request_id
aliased_lem m id alias rt there free = ground (
  arith,
  lookup-insert alias alias id m.track_alias_to_request_id,
  lookup-insert id id rt m.opened,
)

-- Two pending subscriptions under one alias.
aliased_twice :
    (m : RemoteTrackMap) (id id' alias : ℕ) (rt rt' : RemoteTrack)
    → lookup id m.pending ≡ some rt
    → lookup id' m.pending ≡ some rt'
    → id ≢ id'
    → ((RemoteTracks.confirm (aliased m id alias).0 id').1 ≡ inr rt')
      × ((aliased (aliased m id alias).0 id' alias).1 ≡ some duplicate_track_alias_bug)
unfolding RemoteTracks.confirm set_alias
aliased_twice m id id' alias rt rt' there there' n = ground (
  arith,
  lookup-insert alias alias id m.track_alias_to_request_id,
  lookup-delete id id' m.pending,
)

confirm_lem :
    (m : RemoteTrackMap) (id : ℕ) (rt : RemoteTrack)
    → lookup id m.pending ≡ some rt
    → (RemoteTracks.confirm m id).1 ≡ inr rt
unfolding RemoteTracks.confirm
confirm_lem m id rt there = rw (RemoteTracks.confirm, there) refl

module _ (env : Env) (accepts : List ControlMessage → ControlMessage → Bool) where
  send-tracks :
      (p : Peer) (msg : ControlMessage) → (send env accepts p msg).0.remote_tracks ≡ p.remote_tracks
  unfolding send
  send-tracks p msg = refl

  close_remote-tracks :
      (p : Peer) (id : ℕ) (t : RemoteState)
      → (close_remote env accepts p id t).0.remote_tracks ≡ p.remote_tracks
  unfolding close_remote fetch_cancel unsubscribe
  close_remote-tracks p id t = elim (Bool-cases t.is_fetch) [
    | inl e ↦ rw (close_remote, e) (send-tracks p _)
    | inr e ↦ rw (close_remote, e) (send-tracks p _)
  ]

  respond-tracks :
      (p : Peer) (rt : RemoteTrack) → (respond env accepts p rt).remote_tracks ≡ p.remote_tracks
  unfolding respond
  respond-tracks p rt = elim (Option-cases (remote_state p rt.address).response_chan) [
    | inl e ↦ rw (respond, e) (change_remote-tracks p rt.address (offer_response accepted))
    | inr (a, e) ↦ rw (respond, e) (close_remote-tracks p rt.request_id (remote_state p rt.address))
  ]

  respond-response :
      (p : Peer) (rt : RemoteTrack)
      → (remote_state p rt.address).response_chan ≡ none
      → (remote_state (respond env accepts p rt) rt.address).response_chan ≡ some accepted
  unfolding respond
  respond-response p rt h =
      rw (respond, h)
        (rw (remote_state-change p rt.address (offer_response accepted))
          (offer_response-accepted (remote_state p rt.address) accepted h))

  -- A SUBSCRIBE_OK for a pending subscription, with an alias that is not in use: the subscription is
  -- known by the alias afterwards, and the waiting call is told.
  pub on_subscribe_ok_lem :
      (p : Peer) (m : SubscribeOkMessage) (rt : RemoteTrack)
      → lookup m.request_id p.remote_tracks.pending ≡ some rt
      → lookup m.track_alias p.remote_tracks.track_alias_to_request_id ≡ none
      → (remote_state p rt.address).response_chan ≡ none
      → ((on_subscribe_ok env accepts p m).1 ≡ none)
        × (find_by_track_alias (on_subscribe_ok env accepts p m).0.remote_tracks m.track_alias
            ≡ some rt)
        × ((remote_state (on_subscribe_ok env accepts p m).0 rt.address).response_chan
            ≡ some accepted)
  unfolding on_subscribe_ok
  on_subscribe_ok_lem p m rt there free waiting =
      let found = confirm_lem p.remote_tracks m.request_id rt there in
      let (set, known) = aliased_lem p.remote_tracks m.request_id m.track_alias rt there free in
      let m' = (aliased p.remote_tracks m.request_id m.track_alias).0 in
      let q = change_remote (record p { remote_tracks = m' }) rt.address (subscribed m) in
      let empty : (remote_state q rt.address).response_chan ≡ none =
        ap (λ (t : RemoteState). t.response_chan)
          (remote_state-change (record p { remote_tracks = m' }) rt.address (subscribed m))
        ∙ (subscribed-response m (remote_state (record p { remote_tracks = m' }) rt.address)
            ∙ unfold remote_state in waiting) in
      rw (on_subscribe_ok, found)
        (rw set (
          refl,
          ap (λ (l : RemoteTrackMap). find_by_track_alias l m.track_alias)
                (respond-tracks q rt
                  ∙ change_remote-tracks (record p { remote_tracks = m' }) rt.address
                      (subscribed m))
              ∙ known,
          respond-response q rt empty,
        ))

  on_subscribe_ok-tracks :
      (p : Peer) (m : SubscribeOkMessage) (rt : RemoteTrack)
      → (RemoteTracks.confirm p.remote_tracks m.request_id).1 ≡ inr rt
      → (on_subscribe_ok env accepts p m).0.remote_tracks
        ≡ (aliased p.remote_tracks m.request_id m.track_alias).0
  unfolding on_subscribe_ok
  on_subscribe_ok-tracks p m rt found =
      let m' = (aliased p.remote_tracks m.request_id m.track_alias).0 in
      let q = record p { remote_tracks = m' } in
      elim (Option-cases (aliased p.remote_tracks m.request_id m.track_alias).1) [
        | inl e ↦
            rw (on_subscribe_ok, found)
              (rw e (
                respond-tracks (change_remote q rt.address (subscribed m)) rt
                ∙ change_remote-tracks q rt.address (subscribed m)))
        | inr (err, e) ↦ rw (on_subscribe_ok, found) (rw e refl)
      ]

  on_subscribe_ok-refused :
      (p : Peer) (m : SubscribeOkMessage) (rt : RemoteTrack) (e : SessionError)
      → (RemoteTracks.confirm p.remote_tracks m.request_id).1 ≡ inr rt
      → (aliased p.remote_tracks m.request_id m.track_alias).1 ≡ some e
      → (on_subscribe_ok env accepts p m).1 ≡ some e
  unfolding on_subscribe_ok
  on_subscribe_ok-refused p m rt e found set = rw (on_subscribe_ok, found) (rw set refl)

  -- What is sent where a subscription is accepted: nothing, or the message for it.
  accept-sent :
      (q : Peer) (id : ℕ) (opts : SubscribeOkOptions)
      → ((accept_subscription_with_options env accepts q id opts).0.session.sent ≡ q.session.sent)
        ⊎ ((accept_subscription_with_options env accepts q id opts).0.session.sent
            ≡ q.session.sent ++ (ControlMessage.subscribe_ok (subscribe_ok_of id opts) ∷ []))
  unfolding accept_subscription_with_options send
  accept-sent q id opts = elim (Option-cases (confirm q.session.local_tracks id).1) [
    | inl e ↦ inl (rw (accept_subscription_with_options, e) refl)
    | inr (lt, e) ↦
        let s = record q.session { local_tracks = (confirm q.session.local_tracks id).0 } in
        let msg = ControlMessage.subscribe_ok (subscribe_ok_of id opts) in
        elim (write_cases env accepts s msg) [
          | inl w ↦ inr (rw (accept_subscription_with_options, e, w) refl)
          | inr (inl w) ↦ inl (rw (accept_subscription_with_options, e, w) refl)
          | inr (inr w) ↦ inl (rw (accept_subscription_with_options, e, w) refl)
        ]
  ]

  -- A publisher that accepts a subscription sends one message or none: the SUBSCRIBE_OK with the
  -- alias 0, whatever the alias of the local track. A subscriber with two pending subscriptions that
  -- takes this message for each of them ends with the error for a duplicate alias.
  pub second_subscribe_ok :
      (p q : Peer) (id id' : ℕ) (rt rt' : RemoteTrack) (opts opts' : SubscribeOkOptions)
      → lookup id p.remote_tracks.pending ≡ some rt
      → lookup id' p.remote_tracks.pending ≡ some rt'
      → id ≢ id'
      → ((subscribe_ok_of id opts).track_alias ≡ 0)
        × (((accept_subscription_with_options env accepts q id opts).0.session.sent
              ≡ q.session.sent)
            ⊎ ((accept_subscription_with_options env accepts q id opts).0.session.sent
                ≡ q.session.sent ++ (ControlMessage.subscribe_ok (subscribe_ok_of id opts) ∷ [])))
        × ((on_subscribe_ok env accepts
              (on_subscribe_ok env accepts p (subscribe_ok_of id opts)).0
              (subscribe_ok_of id' opts')).1
            ≡ some duplicate_track_alias_bug)
  second_subscribe_ok p q id id' rt rt' opts opts' there there' n =
      let m = subscribe_ok_of id opts in
      let m' = subscribe_ok_of id' opts' in
      let same = on_subscribe_ok-tracks p m rt (confirm_lem p.remote_tracks id rt there) in
      let (found, refused) = aliased_twice p.remote_tracks id id' 0 rt rt' there there' n in
      (
        refl,
        accept-sent q id opts,
        on_subscribe_ok-refused (on_subscribe_ok env accepts p m).0 m' rt' duplicate_track_alias_bug
            (ap (λ (l : RemoteTrackMap). (RemoteTracks.confirm l id').1) same ∙ found)
            (ap (λ (l : RemoteTrackMap). (aliased l id' 0).1) same ∙ refused),
      )
