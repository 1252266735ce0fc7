-- ===== src/Session/Announcing/Agreement.antt =====
-- An announcement from one session to another: Announce, onAnnounce and onAnnounceOk of session.go.
use moqtransport_fec.Base.{
  ℕ, ◌≡◌, refl, sym, ap, ◌∙◌, arith, Bool, true, false, List, [], ◌∷◌, ◌++◌, Option, none, some,
  ◌⊎◌, inl, inr, Option-cases,
}
use moqtransport_fec.Base.Assoc.{lookup, lookup-insert, lookup-delete}
use moqtransport_fec.Wire.Env.{Env}
use moqtransport_fec.Wire.Announce.{AnnounceMessage}
use moqtransport_fec.Wire.Message.{ControlMessage}
use moqtransport_fec.Session.Errors.{SessionError, write_failed}
use moqtransport_fec.Session.State.{Session, write, write_cases}
use moqtransport_fec.Session.Announcements.{Announcement, AnnouncementMap, add, confirm_and_get}
use moqtransport_fec.Session.Peer.{
  message, message_announce, Peer, Message, notify, Answer, accepted, send, offer,
}
use moqtransport_fec.Session.Writers.{Call, accept, announcement_writer}
use moqtransport_fec.Session.Replies.{accept_announcement}
use moqtransport_fec.Session.Handlers.{Application, invalid_length, on_announce}
use moqtransport_fec.Session.Answers.{on_announce_ok}
use moqtransport_fec.Session.Requests.{take_request_id}
use moqtransport_fec.Session.Announcing.{announce}

-- The write of a message succeeds.
abbrev pub Writes :
    Env → (List ControlMessage → ControlMessage → Bool) → Session → ControlMessage → Type 0
Writes env accepts s msg =
    write env accepts s msg ≡ (record s { sent = s.sent ++ (msg ∷ []) }, true)

sum_cases : {A B : Type 0} (x : A ⊎ B) → ((a : A) × (x ≡ inl a)) ⊎ ((b : B) × (x ≡ inr b))
sum_cases (inl a) = inl (a, refl)
sum_cases (inr b) = inr (b, refl)

abbrev pub announcement_of : ℕ → List (List ℕ) → Announcement
announcement_of id namespace = record { request_id = id; namespace = namespace; parameters = [] }

abbrev pub announce_of : ℕ → List (List ℕ) → AnnounceMessage
announce_of id namespace = record { request_id = id; track_namespace = namespace; parameters = [] }

confirm_and_get_lem :
    (m : AnnouncementMap) (id : ℕ) (a : Announcement)
    → lookup id m.pending ≡ some a
    → ((confirm_and_get m id).1 ≡ inr a)
      × (lookup id (confirm_and_get m id).0.announcements ≡ some a)
      × (lookup id (confirm_and_get m id).0.pending ≡ none)
unfolding confirm_and_get
confirm_and_get_lem m id a h =
    ground (arith, lookup-insert id id a m.announcements, lookup-delete id id m.pending)

add_lem : (m : AnnouncementMap) (a : Announcement) → lookup a.request_id (add m a).pending ≡ some a
unfolding add
add_lem m a = ground (arith, lookup-insert a.request_id a.request_id a m.pending)

offer_lem :
    (id : ℕ) (a : Answer) (responses : List (ℕ × Answer))
    → lookup id responses ≡ none
    → lookup id (offer id a responses) ≡ some a
unfolding offer
offer_lem id a responses h = ground (arith, lookup-insert id id a responses)

-- What the application sees of an ANNOUNCE.
abbrev pub announced : AnnounceMessage → Message
announced m = record (message message_announce) {
  request_id = m.request_id;
  namespace = m.track_namespace;
}

abbrev pub LastSent : Peer → ControlMessage → Type 0
LastSent p msg = (before : List ControlMessage) × (p.session.sent ≡ before ++ (msg ∷ []))

module _ (env : Env) (accepts : List ControlMessage → ControlMessage → Bool) where
  -- What a call leaves of the peer, but for what is sent.
  sent_by :
      (p : Peer) (msg : ControlMessage)
      → (send env accepts p msg).1 ≡ none
      → ((send env accepts p msg).0
          ≡ record p { session = record p.session { sent = p.session.sent ++ (msg ∷ []) } })
  unfolding send
  sent_by p msg h = elim (write_cases env accepts p.session msg) [
    | inl e ↦ rw (send, e) refl
    | inr (inl e) ↦
        let bad : ◌≡◌ {A = Option SessionError} (some write_failed) none = rw (send, e) at h in cc
    | inr (inr e) ↦
        let bad : ◌≡◌ {A = Option SessionError} (some write_failed) none = rw (send, e) at h in cc
  ]

  -- An announcement that is made: it is pending, no channel has changed, and its message is the last
  -- one sent.
  announce_lem :
      (p : Peer) (namespace : List (List ℕ)) (id : ℕ)
      → (announce env accepts p namespace).1 ≡ inr id
      → (lookup id (announce env accepts p namespace).0.outgoing_announcements.pending
          ≡ some (announcement_of id namespace))
        × ((announce env accepts p namespace).0.responses ≡ p.responses)
        × (before : List ControlMessage) × ((announce env accepts p namespace).0.session.sent
            ≡ before ++ (ControlMessage.announce (announce_of id namespace) ∷ []))
  unfolding announce
  announce_lem p namespace id e = elim (sum_cases (take_request_id env accepts p).1) [
    | inl (err, t) ↦
        let bad : ◌≡◌ {A = SessionError ⊎ ℕ} (inl err) (inr id) = rw (announce, t) at e in cc
    | inr (k, t) ↦
        let p' = (take_request_id env accepts p).0 in
        let a = announcement_of k namespace in
        let added = record p' { outgoing_announcements = add p'.outgoing_announcements a } in
        let msg = ControlMessage.announce (announce_of k namespace) in
        elim (Option-cases (send env accepts added msg).1) [
          | inr (err, f) ↦
              let bad : ◌≡◌ {A = SessionError ⊎ ℕ} (inl err) (inr id) =
                rw f at (rw (announce, t) at e) in
              cc
          | inl f ↦
              let own : ◌≡◌ {A = SessionError ⊎ ℕ} (inr k) (inr id) =
                rw f at (rw (announce, t) at e) in
              let same : k ≡ id = cc in
              rw (announce, t)
                (rw f (
                  rw (sent_by added msg f, sym same)
                    (
                      add_lem p'.outgoing_announcements a,
                      unfold take_request_id in refl,
                      p'.session.sent,
                      refl,
                    )))
        ]
  ]

  writer_accepts :
      (p : Peer) (id : ℕ) (calls : List Call)
      → calls ≡ accept ∷ []
      → announcement_writer env accepts p id false calls
        ≡ ((accept_announcement env accepts p id).0, true)
  unfolding announcement_writer
  writer_accepts p id calls h = ap (announcement_writer env accepts p id false) h

  accept_announcement_lem :
      (p : Peer) (id : ℕ) (a : Announcement)
      → lookup id p.incoming_announcements.pending ≡ some a
      → Writes env accepts p.session (ControlMessage.announce_ok (record { request_id = id }))
      → (lookup id (accept_announcement env accepts p id).0.incoming_announcements.announcements
          ≡ some a)
        × ((accept_announcement env accepts p id).0.session.sent
            ≡ p.session.sent ++ (ControlMessage.announce_ok (record { request_id = id }) ∷ []))
  unfolding accept_announcement send
  accept_announcement_lem p id a pending writes =
      let (confirmed, there, gone) = confirm_and_get_lem p.incoming_announcements id a pending in
      rw (accept_announcement, confirmed) (rw (send, writes) (there, refl))

  -- The other side, whose application accepts.
  on_announce_lem :
      (app : Application) (q : Peer) (m : AnnounceMessage)
      → invalid_length m.track_namespace ≡ false
      → app.handle (announced m) ≡ accept ∷ []
      → Writes env accepts q.session
          (ControlMessage.announce_ok (record { request_id = m.request_id }))
      → ((on_announce env accepts app q m).1 ≡ none)
        × (lookup m.request_id
              (on_announce env accepts app q m).0.incoming_announcements.announcements
            ≡ some (record {
              request_id = m.request_id;
              namespace = m.track_namespace;
              parameters = m.parameters;
            }))
        × ((on_announce env accepts app q m).0.session.sent
            ≡ q.session.sent
              ++ (ControlMessage.announce_ok (record { request_id = m.request_id }) ∷ []))
  unfolding on_announce announcement_writer accept_announcement send
  on_announce_lem app q m valid accepting writes =
      let a : Announcement = record {
        request_id = m.request_id;
        namespace = m.track_namespace;
        parameters = m.parameters;
      } in
      let q' =
        notify (record q { incoming_announcements = add q.incoming_announcements a })
          (announced m) in
      let (there, sent) =
        accept_announcement_lem q' m.request_id a (add_lem q.incoming_announcements a) writes in
      let accepts_it = writer_accepts q' m.request_id (app.handle (announced m)) accepting in
      rw (on_announce, valid) (rw accepts_it (rw accepts_it (refl, there, sent)))

  on_announce_ok_lem :
      (p : Peer) (id : ℕ) (a : Announcement)
      → lookup id p.outgoing_announcements.pending ≡ some a
      → a.request_id ≡ id
      → lookup id p.responses ≡ none
      → ((on_announce_ok p (record { request_id = id })).1 ≡ none)
        × (lookup id
              (on_announce_ok p (record { request_id = id })).0.outgoing_announcements.announcements
            ≡ some a)
        × (lookup id (on_announce_ok p (record { request_id = id })).0.responses ≡ some accepted)
  unfolding on_announce_ok
  on_announce_ok_lem p id a pending own waiting =
      let (confirmed, there, gone) = confirm_and_get_lem p.outgoing_announcements id a pending in
      rw (on_announce_ok, confirmed)
        (
          refl,
          there,
          ap (λ (k : ℕ). lookup id (offer k accepted p.responses)) own
              ∙ offer_lem id accepted p.responses waiting,
        )

  -- A session announces a namespace and the call does not fail; its message is the last one that it
  -- sends. A second session whose application accepts that message, and that can write its answer,
  -- holds the namespace as announced under the request ID of the message, and the last message that it
  -- sends is the ANNOUNCE_OK for that ID. The first session then holds the namespace as announced too,
  -- and the waiting call is told.
  pub announcement_accepted :
      (app : Application) (p q : Peer) (namespace : List (List ℕ)) (id : ℕ)
      → (announce env accepts p namespace).1 ≡ inr id
      → lookup id p.responses ≡ none
      → invalid_length namespace ≡ false
      → app.handle (announced (announce_of id namespace)) ≡ accept ∷ []
      → Writes env accepts q.session (ControlMessage.announce_ok (record { request_id = id }))
      → (LastSent
          (announce env accepts p namespace).0
          (ControlMessage.announce (announce_of id namespace)))
        × ((on_announce env accepts app q (announce_of id namespace)).1 ≡ none)
        × (lookup id
              (on_announce env accepts app q (announce_of id namespace)
                ).0.incoming_announcements.announcements
            ≡ some (announcement_of id namespace))
        × (LastSent
            (on_announce env accepts app q (announce_of id namespace)).0
            (ControlMessage.announce_ok (record { request_id = id })))
        × ((on_announce_ok (announce env accepts p namespace).0 (record { request_id = id })).1
            ≡ none)
        × (lookup id
              (on_announce_ok (announce env accepts p namespace).0 (record { request_id = id })
                ).0.outgoing_announcements.announcements
            ≡ some (announcement_of id namespace))
        × (lookup id
              (on_announce_ok
                (announce env accepts p namespace).0
                (record { request_id = id })).0.responses
            ≡ some accepted)
  announcement_accepted app p q namespace id made waiting valid accepting writes =
      let (pending, same, before, sent) = announce_lem p namespace id made in
      let (fine, held, answer) =
        on_announce_lem app q (announce_of id namespace) valid accepting writes in
      let (fine', held', told) =
        on_announce_ok_lem (announce env accepts p namespace).0 id (announcement_of id namespace)
          pending refl (ap (λ (r : List (ℕ × Answer)). lookup id r) same ∙ waiting) in
      ((before, sent), fine, held, (q.session.sent, answer), fine', held', told)
