-- ===== src/Session/Handshake/Agreement.antt =====
-- The setup messages of session.go: one message before the handshake, and a whole exchange.
use moqtransport_fec.Base.{
  ℕ, ◌≡◌, ◌<◌, ◌%◌, ◌^◌, length, refl, ap, ◌∙◌, arith, Bool, true, false, List, [], ◌∷◌, Option,
  none, some, ltb, le→ltb, ◌==◌, if◌then◌else◌, ◌⊎◌, inl, inr, Bool-cases, Option-cases,
}
use moqtransport_fec.Wire.Env.{Env}
use moqtransport_fec.Wire.Encodable.{can_compile, numbers, all_have_encoding, pair_numbers}
use moqtransport_fec.Wire.Fields.{current_version}
use moqtransport_fec.Wire.Setup.{ClientSetupMessage, ServerSetupMessage}
use moqtransport_fec.Wire.Message.{ControlMessage, client_setup, server_setup}
use moqtransport_fec.Session.Errors.{SessionError, write_failed}
use moqtransport_fec.Session.Ids.{RequestIdGenerator, set_max, new_request_id_generator, u64_mod}
use moqtransport_fec.Session.State.{
  Perspective, client, server, Session, start, write_cases, write_returns,
}
use moqtransport_fec.Session.Handshake.{
  find_parameter, validate_path_parameter, get_max_request_id_parameter, contains, select_version,
  client_setup_of, server_setup_of, send_client_setup, take_max, answer_setup, on_client_setup,
  on_server_setup, receive_before_setup,
}

-- A version is what the message offers or selects.
abbrev offers : ControlMessage → ℕ → Bool
offers (client_setup m) v = contains m.supported_versions v
offers (server_setup m) v = m.selected_version == v
offers _ v = false

abbrev is_for : Perspective → ControlMessage → Bool
is_for client (server_setup m) = true
is_for server (client_setup m) = true
is_for _ _ = false

Perspective-cases : (p : Perspective) → (p ≡ client) ⊎ (p ≡ server)
Perspective-cases client = inl refl
Perspective-cases server = inr refl

Sum-cases :
    (o : SessionError ⊎ List ℕ) → ((e : SessionError) × (o ≡ inl e)) ⊎ ((p : List ℕ) × (o ≡ inr p))
Sum-cases (inl e) = inl (e, refl)
Sum-cases (inr p) = inr (p, refl)

-- What a message before the handshake may come to: it ends the handshake, being the peer's setup message
-- and with a version that it offers, or it is refused and does not end it.
abbrev pub EndsSetup : Perspective → ControlMessage → Session × Option SessionError → Type 0
EndsSetup p msg (s, none) =
    (s.handshake_done ≡ true)
    × (is_for p msg ≡ true)
    × (s.version ≡ current_version)
    × (offers msg current_version ≡ true)
EndsSetup p msg (s, some e) = s.handshake_done ≡ false

set_first_max :
    (g : RequestIdGenerator) (n : ℕ) → g.max ≡ 0 → set_max g n ≡ (record g { max = n }, none)
unfolding set_max
set_first_max g n h = rw (le→ltb n g.max (ground arith)) refl

module _ (env : Env) (accepts : List ControlMessage → ControlMessage → Bool) where
  answer_setup-EndsSetup :
      (s : Session) (m : ClientSetupMessage)
      → s.handshake_done ≡ false
      → contains m.supported_versions current_version ≡ true
      → s.version ≡ current_version
      → EndsSetup server (client_setup m) (answer_setup env accepts s current_version)
  unfolding answer_setup
  answer_setup-EndsSetup s m h offered v =
      elim (write_cases env accepts s
        (ControlMessage.server_setup (server_setup_of current_version))) [
          | inl e ↦ rw e (refl, refl, v, offered)
          | inr (inl e) ↦ rw e h
          | inr (inr e) ↦ rw e h
        ]

  take_max_keeps :
      (s : Session) (n : ℕ)
      → ((take_max env accepts s n).0.handshake_done ≡ s.handshake_done)
        × ((take_max env accepts s n).0.version ≡ s.version)
  unfolding take_max
  take_max_keeps s n = ground arith

  on_client_setup-EndsSetup :
      (s : Session) (m : ClientSetupMessage)
      → s.handshake_done ≡ false
      → EndsSetup s.perspective (client_setup m) (on_client_setup env accepts s m)
  unfolding on_client_setup select_version
  on_client_setup-EndsSetup s m h = elim (Perspective-cases s.perspective) [
    | inl p ↦ rw p h
    | inr p ↦ elim (Bool-cases (contains m.supported_versions current_version)) [
      | inr other ↦ rw (p, on_client_setup, other) h
      | inl offered ↦ elim (Sum-cases (validate_path_parameter m.setup_parameters s.is_quic)) [
        | inl (e, bad) ↦ rw (p, on_client_setup, offered, bad) h
        | inr (path, good) ↦
            let n = get_max_request_id_parameter m.setup_parameters in
            let s1 = record s { version = current_version; path = path } in
            let (same, kept) = take_max_keeps s1 n in
            elim (Option-cases (take_max env accepts s1 n).1) [
              | inl fine ↦
                  rw (p, on_client_setup, offered, good, fine)
                    (answer_setup-EndsSetup (take_max env accepts s1 n).0 m (same ∙ h) offered kept)
              | inr (e, lowered) ↦ rw (p, on_client_setup, offered, good, lowered) (same ∙ h)
            ]
      ]
    ]
  ]

  on_server_setup-EndsSetup :
      (s : Session) (m : ServerSetupMessage)
      → s.handshake_done ≡ false
      → EndsSetup s.perspective (server_setup m) (on_server_setup env accepts s m)
  unfolding on_server_setup contains
  on_server_setup-EndsSetup s m h = elim (Perspective-cases s.perspective) [
    | inr p ↦ rw p h
    | inl p ↦ elim (Bool-cases (current_version == m.selected_version)) [
      | inr other ↦ rw (p, on_server_setup, other) h
      | inl offered ↦
          let n = get_max_request_id_parameter m.setup_parameters in
          elim (Option-cases (set_max s.request_ids n).1) [
            | inl fine ↦
                rw (p, on_server_setup, offered, fine) (refl, refl, ground arith, ground arith)
            | inr (e, lowered) ↦ rw (p, on_server_setup, offered, lowered) h
          ]
    ]
  ]

  -- Before the handshake, a message that is not refused ends it: it is the peer's setup message, and the
  -- version is this implementation's and one that the message offers. A message that is refused does
  -- not end it.
  pub receive_before_setup-EndsSetup :
      (s : Session) (msg : ControlMessage)
      → s.handshake_done ≡ false
      → EndsSetup s.perspective msg (receive_before_setup env accepts s msg)
  unfolding receive_before_setup
  receive_before_setup-EndsSetup s (client_setup m) h = on_client_setup-EndsSetup s m h
  receive_before_setup-EndsSetup s (server_setup m) h = on_server_setup-EndsSetup s m h
  receive_before_setup-EndsSetup s _ h = h

  take_first_max :
      (s : Session) (n : ℕ)
      → s.request_ids.max ≡ 0
      → take_max env accepts s n
        ≡ (record s { request_ids = record s.request_ids { max = n } }, none)
  unfolding take_max
  take_first_max s n h = elim (Bool-cases (ltb 0 n)) [
    | inl positive ↦ rw (positive, set_first_max s.request_ids n h) refl
    | inr same ↦ rw same (
        ap (λ x. (record s { request_ids = record s.request_ids { max = x } }, none))
          (ground arith))
  ]

  -- A client's session that has exchanged nothing; `path` is its path.
  abbrev pub starting : Bool → List ℕ → ℕ → Session
  starting is_quic path n = record (start client is_quic n) { path = path }

  -- The server's session when it answers the first message of the client.
  abbrev agreed : Bool → List ℕ → ℕ → ℕ → Session
  agreed is_quic path n k = record (start server is_quic k) {
    version = current_version;
    path = if is_quic then path else [];
    request_ids = record { id = 1; max = n % u64_mod; interval = 2 };
  }

  server_answers :
      (is_quic : Bool) (path : List ℕ) (n k : ℕ)
      → on_client_setup env accepts
          (start server is_quic k)
          (client_setup_of (starting is_quic path n))
        ≡ answer_setup env accepts (agreed is_quic path n k) current_version
  unfolding start client_setup_of on_client_setup select_version contains validate_path_parameter
      find_parameter get_max_request_id_parameter new_request_id_generator
  server_answers true path n k =
      let first =
        take_first_max (record (start server true k) { version = current_version; path = path })
          (n % u64_mod) refl in
      rw (on_client_setup, first) (ap (λ r. answer_setup env accepts r.0 current_version) first)
  server_answers false path n k =
      let first =
        take_first_max (record (start server false k) { version = current_version; path = [] })
          (n % u64_mod) refl in
      rw (on_client_setup, first) (ap (λ r. answer_setup env accepts r.0 current_version) first)

  -- No number of the setup messages is too large.
  client_setup_compiles :
      (is_quic : Bool) (path : List ℕ) (n : ℕ)
      → n < 2 ^ 62
      → length path < 2 ^ 62
      → can_compile (client_setup (client_setup_of (starting is_quic path n))) ≡ true
  unfolding can_compile numbers all_have_encoding pair_numbers client_setup_of start
  client_setup_compiles true path n h k = ground arith
  client_setup_compiles false path n h k = ground arith

  server_setup_compiles : can_compile (server_setup (server_setup_of current_version)) ≡ true
  unfolding can_compile numbers all_have_encoding pair_numbers server_setup_of
  server_setup_compiles = refl

  -- What the server's answer comes to on both sides.
  abbrev pub AnswerAgrees : Session → Bool → List ℕ → ℕ → ℕ → Type 0
  AnswerAgrees c is_quic path n k =
      let r = on_client_setup env accepts (start server is_quic k) (client_setup_of c) in
      (r.0.panicked ≡ false)
      × (((r.1 ≡ some write_failed) × (r.0.handshake_done ≡ false) × (r.0.sent ≡ []))
          ⊎ ((r.1 ≡ none)
              × (r.0.handshake_done ≡ true)
              × (r.0.version ≡ current_version)
              × (r.0.path ≡ (if is_quic then path else []))
              × (r.0.request_ids.max ≡ n)
              × (r.0.local_max_request_id ≡ k)
              × (r.0.sent ≡ ControlMessage.server_setup (server_setup_of current_version) ∷ [])))

  server_agrees :
      (is_quic : Bool) (path : List ℕ) (n k : ℕ)
      → n < 2 ^ 62
      → k < 2 ^ 64
      → AnswerAgrees (starting is_quic path n) is_quic path n k
  unfolding start answer_setup
  server_agrees is_quic path n k h h' =
      let answer = ControlMessage.server_setup (server_setup_of current_version) in
      elim (write_returns env accepts (agreed is_quic path n k) answer server_setup_compiles) [
        | inl e ↦
            rw (server_answers is_quic path n k, answer_setup, e)
              (refl, inr (refl, refl, refl, refl, omega arith, omega arith, refl))
        | inr e ↦
            rw (server_answers is_quic path n k, answer_setup, e) (refl, inl (refl, refl, refl))
      ]

  -- A client, whose initial maximum and the length of whose path have an encoding, and a server start
  -- on one connection, with nothing exchanged. The client sends its setup, or that cannot be written, and it has sent nothing.
  -- If the server handles the message that was sent, its answer cannot be written, and its handshake is
  -- not done; or it ends the handshake with the current version, has the client's path on QUIC and none
  -- on WebTransport, and may use request IDs below the client's initial maximum. When the client
  -- handles the answer, it ends the handshake too, with the same version, and may use the IDs below
  -- 100, whatever the initial maximum of the server is. Neither side panics.
  pub handshake_agreement :
      (client_accepts : List ControlMessage → ControlMessage → Bool) (is_quic : Bool)
      (path : List ℕ) (n k : ℕ)
      → n < 2 ^ 62
      → k < 2 ^ 64
      → length path < 2 ^ 62
      → let c = starting is_quic path n in
        let sending = send_client_setup env client_accepts c in
        ((sending ≡ (c, some write_failed)) × (c.sent ≡ []) × (c.panicked ≡ false))
        ⊎ ((sending
              ≡ (record c { sent = ControlMessage.client_setup (client_setup_of c) ∷ [] }, none))
            × AnswerAgrees sending.0 is_quic path n k
            × (on_server_setup env accepts sending.0 (server_setup_of current_version) ≡ (
              record sending.0 {
                version = current_version;
                request_ids = record c.request_ids { max = 100 };
                handshake_done = true;
              },
              none,
            )))
  unfolding start send_client_setup client_setup_of server_setup_of on_server_setup contains
      find_parameter get_max_request_id_parameter set_max new_request_id_generator
  handshake_agreement client_accepts is_quic path n k h h' hp =
      let c = starting is_quic path n in
      let msg = ControlMessage.client_setup (client_setup_of c) in
      elim (write_returns env client_accepts c msg (client_setup_compiles is_quic path n h hp)) [
        | inr e ↦ rw (send_client_setup, e) (inl (refl, refl, refl))
        | inl e ↦ rw (send_client_setup, e) (inr (refl, server_agrees is_quic path n k h h', refl))
      ]
