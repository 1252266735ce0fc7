-- ===== src/Session/State.antt =====
-- The fields of Session (session.go) that the handshake and the request IDs use. `sent` is what the
-- control stream has taken; whether it takes a message is up to the stream, which is not this
-- repository's code, so the handlers take `accepts`, asked for the messages sent so far and the next.
-- A panic ends the whole program: `panicked` says that one happened, and then no other field means
-- anything any more.
-- One goroutine reads the control stream, so messages are handled one after the other.
use moqtransport_fec.Base.{
  ℕ, Bool, true, false, List, [], ◌∷◌, ◌++◌, ok, ◌%◌, Bool-cases, inl, inr, refl, ◌≡◌, ◌⊎◌, arith,
  if◌then◌else◌,
}
use moqtransport_fec.Wire.Env.{Env}
use moqtransport_fec.Wire.Message.{ControlMessage}
use moqtransport_fec.Wire.Control.{compile_message}
use moqtransport_fec.Wire.Encodable.{can_compile}
use moqtransport_fec.Session.Ids.{RequestIdGenerator, new_request_id_generator, u64_mod}
use moqtransport_fec.Session.LocalTracks.{LocalTrackMap, new_local_track_map}

pub data Perspective : Type 0 where
  client server : Perspective

pub record Session : Type 0 where
  pub perspective : Perspective
  pub is_quic : Bool
  pub version : ℕ
  pub path : List ℕ
  pub local_max_request_id : ℕ
  pub request_ids : RequestIdGenerator
  pub local_tracks : LocalTrackMap
  pub handshake_done : Bool
  pub sent : List ControlMessage
  pub panicked : Bool

-- uint64(conn.Perspective())
abbrev pub initial_id : Perspective → ℕ
initial_id client = 0
initial_id server = 1

-- What `Run` makes of a connection, before the client sends its setup. InitialMaxRequestID is a
-- uint64. Nothing outside the package can set the path.
unfoldable pub start : Perspective → Bool → ℕ → Session
start perspective is_quic initial_max = record {
  perspective = perspective;
  is_quic = is_quic;
  version = 0;
  path = [];
  local_max_request_id = initial_max % u64_mod;
  request_ids = new_request_id_generator (initial_id perspective) 0 2;
  local_tracks = new_local_track_map;
  handshake_done = false;
  sent = [];
  panicked = false;
}

module _ (env : Env) (accepts : List ControlMessage → ControlMessage → Bool) where
  -- The write of a message that compileMessage does not panic on.
  unfoldable pub write_compiled : Session → ControlMessage → Session × Bool
  write_compiled s msg = elim (compile_message env msg) [
    | ok buf ↦
        if accepts s.sent msg then (record s { sent = s.sent ++ (msg ∷ []) }, true) else (s, false)
    | _ ↦ (s, false)
  ]

  -- controlStream.write; the flag says that it returned, and no error. After a panic nothing is sent.
  unfoldable pub write : Session → ControlMessage → Session × Bool
  write s msg =
      if s.panicked
      then (s, false)
      else if can_compile msg
      then write_compiled s msg
      else (record s { panicked = true }, false)

  -- A message without a number that is too large is sent, and nothing else changes, or nothing does.
  pub write_returns :
      (s : Session) (msg : ControlMessage)
      → can_compile msg ≡ true
      → (write s msg ≡ (record s { sent = s.sent ++ (msg ∷ []) }, true))
        ⊎ (write s msg ≡ (s, false))
  unfolding write write_compiled
  write_returns s msg h = elim (Bool-cases s.panicked) [
    | inl e ↦ rw e (inr refl)
    | inr e ↦ rw (e, h) (grind arith)
  ]

  -- Either that, or there is a panic.
  pub write_cases :
      (s : Session) (msg : ControlMessage)
      → (write s msg ≡ (record s { sent = s.sent ++ (msg ∷ []) }, true))
        ⊎ ((write s msg ≡ (s, false)) ⊎ (write s msg ≡ (record s { panicked = true }, false)))
  unfolding write
  write_cases s msg = elim (Bool-cases (can_compile msg)) [
    | inl h ↦ elim (write_returns s msg h) [ inl e ↦ inl e | inr e ↦ inr (inl e) ]
    | inr h ↦ elim (Bool-cases s.panicked) [
      | inl e ↦ rw e (inr (inl refl))
      | inr e ↦ rw (e, h) (inr (inr refl))
    ]
  ]
