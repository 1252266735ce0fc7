-- ===== src/Wire/Control.antt =====
-- The framing of control messages: control_message_parser.go of internal/wire, and compileMessage
-- of session_helpers.go.
pub mod RoundTrip
use moqtransport_fec.Base.{
  ℕ, ◌+◌, ◌*◌, ◌/◌, ◌%◌, List, [], ◌∷◌, ◌++◌, ltb, ◌==◌, length, take, drop, Result, ok, err, eof,
  control_message_too_large, invalid_message_type, ◌>>=◌, if◌then◌else◌,
}
use moqtransport_fec.Wire.Env.{Env}
use moqtransport_fec.Wire.Params.{read_full}
use moqtransport_fec.Wire.Message.{ControlMessage, message_type}
use moqtransport_fec.Wire.Message
use moqtransport_fec.Wire.Setup.{
  append_client_setup, parse_client_setup, append_server_setup, parse_server_setup, append_go_away,
  parse_go_away, append_max_request_id, parse_max_request_id, append_requests_blocked,
  parse_requests_blocked,
}
use moqtransport_fec.Wire.Subscribe.{
  append_subscribe, parse_subscribe, append_subscribe_error, parse_subscribe_error,
  append_unsubscribe, parse_unsubscribe, append_subscribe_update, parse_subscribe_update,
  append_subscribe_done, parse_subscribe_done,
}
use moqtransport_fec.Wire.SubscribeOk.{append_subscribe_ok, parse_subscribe_ok}
use moqtransport_fec.Wire.Fetch.{append_fetch, parse_fetch}
use moqtransport_fec.Wire.FetchReply.{
  append_fetch_ok, parse_fetch_ok, append_fetch_error, parse_fetch_error, append_fetch_cancel,
  parse_fetch_cancel,
}
use moqtransport_fec.Wire.Status.{
  append_track_status_request, parse_track_status_request, append_track_status, parse_track_status,
}
use moqtransport_fec.Wire.Announce.{
  append_announce, parse_announce, append_announce_ok, parse_announce_ok, append_announce_error,
  parse_announce_error, append_unannounce, parse_unannounce, append_announce_cancel,
  parse_announce_cancel,
}
use moqtransport_fec.Wire.Announces.{
  append_subscribe_announces, parse_subscribe_announces, append_subscribe_announces_ok,
  parse_subscribe_announces_ok, append_subscribe_announces_error, parse_subscribe_announces_error,
  append_unsubscribe_announces, parse_unsubscribe_announces,
}

-- `reader.ReadByte()`
unfoldable pub read_byte : List ℕ → Result (ℕ × List ℕ)
read_byte [] = err eof
read_byte (b ∷ rest) = ok (b, rest)

abbrev max_uint16 : ℕ
max_uint16 = 0xffff

module _ (env : Env) where
  unfoldable pub append_message : List ℕ → ControlMessage → List ℕ
  append_message buf (ControlMessage.client_setup m) = append_client_setup env buf m
  append_message buf (ControlMessage.server_setup m) = append_server_setup env buf m
  append_message buf (ControlMessage.go_away m) = append_go_away env buf m
  append_message buf (ControlMessage.max_request_id m) = append_max_request_id env buf m
  append_message buf (ControlMessage.requests_blocked m) = append_requests_blocked env buf m
  append_message buf (ControlMessage.subscribe m) = append_subscribe env buf m
  append_message buf (ControlMessage.subscribe_ok m) = append_subscribe_ok env buf m
  append_message buf (ControlMessage.subscribe_error m) = append_subscribe_error env buf m
  append_message buf (ControlMessage.unsubscribe m) = append_unsubscribe env buf m
  append_message buf (ControlMessage.subscribe_update m) = append_subscribe_update env buf m
  append_message buf (ControlMessage.subscribe_done m) = append_subscribe_done env buf m
  append_message buf (ControlMessage.fetch m) = append_fetch env buf m
  append_message buf (ControlMessage.fetch_ok m) = append_fetch_ok env buf m
  append_message buf (ControlMessage.fetch_error m) = append_fetch_error env buf m
  append_message buf (ControlMessage.fetch_cancel m) = append_fetch_cancel env buf m
  append_message buf (ControlMessage.track_status_request m) = append_track_status_request env buf m
  append_message buf (ControlMessage.track_status m) = append_track_status env buf m
  append_message buf (ControlMessage.announce m) = append_announce env buf m
  append_message buf (ControlMessage.announce_ok m) = append_announce_ok env buf m
  append_message buf (ControlMessage.announce_error m) = append_announce_error env buf m
  append_message buf (ControlMessage.unannounce m) = append_unannounce env buf m
  append_message buf (ControlMessage.announce_cancel m) = append_announce_cancel env buf m
  append_message buf (ControlMessage.subscribe_announces m) = append_subscribe_announces env buf m
  append_message buf (ControlMessage.subscribe_announces_ok m) =
      append_subscribe_announces_ok env buf m
  append_message buf (ControlMessage.subscribe_announces_error m) =
      append_subscribe_announces_error env buf m
  append_message buf (ControlMessage.unsubscribe_announces m) =
      append_unsubscribe_announces env buf m

  -- The buffer with its header, the length still 0, and the message behind it; then the length is
  -- written over its place.
  unfoldable pub compile_message : ControlMessage → Result (List ℕ)
  compile_message msg =
      let head = env.append [] (message_type msg) in
      let buf = append_message (head ++ (0 ∷ 0 ∷ [])) msg in
      let n = length (drop (length head + 2) buf) in
      if ltb max_uint16 n
      then err control_message_too_large
      else ok (take (length head) buf ++ (n / 256 ∷ n % 256 ∷ drop (length head + 2) buf))

  -- `m.parse(CurrentVersion, msg)` on the message that the type asks for.
  unfoldable pub parse_body : ℕ → List ℕ → Result ControlMessage
  parse_body mt msg =
      if mt == 0x20
      then (parse_client_setup env msg >>= λ m. ok (ControlMessage.client_setup m))
      else if mt == 0x21
      then (parse_server_setup env msg >>= λ m. ok (ControlMessage.server_setup m))
      else if mt == 0x10
      then (parse_go_away env msg >>= λ m. ok (ControlMessage.go_away m))
      else if mt == 0x15
      then (parse_max_request_id env msg >>= λ m. ok (ControlMessage.max_request_id m))
      else if mt == 0x1a
      then (parse_requests_blocked env msg >>= λ m. ok (ControlMessage.requests_blocked m))
      else if mt == 0x03
      then (parse_subscribe env msg >>= λ m. ok (ControlMessage.subscribe m))
      else if mt == 0x04
      then (parse_subscribe_ok env msg >>= λ m. ok (ControlMessage.subscribe_ok m))
      else if mt == 0x05
      then (parse_subscribe_error env msg >>= λ m. ok (ControlMessage.subscribe_error m))
      else if mt == 0x0a
      then (parse_unsubscribe env msg >>= λ m. ok (ControlMessage.unsubscribe m))
      else if mt == 0x02
      then (parse_subscribe_update env msg >>= λ m. ok (ControlMessage.subscribe_update m))
      else if mt == 0x0b
      then (parse_subscribe_done env msg >>= λ m. ok (ControlMessage.subscribe_done m))
      else if mt == 0x16
      then (parse_fetch env msg >>= λ m. ok (ControlMessage.fetch m))
      else if mt == 0x18
      then (parse_fetch_ok env msg >>= λ m. ok (ControlMessage.fetch_ok m))
      else if mt == 0x19
      then (parse_fetch_error env msg >>= λ m. ok (ControlMessage.fetch_error m))
      else if mt == 0x17
      then (parse_fetch_cancel env msg >>= λ m. ok (ControlMessage.fetch_cancel m))
      else if mt == 0x0d
      then (parse_track_status_request env msg >>= λ m. ok (ControlMessage.track_status_request m))
      else if mt == 0x0e
      then (parse_track_status env msg >>= λ m. ok (ControlMessage.track_status m))
      else if mt == 0x06
      then (parse_announce env msg >>= λ m. ok (ControlMessage.announce m))
      else if mt == 0x07
      then (parse_announce_ok env msg >>= λ m. ok (ControlMessage.announce_ok m))
      else if mt == 0x08
      then (parse_announce_error env msg >>= λ m. ok (ControlMessage.announce_error m))
      else if mt == 0x09
      then (parse_unannounce env msg >>= λ m. ok (ControlMessage.unannounce m))
      else if mt == 0x0c
      then (parse_announce_cancel env msg >>= λ m. ok (ControlMessage.announce_cancel m))
      else if mt == 0x11
      then (parse_subscribe_announces env msg >>= λ m. ok (ControlMessage.subscribe_announces m))
      else if mt == 0x12
      then (parse_subscribe_announces_ok env msg >>= λ m.
          ok (ControlMessage.subscribe_announces_ok m))
      else if mt == 0x13
      then (parse_subscribe_announces_error env msg >>= λ m.
          ok (ControlMessage.subscribe_announces_error m))
      else if mt == 0x14
      then (parse_unsubscribe_announces env msg >>= λ m.
          ok (ControlMessage.unsubscribe_announces m))
      else err (invalid_message_type mt)

  -- `ControlMessageParser.Parse`, with what is left of the stream.
  unfoldable pub parse_message : List ℕ → Result (ControlMessage × List ℕ)
  parse_message input = do
    (mt, rest) ← env.read input
    (hi, rest') ← read_byte rest
    (lo, rest'') ← read_byte rest'
    (msg, tail) ← read_full env (hi * 256 + lo) rest''
    m ← parse_body mt msg
    ok (m, tail)
