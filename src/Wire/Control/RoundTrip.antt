-- ===== src/Wire/Control/RoundTrip.antt =====
-- compileMessage of session_helpers.go and ControlMessageParser.Parse of internal/wire together.
use moqtransport_fec.Base.{
  ℕ, suc, ◌+◌, ◌*◌, ◌/◌, ◌%◌, ◌≤◌, ◌<◌, ◌≡◌, refl, sym, ◌∙◌, false, List, [], ◌∷◌, ◌++◌, arith, ltb,
  length, drop, Result, ok, err, control_message_too_large, ◌>>=◌, if◌then◌else◌, append_assoc,
  append-nil, take-length, le→ltb, lt→ltb,
}
use moqtransport_fec.Wire.Env.{Env, IsVarint, encode, read-encode}
use moqtransport_fec.Wire.Params.RoundTrip.{read_full_lem}
use moqtransport_fec.Wire.Control.{
  append_message, compile_message, parse_body, parse_message, read_byte,
}
use moqtransport_fec.Wire.Message.{
  ControlMessage, message_type, IsWellFormed, is_announce_cancel, received, client_setup,
  server_setup, go_away, max_request_id, requests_blocked, subscribe, subscribe_ok, subscribe_error,
  unsubscribe, subscribe_update, subscribe_done, fetch, fetch_ok, fetch_error, fetch_cancel,
  track_status_request, track_status, announce, announce_ok, announce_error, unannounce,
  announce_cancel, subscribe_announces, subscribe_announces_ok, subscribe_announces_error,
  unsubscribe_announces,
}
use moqtransport_fec.Wire.Announce.{AnnounceMessage, AnnounceCancelMessage, parse_announce}
use moqtransport_fec.Wire.Setup.RoundTrip.{
  append_client_setup-buf, parse_client_setup-append, append_server_setup-buf,
  parse_server_setup-append, append_go_away-buf, parse_go_away-append, append_max_request_id-buf,
  parse_max_request_id-append, append_requests_blocked-buf, parse_requests_blocked-append,
}
use moqtransport_fec.Wire.Subscribe.RoundTrip.{
  append_subscribe-buf, parse_subscribe-append, append_subscribe_error-buf,
  parse_subscribe_error-append, append_unsubscribe-buf, parse_unsubscribe-append,
  append_subscribe_update-buf, parse_subscribe_update-append, append_subscribe_done-buf,
  parse_subscribe_done-append,
}
use moqtransport_fec.Wire.SubscribeOk.RoundTrip.{append_subscribe_ok-buf, parse_subscribe_ok-append}
use moqtransport_fec.Wire.Fetch.RoundTrip.{append_fetch-buf, parse_fetch-append}
use moqtransport_fec.Wire.FetchReply.RoundTrip.{
  append_fetch_ok-buf, parse_fetch_ok-append, append_fetch_error-buf, parse_fetch_error-append,
  append_fetch_cancel-buf, parse_fetch_cancel-append,
}
use moqtransport_fec.Wire.Status.RoundTrip.{
  append_track_status_request-buf, parse_track_status_request-append, append_track_status-buf,
  parse_track_status-append,
}
use moqtransport_fec.Wire.Announce.RoundTrip.{
  append_announce-buf, parse_announce-append, append_announce_ok-buf, parse_announce_ok-append,
  append_announce_error-buf, parse_announce_error-append, append_unannounce-buf,
  parse_unannounce-append, append_announce_cancel-buf,
}
use moqtransport_fec.Wire.Announces.RoundTrip.{
  append_subscribe_announces-buf, parse_subscribe_announces-append,
  append_subscribe_announces_ok-buf, parse_subscribe_announces_ok-append,
  append_subscribe_announces_error-buf, parse_subscribe_announces_error-append,
  append_unsubscribe_announces-buf, parse_unsubscribe_announces-append,
}

message_type-IsVarint : (m : ControlMessage) → IsVarint (message_type m)
unfolding message_type
message_type-IsVarint (client_setup m) = omega arith
message_type-IsVarint _ = omega arith

drop_header : (xs ys : List ℕ) (a b : ℕ) → drop (suc (suc (length xs))) (xs ++ (a ∷ b ∷ ys)) ≡ ys
drop_header [] ys a b = refl
drop_header (x ∷ xs) ys a b = drop_header xs ys a b

module _ (env : Env) where
  append_message-buf :
      (buf : List ℕ) (m : ControlMessage)
      → IsWellFormed env m
      → append_message env buf m ≡ buf ++ append_message env [] m
  unfolding append_message
  append_message-buf buf (client_setup m) w = append_client_setup-buf env buf m
  append_message-buf buf (server_setup m) w = append_server_setup-buf env buf m
  append_message-buf buf (go_away m) w = append_go_away-buf env buf m
  append_message-buf buf (max_request_id m) w = append_max_request_id-buf env buf m
  append_message-buf buf (requests_blocked m) w = append_requests_blocked-buf env buf m
  append_message-buf buf (subscribe m) w = append_subscribe-buf env buf m w
  append_message-buf buf (subscribe_ok m) w = append_subscribe_ok-buf env buf m
  append_message-buf buf (subscribe_error m) w = append_subscribe_error-buf env buf m
  append_message-buf buf (unsubscribe m) w = append_unsubscribe-buf env buf m
  append_message-buf buf (subscribe_update m) w = append_subscribe_update-buf env buf m
  append_message-buf buf (subscribe_done m) w = append_subscribe_done-buf env buf m
  append_message-buf buf (fetch m) w = append_fetch-buf env buf m
  append_message-buf buf (fetch_ok m) w = append_fetch_ok-buf env buf m
  append_message-buf buf (fetch_error m) w = append_fetch_error-buf env buf m
  append_message-buf buf (fetch_cancel m) w = append_fetch_cancel-buf env buf m
  append_message-buf buf (track_status_request m) w = append_track_status_request-buf env buf m
  append_message-buf buf (track_status m) w = append_track_status-buf env buf m
  append_message-buf buf (announce m) w = append_announce-buf env buf m
  append_message-buf buf (announce_ok m) w = append_announce_ok-buf env buf m
  append_message-buf buf (announce_error m) w = append_announce_error-buf env buf m
  append_message-buf buf (unannounce m) w = append_unannounce-buf env buf m
  append_message-buf buf (announce_cancel m) w = append_announce_cancel-buf env buf m
  append_message-buf buf (subscribe_announces m) w = append_subscribe_announces-buf env buf m
  append_message-buf buf (subscribe_announces_ok m) w = append_subscribe_announces_ok-buf env buf m
  append_message-buf buf (subscribe_announces_error m) w =
      append_subscribe_announces_error-buf env buf m
  append_message-buf buf (unsubscribe_announces m) w = append_unsubscribe_announces-buf env buf m

  parse_body_lem :
      (m : ControlMessage) (rest : List ℕ)
      → IsWellFormed env m
      → is_announce_cancel m ≡ false
      → parse_body env (message_type m) (append_message env [] m ++ rest) ≡ ok (received m)
  unfolding parse_body append_message message_type
  parse_body_lem (client_setup m) rest w h = rw (parse_client_setup-append env m rest w)
  parse_body_lem (server_setup m) rest w h = rw (parse_server_setup-append env m rest w)
  parse_body_lem (go_away m) rest w h = rw (parse_go_away-append env m rest w)
  parse_body_lem (max_request_id m) rest w h = rw (parse_max_request_id-append env m rest w)
  parse_body_lem (requests_blocked m) rest w h = rw (parse_requests_blocked-append env m rest w)
  parse_body_lem (subscribe m) rest w h = rw (parse_subscribe-append env m rest w)
  parse_body_lem (subscribe_ok m) rest w h = rw (parse_subscribe_ok-append env m rest w)
  parse_body_lem (subscribe_error m) rest w h = rw (parse_subscribe_error-append env m rest w)
  parse_body_lem (unsubscribe m) rest w h = rw (parse_unsubscribe-append env m rest w)
  parse_body_lem (subscribe_update m) rest w h = rw (parse_subscribe_update-append env m rest w)
  parse_body_lem (subscribe_done m) rest w h = rw (parse_subscribe_done-append env m rest w)
  parse_body_lem (fetch m) rest w h = rw (parse_fetch-append env m rest w)
  parse_body_lem (fetch_ok m) rest w h = rw (parse_fetch_ok-append env m rest w)
  parse_body_lem (fetch_error m) rest w h = rw (parse_fetch_error-append env m rest w)
  parse_body_lem (fetch_cancel m) rest w h = rw (parse_fetch_cancel-append env m rest w)
  parse_body_lem (track_status_request m) rest w h =
      rw (parse_track_status_request-append env m rest w)
  parse_body_lem (track_status m) rest w h = rw (parse_track_status-append env m rest w)
  parse_body_lem (announce m) rest w h = rw (parse_announce-append env m rest w)
  parse_body_lem (announce_ok m) rest w h = rw (parse_announce_ok-append env m rest w)
  parse_body_lem (announce_error m) rest w h = rw (parse_announce_error-append env m rest w)
  parse_body_lem (unannounce m) rest w h = rw (parse_unannounce-append env m rest w)
  parse_body_lem (announce_cancel m) rest w h = cc
  parse_body_lem (subscribe_announces m) rest w h =
      rw (parse_subscribe_announces-append env m rest w)
  parse_body_lem (subscribe_announces_ok m) rest w h =
      rw (parse_subscribe_announces_ok-append env m rest w)
  parse_body_lem (subscribe_announces_error m) rest w h =
      rw (parse_subscribe_announces_error-append env m rest w)
  parse_body_lem (unsubscribe_announces m) rest w h =
      rw (parse_unsubscribe_announces-append env m rest w)

  -- The header: the type, and the length in two bytes.
  pub framed : ControlMessage → List ℕ
  framed m =
      let body = append_message env [] m in
      encode env (message_type m) ++ (length body / 256 ∷ length body % 256 ∷ body)

  compile_message_lem :
      (m : ControlMessage)
      → IsWellFormed env m
      → compile_message env m ≡ (
          if ltb 0xffff (length (append_message env [] m))
          then err control_message_too_large
          else ok (framed m))
  unfolding compile_message framed encode
  compile_message_lem m w =
      rw (append_message-buf (env.append [] (message_type m) ++ (0 ∷ 0 ∷ [])) m w, append_assoc)
        (rw (
          two_more (length (env.append [] (message_type m))),
          drop_header (env.append [] (message_type m)) (append_message env [] m) 0 0,
          take-length (env.append [] (message_type m)),
        ))
    where
      two_more : (n : ℕ) → n + 2 ≡ suc (suc n)
      two_more n = omega arith

  -- Whatever was compiled is parsed by the parser that its type selects.
  pub parse_message-framed :
      (m : ControlMessage) (rest : List ℕ)
      → parse_message env (framed m ++ rest)
        ≡ (parse_body env (message_type m) (append_message env [] m) >>= λ r. ok (r, rest))
  unfolding parse_message framed read_byte
  parse_message-framed m rest =
      rw (append_assoc, read-encode env _ _ (message_type-IsVarint m))
        (rw (
          halves (length (append_message env [] m)),
          read_full_lem env (append_message env [] m) rest,
        ))
    where
      halves : (n : ℕ) → n / 256 * 256 + n % 256 ≡ n
      halves n = omega arith

  parse_whole :
      (m : ControlMessage)
      → IsWellFormed env m
      → is_announce_cancel m ≡ false
      → parse_body env (message_type m) (append_message env [] m) ≡ ok (received m)
  parse_whole m w h = rw append-nil at (parse_body_lem m [] w h)

  -- Every well-formed message but an ANNOUNCE_CANCEL whose body takes up at most 65535 bytes is
  -- compiled, and `ControlMessageParser.Parse` reads it back from the stream, whatever follows, and
  -- takes nothing of what follows. It is the message that was sent, but for the expiry of a
  -- SUBSCRIBE_OK, which arrives a million times as large, modulo 2^64.
  pub parse_message-compile_message :
      (m : ControlMessage)
      → IsWellFormed env m
      → is_announce_cancel m ≡ false
      → length (append_message env [] m) ≤ 0xffff
      → (bytes : List ℕ) × (compile_message env m ≡ ok bytes)
        × ((rest : List ℕ) → parse_message env (bytes ++ rest) ≡ ok (received m, rest))
  parse_message-compile_message m w h fits = (
    framed m,
    compile_message_lem m w ∙ rw (le→ltb _ _ fits),
    λ rest. parse_message-framed m rest ∙ rw (parse_whole m w h),
  )

  framed-compiled :
      (m : ControlMessage) (bytes : List ℕ)
      → IsWellFormed env m
      → compile_message env m ≡ ok bytes
      → bytes ≡ framed m
  framed-compiled m bytes w c = ground (arith, compile_message_lem m w)

  an_announce :
      (parsed : Result AnnounceMessage) (rest tail : List ℕ) (r : ControlMessage)
      → ◌>>=◌ {Y = ControlMessage × List ℕ} (parsed >>= λ a. ok (announce a)) (λ r. ok (r, rest))
        ≡ ok (r, tail)
      → is_announce_cancel r ≡ false
  an_announce (ok a) rest tail r e = ground arith
  an_announce _ rest tail r e = cc

  -- An ANNOUNCE_CANCEL that was compiled is never parsed as an ANNOUNCE_CANCEL: any message that
  -- the parser makes of its bytes, whatever follows them, is another one.
  pub announce_cancel_misread :
      (m : AnnounceCancelMessage) (bytes rest tail : List ℕ) (r : ControlMessage)
      → IsWellFormed env (announce_cancel m)
      → compile_message env (announce_cancel m) ≡ ok bytes
      → parse_message env (bytes ++ rest) ≡ ok (r, tail)
      → is_announce_cancel r ≡ false
  unfolding parse_body message_type
  announce_cancel_misread m bytes rest tail r w c e =
      an_announce (parse_announce env (append_message env [] (announce_cancel m))) rest tail r (
        sym (parse_message-framed (announce_cancel m) rest)
        ∙ rw (← framed-compiled (announce_cancel m) bytes w c) e)

  -- A well-formed message whose body takes up more than 65535 bytes is refused.
  pub compile_message_too_large :
      (m : ControlMessage)
      → IsWellFormed env m
      → 0xffff < length (append_message env [] m)
      → compile_message env m ≡ err control_message_too_large
  compile_message_too_large m w large = compile_message_lem m w ∙ rw (lt→ltb _ _ large)
