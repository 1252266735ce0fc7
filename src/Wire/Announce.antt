-- ===== src/Wire/Announce.antt =====
-- announce_message.go, announce_ok_message.go, announce_error_message.go, announce_cancel_message.go
-- and unannounce_message.go of internal/wire.
pub mod RoundTrip
use moqtransport_fec.Base.{ℕ, List, Result, ok, ◌>>=◌, ◌>>◌}
use moqtransport_fec.Wire.Env.{Env, IsVarint, take_varint}
use moqtransport_fec.Wire.Fields.{
  IsText, IsTuple, append_var_int_bytes, parse_var_int_bytes, append_tuple, parse_tuple,
}
use moqtransport_fec.Wire.Params.{KeyValuePair, full, append_num, parse_num, IsList}

pub record AnnounceMessage : Type 0 where
  pub request_id : ℕ
  pub track_namespace : List (List ℕ)
  pub parameters : List KeyValuePair

pub record AnnounceOkMessage : Type 0 where
  pub request_id : ℕ

pub record AnnounceErrorMessage : Type 0 where
  pub request_id : ℕ
  pub error_code : ℕ
  pub reason_phrase : List ℕ

pub record AnnounceCancelMessage : Type 0 where
  pub track_namespace : List (List ℕ)
  pub error_code : ℕ
  pub reason_phrase : List ℕ

pub record UnannounceMessage : Type 0 where
  pub track_namespace : List (List ℕ)

module _ (env : Env) where
  unfoldable pub append_announce : List ℕ → AnnounceMessage → List ℕ
  append_announce buf m =
      append_num env (append_tuple env (env.append buf m.request_id) m.track_namespace) m.parameters

  unfoldable pub parse_announce : List ℕ → Result AnnounceMessage
  parse_announce input = do
    (request_id, rest) ← take_varint env input
    (track_namespace, rest') ← parse_tuple env rest
    parameters ← parse_num env (full rest')
    ok (record {
      request_id = request_id;
      track_namespace = track_namespace;
      parameters = parameters;
    })

  unfoldable pub append_announce_ok : List ℕ → AnnounceOkMessage → List ℕ
  append_announce_ok buf m = env.append buf m.request_id

  unfoldable pub parse_announce_ok : List ℕ → Result AnnounceOkMessage
  parse_announce_ok input = do
    (request_id, _) ← take_varint env input
    ok (record { request_id = request_id })

  unfoldable pub append_announce_error : List ℕ → AnnounceErrorMessage → List ℕ
  append_announce_error buf m =
      append_var_int_bytes env (env.append (env.append buf m.request_id) m.error_code)
        m.reason_phrase

  unfoldable pub parse_announce_error : List ℕ → Result AnnounceErrorMessage
  parse_announce_error input = do
    (request_id, rest) ← take_varint env input
    (error_code, rest') ← take_varint env rest
    (reason_phrase, _) ← parse_var_int_bytes env rest'
    ok (record { request_id = request_id; error_code = error_code; reason_phrase = reason_phrase })

  unfoldable pub append_announce_cancel : List ℕ → AnnounceCancelMessage → List ℕ
  append_announce_cancel buf m =
      append_var_int_bytes env (env.append (append_tuple env buf m.track_namespace) m.error_code)
        m.reason_phrase

  unfoldable pub parse_announce_cancel : List ℕ → Result AnnounceCancelMessage
  parse_announce_cancel input = do
    (track_namespace, rest) ← parse_tuple env input
    (error_code, rest') ← take_varint env rest
    (reason_phrase, _) ← parse_var_int_bytes env rest'
    ok (record {
      track_namespace = track_namespace;
      error_code = error_code;
      reason_phrase = reason_phrase;
    })

  unfoldable pub append_unannounce : List ℕ → UnannounceMessage → List ℕ
  append_unannounce buf m = append_tuple env buf m.track_namespace

  unfoldable pub parse_unannounce : List ℕ → Result UnannounceMessage
  parse_unannounce input = do
    (track_namespace, _) ← parse_tuple env input
    ok (record { track_namespace = track_namespace })

-- What an encoder accepts, field by field.
pub record IsAnnounceMessage (env : Env) (m : AnnounceMessage) : Type 0 where
  pub request_id : IsVarint m.request_id
  pub track_namespace : IsTuple env m.track_namespace
  pub parameters : IsList env m.parameters

pub record IsAnnounceOkMessage (env : Env) (m : AnnounceOkMessage) : Type 0 where
  pub request_id : IsVarint m.request_id

pub record IsAnnounceErrorMessage (env : Env) (m : AnnounceErrorMessage) : Type 0 where
  pub request_id : IsVarint m.request_id
  pub error_code : IsVarint m.error_code
  pub reason_phrase : IsText m.reason_phrase

pub record IsAnnounceCancelMessage (env : Env) (m : AnnounceCancelMessage) : Type 0 where
  pub track_namespace : IsTuple env m.track_namespace
  pub error_code : IsVarint m.error_code
  pub reason_phrase : IsText m.reason_phrase

pub record IsUnannounceMessage (env : Env) (m : UnannounceMessage) : Type 0 where
  pub track_namespace : IsTuple env m.track_namespace
