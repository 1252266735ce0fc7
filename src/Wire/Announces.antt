-- ===== src/Wire/Announces.antt =====
-- subscribe_announces_message.go, subscribe_announces_ok_message.go,
-- subscribe_announces_error_message.go and unsubscribe_announces_message.go of internal/wire.
pub mod RoundTrip
use moqtransport_fec.Base.{ℕ, List, Result, ok, ◌>>=◌, ◌>>◌}
use moqtransport_fec.Wire.Env.{Env, IsVarint, take_varint}
use moqtransport_fec.Wire.Fields.{
  IsText, IsTuple, append_var_int_bytes, parse_var_int_bytes, append_tuple, parse_tuple,
}
use moqtransport_fec.Wire.Params.{KeyValuePair, full, append_num, parse_num, IsList}

pub record SubscribeAnnouncesMessage : Type 0 where
  pub request_id : ℕ
  pub track_namespace_prefix : List (List ℕ)
  pub parameters : List KeyValuePair

pub record SubscribeAnnouncesOkMessage : Type 0 where
  pub request_id : ℕ

pub record SubscribeAnnouncesErrorMessage : Type 0 where
  pub request_id : ℕ
  pub error_code : ℕ
  pub reason_phrase : List ℕ

pub record UnsubscribeAnnouncesMessage : Type 0 where
  pub track_namespace_prefix : List (List ℕ)

module _ (env : Env) where
  unfoldable pub append_subscribe_announces : List ℕ → SubscribeAnnouncesMessage → List ℕ
  append_subscribe_announces buf m =
      append_num env (append_tuple env (env.append buf m.request_id) m.track_namespace_prefix)
        m.parameters

  unfoldable pub parse_subscribe_announces : List ℕ → Result SubscribeAnnouncesMessage
  parse_subscribe_announces input = do
    (request_id, rest) ← take_varint env input
    (track_namespace_prefix, rest') ← parse_tuple env rest
    parameters ← parse_num env (full rest')
    ok (record {
      request_id = request_id;
      track_namespace_prefix = track_namespace_prefix;
      parameters = parameters;
    })

  unfoldable pub append_subscribe_announces_ok : List ℕ → SubscribeAnnouncesOkMessage → List ℕ
  append_subscribe_announces_ok buf m = env.append buf m.request_id

  unfoldable pub parse_subscribe_announces_ok : List ℕ → Result SubscribeAnnouncesOkMessage
  parse_subscribe_announces_ok input = do
    (request_id, _) ← take_varint env input
    ok (record { request_id = request_id })

  unfoldable pub append_subscribe_announces_error : List ℕ → SubscribeAnnouncesErrorMessage → List ℕ
  append_subscribe_announces_error buf m =
      append_var_int_bytes env (env.append (env.append buf m.request_id) m.error_code)
        m.reason_phrase

  unfoldable pub parse_subscribe_announces_error : List ℕ → Result SubscribeAnnouncesErrorMessage
  parse_subscribe_announces_error input = do
    (request_id, rest) ← take_varint env input
    (error_code, rest') ← take_varint env rest
    (reason_phrase, _) ← parse_var_int_bytes env rest'
    ok (record { request_id = request_id; error_code = error_code; reason_phrase = reason_phrase })

  unfoldable pub append_unsubscribe_announces : List ℕ → UnsubscribeAnnouncesMessage → List ℕ
  append_unsubscribe_announces buf m = append_tuple env buf m.track_namespace_prefix

  unfoldable pub parse_unsubscribe_announces : List ℕ → Result UnsubscribeAnnouncesMessage
  parse_unsubscribe_announces input = do
    (track_namespace_prefix, _) ← parse_tuple env input
    ok (record { track_namespace_prefix = track_namespace_prefix })

-- What an encoder accepts, field by field.
pub record IsSubscribeAnnouncesMessage (env : Env) (m : SubscribeAnnouncesMessage) : Type 0 where
  pub request_id : IsVarint m.request_id
  pub track_namespace_prefix : IsTuple env m.track_namespace_prefix
  pub parameters : IsList env m.parameters

pub record IsSubscribeAnnouncesOkMessage (env : Env) (m : SubscribeAnnouncesOkMessage)
    : Type 0 where
  pub request_id : IsVarint m.request_id

pub record IsSubscribeAnnouncesErrorMessage (env : Env) (m : SubscribeAnnouncesErrorMessage)
    : Type 0 where
  pub request_id : IsVarint m.request_id
  pub error_code : IsVarint m.error_code
  pub reason_phrase : IsText m.reason_phrase

pub record IsUnsubscribeAnnouncesMessage (env : Env) (m : UnsubscribeAnnouncesMessage)
    : Type 0 where
  pub track_namespace_prefix : IsTuple env m.track_namespace_prefix
