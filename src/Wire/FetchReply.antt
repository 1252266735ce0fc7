-- ===== src/Wire/FetchReply.antt =====
-- fetch_ok_message.go, fetch_error_message.go and fetch_cancel_message.go of internal/wire.
pub mod RoundTrip
use moqtransport_fec.Base.{
  ℕ, ◌+◌, ◌≤◌, List, [], ◌∷◌, ◌++◌, ltb, Result, ok, invalid_group_order, ◌>>=◌, ◌>>◌, refuse,
}
use moqtransport_fec.Wire.Env.{Env, IsVarint, take_varint}
use moqtransport_fec.Wire.Fields.{
  Location, IsText, IsLocation, append_var_int_bytes, parse_var_int_bytes, append_location,
  parse_location, two_bytes,
}
use moqtransport_fec.Wire.Params.{KeyValuePair, full, append_num, parse_num, IsList}

pub record FetchOkMessage : Type 0 where
  pub request_id : ℕ
  pub group_order : ℕ
  pub end_of_track : ℕ
  pub end_location : Location
  pub subscribe_parameters : List KeyValuePair

pub record FetchErrorMessage : Type 0 where
  pub request_id : ℕ
  pub error_code : ℕ
  pub reason_phrase : List ℕ

pub record FetchCancelMessage : Type 0 where
  pub request_id : ℕ

module _ (env : Env) where
  unfoldable pub append_fetch_ok : List ℕ → FetchOkMessage → List ℕ
  append_fetch_ok buf m =
      append_num env
        (append_location env (env.append buf m.request_id ++ (m.group_order ∷ m.end_of_track ∷ []))
          m.end_location)
        m.subscribe_parameters

  unfoldable pub parse_fetch_ok : List ℕ → Result FetchOkMessage
  parse_fetch_ok input = do
    (request_id, rest) ← take_varint env input
    (group_order, end_of_track, rest') ← two_bytes rest
    refuse (ltb 2 group_order) invalid_group_order
    (end_location, rest'') ← parse_location env rest'
    subscribe_parameters ← parse_num env (full rest'')
    ok (record {
      request_id = request_id;
      group_order = group_order;
      end_of_track = end_of_track;
      end_location = end_location;
      subscribe_parameters = subscribe_parameters;
    })

  unfoldable pub append_fetch_error : List ℕ → FetchErrorMessage → List ℕ
  append_fetch_error buf m =
      append_var_int_bytes env (env.append (env.append buf m.request_id) m.error_code)
        m.reason_phrase

  unfoldable pub parse_fetch_error : List ℕ → Result FetchErrorMessage
  parse_fetch_error input = do
    (request_id, rest) ← take_varint env input
    (error_code, rest') ← take_varint env rest
    (reason_phrase, _) ← parse_var_int_bytes env rest'
    ok (record { request_id = request_id; error_code = error_code; reason_phrase = reason_phrase })

  unfoldable pub append_fetch_cancel : List ℕ → FetchCancelMessage → List ℕ
  append_fetch_cancel buf m = env.append buf m.request_id

  unfoldable pub parse_fetch_cancel : List ℕ → Result FetchCancelMessage
  parse_fetch_cancel input = do
    (request_id, _) ← take_varint env input
    ok (record { request_id = request_id })

-- What an encoder accepts, field by field.
pub record IsFetchOkMessage (env : Env) (m : FetchOkMessage) : Type 0 where
  pub request_id : IsVarint m.request_id
  pub group_order : m.group_order ≤ 2
  pub end_location : IsLocation m.end_location
  pub subscribe_parameters : IsList env m.subscribe_parameters

pub record IsFetchErrorMessage (env : Env) (m : FetchErrorMessage) : Type 0 where
  pub request_id : IsVarint m.request_id
  pub error_code : IsVarint m.error_code
  pub reason_phrase : IsText m.reason_phrase

pub record IsFetchCancelMessage (env : Env) (m : FetchCancelMessage) : Type 0 where
  pub request_id : IsVarint m.request_id
