-- ===== src/Wire/Subscribe.antt =====
-- subscribe_message.go, subscribe_update_message.go, subscribe_error_message.go,
-- subscribe_done_message.go and unsubscribe_message.go of internal/wire.
pub mod RoundTrip
use moqtransport_fec.Base.{
  ℕ, ◌+◌, ◌*◌, ◌≤◌, List, [], ◌∷◌, ◌++◌, ltb, Result, ok, invalid_group_order, invalid_forward_flag,
  ◌>>=◌, ◌>>◌, refuse,
}
use moqtransport_fec.Wire.Env.{Env, IsVarint, take_varint}
use moqtransport_fec.Wire.Fields.{
  Location, IsText, IsTuple, IsLocation, append_var_int_bytes, parse_var_int_bytes, append_tuple,
  parse_tuple, append_location, parse_location, two_bytes, three_bytes,
}
use moqtransport_fec.Wire.Params.{KeyValuePair, full, append_num, parse_num, IsList}
use moqtransport_fec.Wire.Filter.{Filter, IsFilter, append_filter, parse_filter}

-- The fields FilterType, StartLocation and EndGroup are those of the filter.
pub record SubscribeMessage : Type 0 where
  pub request_id : ℕ
  pub track_namespace : List (List ℕ)
  pub track_name : List ℕ
  pub subscriber_priority : ℕ
  pub group_order : ℕ
  pub forward : ℕ
  pub filter : Filter
  pub open filter use *
  pub parameters : List KeyValuePair

pub record SubscribeUpdateMessage : Type 0 where
  pub request_id : ℕ
  pub start_location : Location
  pub end_group : ℕ
  pub subscriber_priority : ℕ
  pub forward : ℕ
  pub parameters : List KeyValuePair

pub record SubscribeErrorMessage : Type 0 where
  pub request_id : ℕ
  pub error_code : ℕ
  pub reason_phrase : List ℕ

pub record SubscribeDoneMessage : Type 0 where
  pub request_id : ℕ
  pub status_code : ℕ
  pub stream_count : ℕ
  pub reason_phrase : List ℕ

pub record UnsubscribeMessage : Type 0 where
  pub request_id : ℕ

module _ (env : Env) where
  unfoldable pub append_subscribe : List ℕ → SubscribeMessage → List ℕ
  append_subscribe buf m =
      append_num env
        (append_filter env
          (append_var_int_bytes env
              (append_tuple env (env.append buf m.request_id) m.track_namespace) m.track_name
            ++ (m.subscriber_priority ∷ m.group_order ∷ m.forward ∷ []))
          m.filter)
        m.parameters

  unfoldable pub parse_subscribe : List ℕ → Result SubscribeMessage
  parse_subscribe input = do
    (request_id, rest) ← take_varint env input
    (track_namespace, rest') ← parse_tuple env rest
    (track_name, rest'') ← parse_var_int_bytes env rest'
    (subscriber_priority, group_order, forward, tail) ← three_bytes rest''
    refuse (ltb 2 group_order) invalid_group_order
    refuse (ltb 1 forward) invalid_forward_flag
    (filter, tail') ← parse_filter env tail
    parameters ← parse_num env (full tail')
    ok (record {
      request_id = request_id;
      track_namespace = track_namespace;
      track_name = track_name;
      subscriber_priority = subscriber_priority;
      group_order = group_order;
      forward = forward;
      filter = filter;
      parameters = parameters;
    })

  unfoldable pub append_subscribe_update : List ℕ → SubscribeUpdateMessage → List ℕ
  append_subscribe_update buf m =
      append_num env
        (env.append (append_location env (env.append buf m.request_id) m.start_location) m.end_group
          ++ (m.subscriber_priority ∷ m.forward ∷ []))
        m.parameters

  -- The code tests `m.Forward > 2`.
  unfoldable pub parse_subscribe_update : List ℕ → Result SubscribeUpdateMessage
  parse_subscribe_update input = do
    (request_id, rest) ← take_varint env input
    (start_location, rest') ← parse_location env rest
    (end_group, rest'') ← take_varint env rest'
    (subscriber_priority, forward, tail) ← two_bytes rest''
    refuse (ltb 2 forward) invalid_forward_flag
    parameters ← parse_num env (full tail)
    ok (record {
      request_id = request_id;
      start_location = start_location;
      end_group = end_group;
      subscriber_priority = subscriber_priority;
      forward = forward;
      parameters = parameters;
    })

  unfoldable pub append_subscribe_error : List ℕ → SubscribeErrorMessage → List ℕ
  append_subscribe_error buf m =
      append_var_int_bytes env (env.append (env.append buf m.request_id) m.error_code)
        m.reason_phrase

  unfoldable pub parse_subscribe_error : List ℕ → Result SubscribeErrorMessage
  parse_subscribe_error input = do
    (request_id, rest) ← take_varint env input
    (error_code, rest') ← take_varint env rest
    (reason_phrase, _) ← parse_var_int_bytes env rest'
    ok (record { request_id = request_id; error_code = error_code; reason_phrase = reason_phrase })

  unfoldable pub append_subscribe_done : List ℕ → SubscribeDoneMessage → List ℕ
  append_subscribe_done buf m =
      append_var_int_bytes env
        (env.append (env.append (env.append buf m.request_id) m.status_code) m.stream_count)
        m.reason_phrase

  unfoldable pub parse_subscribe_done : List ℕ → Result SubscribeDoneMessage
  parse_subscribe_done input = do
    (request_id, rest) ← take_varint env input
    (status_code, rest') ← take_varint env rest
    (stream_count, rest'') ← take_varint env rest'
    (reason_phrase, _) ← parse_var_int_bytes env rest''
    ok (record {
      request_id = request_id;
      status_code = status_code;
      stream_count = stream_count;
      reason_phrase = reason_phrase;
    })

  unfoldable pub append_unsubscribe : List ℕ → UnsubscribeMessage → List ℕ
  append_unsubscribe buf m = env.append buf m.request_id

  unfoldable pub parse_unsubscribe : List ℕ → Result UnsubscribeMessage
  parse_unsubscribe input = do
    (request_id, _) ← take_varint env input
    ok (record { request_id = request_id })

-- What an encoder accepts, field by field.
pub record IsSubscribeMessage (env : Env) (m : SubscribeMessage) : Type 0 where
  pub request_id : IsVarint m.request_id
  pub track_namespace : IsTuple env m.track_namespace
  pub track_name : IsText m.track_name
  pub group_order : m.group_order ≤ 2
  pub forward : m.forward ≤ 1
  pub filter : IsFilter m.filter
  pub parameters : IsList env m.parameters

pub record IsSubscribeUpdateMessage (env : Env) (m : SubscribeUpdateMessage) : Type 0 where
  pub request_id : IsVarint m.request_id
  pub start_location : IsLocation m.start_location
  pub end_group : IsVarint m.end_group
  pub forward : m.forward ≤ 2
  pub parameters : IsList env m.parameters

pub record IsSubscribeErrorMessage (env : Env) (m : SubscribeErrorMessage) : Type 0 where
  pub request_id : IsVarint m.request_id
  pub error_code : IsVarint m.error_code
  pub reason_phrase : IsText m.reason_phrase

pub record IsSubscribeDoneMessage (env : Env) (m : SubscribeDoneMessage) : Type 0 where
  pub request_id : IsVarint m.request_id
  pub status_code : IsVarint m.status_code
  pub stream_count : IsVarint m.stream_count
  pub reason_phrase : IsText m.reason_phrase

pub record IsUnsubscribeMessage (env : Env) (m : UnsubscribeMessage) : Type 0 where
  pub request_id : IsVarint m.request_id
