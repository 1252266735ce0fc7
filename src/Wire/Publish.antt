-- ===== src/Wire/Publish.antt =====
-- publish_message.go, publish_ok_message.go and publish_error_message.go of internal/wire. The parser
-- of control messages makes none of these messages.
pub mod RoundTrip
use moqtransport_fec.Base.{
  ℕ, ◌≤◌, List, [], ◌∷◌, ◌++◌, ltb, ◌==◌, Result, ok, err, panic, length_mismatch,
  invalid_group_order, invalid_content_exists_byte, invalid_forward_flag, ◌>>=◌, ◌>>◌, refuse,
  if◌then◌else◌,
}
use moqtransport_fec.Wire.Env.{Env, IsVarint, take_varint}
use moqtransport_fec.Wire.Fields.{
  Location, IsText, IsTuple, append_var_int_bytes, parse_var_int_bytes, append_tuple, parse_tuple,
  append_location, parse_location, two_bytes, three_bytes,
}
use moqtransport_fec.Wire.Params.{KeyValuePair, full, append_num, append_list, parse_num}
use moqtransport_fec.Wire.Filter.{Filter, no_location, append_filter, parse_filter}

pub record PublishMessage : Type 0 where
  pub request_id : ℕ
  pub track_namespace : List (List ℕ)
  pub track_name : List ℕ
  pub track_alias : ℕ
  pub group_order : ℕ
  pub content_exists : ℕ
  pub largest_location : Location
  pub forward : ℕ
  pub parameters : List KeyValuePair

-- The fields FilterType, Start and EndGroup are those of the filter.
pub record PublishOkMessage : Type 0 where
  pub request_id : ℕ
  pub forward : ℕ
  pub subscriber_priority : ℕ
  pub group_order : ℕ
  pub filter : Filter
  pub parameters : List KeyValuePair

pub record PublishErrorMessage : Type 0 where
  pub request_id : ℕ
  pub error_code : ℕ
  pub reason_phrase : List ℕ

-- `len(data) < 1` is refused, and then the second byte is read.
abbrev pub second_byte : List ℕ → Result ℕ
second_byte [] = err length_mismatch
second_byte (a ∷ []) = panic
second_byte (a ∷ b ∷ rest) = ok b

module _ (env : Env) where
  unfoldable pub append_publish : List ℕ → PublishMessage → List ℕ
  append_publish buf m =
      let head =
        env.append
          (append_var_int_bytes env
            (append_tuple env (env.append buf m.request_id) m.track_namespace) m.track_name)
          m.track_alias
        ++ (m.group_order ∷ m.content_exists ∷ []) in
      append_num env
        ((if ltb 0 m.content_exists then append_location env head m.largest_location else head)
          ++ (m.forward ∷ []))
        m.parameters

  unfoldable pub parse_largest : ℕ → List ℕ → Result (Location × List ℕ)
  parse_largest content_exists input =
      if content_exists == 1 then parse_location env input else ok (no_location, input)

  -- What is behind the location; the forward flag is not skipped.
  unfoldable pub parse_forward : List ℕ → Result (ℕ × List KeyValuePair)
  parse_forward input = do
    forward ← second_byte input
    refuse (ltb 1 forward) invalid_forward_flag
    parameters ← parse_num env (full input)
    ok (forward, parameters)

  unfoldable pub parse_publish : List ℕ → Result PublishMessage
  parse_publish input = do
    (request_id, rest) ← take_varint env input
    (track_namespace, rest') ← parse_tuple env rest
    (track_name, rest'') ← parse_var_int_bytes env rest'
    (track_alias, rest''') ← take_varint env rest''
    (group_order, content_exists, tail) ← two_bytes rest'''
    refuse (ltb 2 group_order) invalid_group_order
    refuse (ltb 1 content_exists) invalid_content_exists_byte
    (largest_location, tail') ← parse_largest content_exists tail
    (forward, parameters) ← parse_forward tail'
    ok (record {
      request_id = request_id;
      track_namespace = track_namespace;
      track_name = track_name;
      track_alias = track_alias;
      group_order = group_order;
      content_exists = content_exists;
      largest_location = largest_location;
      forward = forward;
      parameters = parameters;
    })

  -- The parameters are appended without their number.
  unfoldable pub append_publish_ok : List ℕ → PublishOkMessage → List ℕ
  append_publish_ok buf m =
      append_list env
        (append_filter env
          (env.append buf m.request_id ++ (m.forward ∷ m.subscriber_priority ∷ m.group_order ∷ []))
          m.filter)
        m.parameters

  unfoldable pub parse_publish_ok : List ℕ → Result PublishOkMessage
  parse_publish_ok input = do
    (request_id, rest) ← take_varint env input
    (forward, subscriber_priority, group_order, tail) ← three_bytes rest
    refuse (ltb 1 forward) invalid_forward_flag
    refuse (ltb 2 group_order) invalid_group_order
    (filter, tail') ← parse_filter env tail
    parameters ← parse_num env (full tail')
    ok (record {
      request_id = request_id;
      forward = forward;
      subscriber_priority = subscriber_priority;
      group_order = group_order;
      filter = filter;
      parameters = parameters;
    })

  unfoldable pub append_publish_error : List ℕ → PublishErrorMessage → List ℕ
  append_publish_error buf m =
      append_var_int_bytes env (env.append (env.append buf m.request_id) m.error_code)
        m.reason_phrase

  unfoldable pub parse_publish_error : List ℕ → Result PublishErrorMessage
  parse_publish_error input = do
    (request_id, rest) ← take_varint env input
    (error_code, rest') ← take_varint env rest
    (reason_phrase, rest'') ← parse_var_int_bytes env rest'
    ok (record { request_id = request_id; error_code = error_code; reason_phrase = reason_phrase })

-- What an encoder accepts, field by field.
pub record IsPublishMessage (env : Env) (m : PublishMessage) : Type 0 where
  pub request_id : IsVarint m.request_id
  pub track_namespace : IsTuple env m.track_namespace
  pub track_name : IsText m.track_name
  pub track_alias : IsVarint m.track_alias
  pub group_order : m.group_order ≤ 2
  pub forward : m.forward ≤ 1

pub record IsPublishErrorMessage (m : PublishErrorMessage) : Type 0 where
  pub request_id : IsVarint m.request_id
  pub error_code : IsVarint m.error_code
  pub reason_phrase : IsText m.reason_phrase
