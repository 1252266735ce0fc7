-- ===== src/Wire/SubscribeOk.antt =====
-- subscribe_ok_message.go of internal/wire.
pub mod RoundTrip
use moqtransport_fec.Base.{
  ℕ, ◌+◌, ◌*◌, ◌%◌, ◌^◌, ◌≤◌, Bool, true, false, List, [], ◌∷◌, ◌++◌, ltb, ◌==◌, Result, ok,
  invalid_content_exists_byte, invalid_group_order, ◌>>=◌, ◌>>◌, refuse,
}
use moqtransport_fec.Wire.Env.{Env, IsVarint, take_varint}
use moqtransport_fec.Wire.Fields.{Location, append_location, parse_location, two_bytes}
use moqtransport_fec.Wire.Params.{KeyValuePair, full, append_num, parse_num, IsList}
use moqtransport_fec.Wire.Filter.{no_location, IsStart}

-- `expires` is the bit pattern of a time.Duration, which counts nanoseconds in an int64.
pub record SubscribeOkMessage : Type 0 where
  pub request_id : ℕ
  pub track_alias : ℕ
  pub expires : ℕ
  pub group_order : ℕ
  pub content_exists : Bool
  pub largest_location : Location
  pub parameters : List KeyValuePair

abbrev pub millisecond : ℕ
millisecond = 1_000_000

module _ (env : Env) where
  append_content : Bool → List ℕ → Location → List ℕ
  append_content true buf l = append_location env (buf ++ (1 ∷ [])) l
  append_content false buf l = buf ++ (0 ∷ [])

  pub append_subscribe_ok : List ℕ → SubscribeOkMessage → List ℕ
  append_subscribe_ok buf m =
      append_num env
        (append_content m.content_exists
          (env.append (env.append (env.append buf m.request_id) m.track_alias) m.expires
            ++ (m.group_order ∷ []))
          m.largest_location)
        m.parameters

  parse_content : Bool → List ℕ → Result (Location × List ℕ)
  parse_content true input = parse_location env input
  parse_content false input = ok (no_location, input)

  pub parse_subscribe_ok : List ℕ → Result SubscribeOkMessage
  parse_subscribe_ok input = do
    (request_id, rest) ← take_varint env input
    (track_alias, rest') ← take_varint env rest
    (expires, rest'') ← take_varint env rest'
    (group_order, content_exists, tail) ← two_bytes rest''
    refuse (ltb 2 group_order) invalid_group_order
    refuse (ltb 1 content_exists) invalid_content_exists_byte
    (largest_location, tail') ← parse_content (content_exists == 1) tail
    parameters ← parse_num env (full tail')
    ok (record {
      request_id = request_id;
      track_alias = track_alias;
      expires = expires * millisecond % 2 ^ 64;
      group_order = group_order;
      content_exists = content_exists == 1;
      largest_location = largest_location;
      parameters = parameters;
    })

-- What an encoder accepts, field by field.
pub record IsSubscribeOkMessage (env : Env) (m : SubscribeOkMessage) : Type 0 where
  pub request_id : IsVarint m.request_id
  pub track_alias : IsVarint m.track_alias
  pub expires : IsVarint m.expires
  pub group_order : m.group_order ≤ 2
  pub largest_location : IsStart m.content_exists m.largest_location
  pub parameters : IsList env m.parameters
