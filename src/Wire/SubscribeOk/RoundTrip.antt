-- ===== src/Wire/SubscribeOk/RoundTrip.antt =====
-- `Append` and `parse` together, for subscribe_ok_message.go of internal/wire.
use moqtransport_fec.Base.{
  ℕ, ◌*◌, ◌%◌, ◌^◌, ◌≡◌, refl, ◌∙◌, Bool, true, false, List, [], ◌∷◌, ◌++◌, ltb, ◌==◌, ok, le→ltb,
  append_assoc,
}
use moqtransport_fec.Wire.Env.{Env, take_varint-encode}
use moqtransport_fec.Wire.Fields.{Location}
use moqtransport_fec.Wire.Fields.RoundTrip.{location, append_location_lem, parse_location_lem}
use moqtransport_fec.Wire.Params.RoundTrip.{parse_num_lem}
use moqtransport_fec.Wire.Rules.{field_laws}
use moqtransport_fec.Wire.Filter.{IsStart}
use moqtransport_fec.Wire.SubscribeOk.{
  append_content, parse_content, SubscribeOkMessage, IsSubscribeOkMessage, append_subscribe_ok,
  parse_subscribe_ok, millisecond,
}

module _ (env : Env) where
  flag : Bool → ℕ
  flag true = 1
  flag false = 0

  location_bytes : Bool → Location → List ℕ
  location_bytes true l = location env l
  location_bytes false l = []

  append_content_lem :
      (b : Bool) (buf : List ℕ) (l : Location)
      → append_content env b buf l ≡ buf ++ (flag b ∷ location_bytes b l)
  unfolding append_content flag location_bytes
  append_content_lem true buf l = append_location_lem env (buf ++ (1 ∷ [])) l ∙ append_assoc buf _ _
  append_content_lem false buf l = refl

  flag_small : (b : Bool) → ltb 1 (flag b) ≡ false
  unfolding flag
  flag_small true = refl
  flag_small false = refl

  flag_set : (b : Bool) → (flag b == 1) ≡ b
  unfolding flag
  flag_set true = refl
  flag_set false = refl

  parse_content_lem :
      (b : Bool) (l : Location) (rest : List ℕ)
      → IsStart b l
      → parse_content env b (location_bytes b l ++ rest) ≡ ok (l, rest)
  unfolding parse_content location_bytes
  parse_content_lem true l rest h = parse_location_lem env l rest h
  parse_content_lem false l rest h = rw h

  pub append_subscribe_ok-buf :
      (buf : List ℕ) (m : SubscribeOkMessage)
      → append_subscribe_ok env buf m ≡ buf ++ append_subscribe_ok env [] m
  unfolding append_subscribe_ok
  append_subscribe_ok-buf buf m = simp (append_content_lem, field_laws)

  -- A SUBSCRIBE_OK that `Append` wrote, followed by any bytes, is parsed into the message with
  -- every field as it was but `expires`: what is sent in nanoseconds is read in milliseconds, and
  -- so multiplied by a million, modulo 2^64.
  pub parse_subscribe_ok-append :
      (m : SubscribeOkMessage) (rest : List ℕ)
      → IsSubscribeOkMessage env m
      → parse_subscribe_ok env (append_subscribe_ok env [] m ++ rest)
        ≡ ok (record m { expires = m.expires * millisecond % 2 ^ 64 })
  unfolding append_subscribe_ok parse_subscribe_ok
  parse_subscribe_ok-append m rest w =
      simp (append_content_lem, field_laws)
        (rw (
          take_varint-encode env _ _ w.request_id,
          take_varint-encode env _ _ w.track_alias,
          take_varint-encode env _ _ w.expires,
          le→ltb 2 m.group_order w.group_order,
          flag_small m.content_exists,
          flag_set m.content_exists,
          parse_content_lem _ _ _ w.largest_location,
          parse_num_lem env _ _ [] w.parameters,
        ))
