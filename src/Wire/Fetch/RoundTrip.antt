-- ===== src/Wire/Fetch/RoundTrip.antt =====
-- `Append` and `parse` together, for fetch_message.go of internal/wire.
use moqtransport_fec.Base.{
  ℕ, ◌≤◌, ◌≡◌, Bool, true, false, List, [], ◌++◌, arith, ltb, ◌||◌, ok, le→ltb, append_assoc,
}
use moqtransport_fec.Wire.Env.{Env, take_varint-encode, encode}
use moqtransport_fec.Wire.Fields.RoundTrip.{
  tuple, var_int_bytes, parse_var_int_bytes_lem, parse_tuple_lem,
}
use moqtransport_fec.Wire.Params.RoundTrip.{parse_num_lem}
use moqtransport_fec.Wire.Rules.{field_laws}
use moqtransport_fec.Wire.Fetch.{
  FetchMessage, IsFetchMessage, append_fetch, parse_fetch, Standalone, Joining, IsRange,
  append_range, parse_range, parse_standalone, parse_joining,
}

module _ (env : Env) where
  range_bytes : Bool → Standalone → Joining → List ℕ
  range_bytes true s j =
      tuple env s.track_namespace
      ++ (var_int_bytes env s.track_name
          ++ (encode env s.start_group
              ++ (encode env s.start_object
                  ++ (encode env s.end_group ++ encode env s.end_object))))
  range_bytes false s j = encode env j.joining_subscribe_id ++ encode env j.joining_start

  append_range_lem :
      (b : Bool) (buf : List ℕ) (s : Standalone) (j : Joining)
      → append_range env b buf s j ≡ buf ++ range_bytes b s j
  unfolding append_range range_bytes
  append_range_lem true buf s j = simp field_laws
  append_range_lem false buf s j = simp field_laws

  parse_range_lem :
      (b : Bool) (s : Standalone) (j : Joining) (rest : List ℕ)
      → IsRange env b s j
      → parse_range env b (range_bytes b s j ++ rest) ≡ ok (s, j, rest)
  unfolding parse_range range_bytes parse_standalone parse_joining
  parse_range_lem true s j rest (w, e) = simp append_assoc (
      rw (
        parse_tuple_lem env _ _ w.track_namespace,
        parse_var_int_bytes_lem env _ _ w.track_name,
        take_varint-encode env _ _ w.start_group,
        take_varint-encode env _ _ w.start_object,
        take_varint-encode env _ _ w.end_group,
        take_varint-encode env _ _ w.end_object,
        e,
      ))
  parse_range_lem false s j rest (w, e) = simp append_assoc (
      rw (
        take_varint-encode env _ _ w.joining_subscribe_id,
        take_varint-encode env _ _ w.joining_start,
        e,
      ))

  known : (t : ℕ) → 1 ≤ t → t ≤ 3 → (ltb t 1 || ltb 3 t) ≡ false
  known t h k = ground arith

  pub append_fetch-buf :
      (buf : List ℕ) (m : FetchMessage) → append_fetch env buf m ≡ buf ++ append_fetch env [] m
  unfolding append_fetch
  append_fetch-buf buf m = simp (append_range_lem, field_laws)

  -- A well-formed FETCH that `Append` wrote, standalone or joining, followed by any bytes, is parsed into
  -- the same message.
  pub parse_fetch-append :
      (m : FetchMessage) (rest : List ℕ)
      → IsFetchMessage env m
      → parse_fetch env (append_fetch env [] m ++ rest) ≡ ok m
  unfolding append_fetch parse_fetch
  parse_fetch-append m rest w =
      simp (append_range_lem, field_laws)
        (rw (
          take_varint-encode env _ _ w.request_id,
          le→ltb 2 m.group_order w.group_order,
          take_varint-encode env m.fetch_type _ (omega arith),
          known _ w.at_least w.at_most,
          parse_range_lem _ _ _ _ w.range,
          parse_num_lem env _ _ [] w.parameters,
        ))
