-- ===== src/Wire/Filter/RoundTrip.antt =====
-- What is appended for the filter of subscribe_message.go, and its parser.
use moqtransport_fec.Base.{
  ℕ, ◌≡◌, Bool, true, false, List, [], ◌++◌, arith, ltb, ◌==◌, ◌||◌, ok, append_assoc, append-nil,
}
use moqtransport_fec.Wire.Env.{Env, encode, append-encode, take_varint-encode}
use moqtransport_fec.Wire.Fields.{Location, IsFilterType}
use moqtransport_fec.Wire.Fields.RoundTrip.{
  location, append_location_lem, parse_location_lem, append_filter_type_lem,
}
use moqtransport_fec.Wire.Filter.{
  Filter, IsFilter, IsStart, IsEnd, has_start, has_end, append_start, append_end, append_filter,
  parse_start, parse_end, parse_filter,
}

module _ (env : Env) where
  start_bytes : Bool → Location → List ℕ
  start_bytes true l = location env l
  start_bytes false l = []

  end_bytes : Bool → ℕ → List ℕ
  end_bytes true g = encode env g
  end_bytes false g = []

  pub filter_bytes : Filter → List ℕ
  filter_bytes f =
      encode env f.filter_type
      ++ (start_bytes (has_start f.filter_type) f.start_location
          ++ end_bytes (has_end f.filter_type) f.end_group)

  append_start_lem :
      (b : Bool) (buf : List ℕ) (l : Location) → append_start env b buf l ≡ buf ++ start_bytes b l
  unfolding append_start start_bytes
  append_start_lem true buf l = append_location_lem env buf l
  append_start_lem false buf l = rw append-nil

  append_end_lem : (b : Bool) (buf : List ℕ) (g : ℕ) → append_end env b buf g ≡ buf ++ end_bytes b g
  unfolding append_end end_bytes
  append_end_lem true buf g = append-encode env buf g
  append_end_lem false buf g = rw append-nil

  pub append_filter_lem :
      (buf : List ℕ) (f : Filter) → IsFilter f → append_filter env buf f ≡ buf ++ filter_bytes f
  unfolding append_filter filter_bytes
  append_filter_lem buf f w =
      rw (append_end_lem, append_start_lem, append_filter_type_lem env buf _ w.filter_type)
        (simp append_assoc)

  parse_start_lem :
      (b : Bool) (l : Location) (rest : List ℕ)
      → IsStart b l
      → parse_start env b (start_bytes b l ++ rest) ≡ ok (l, rest)
  unfolding parse_start start_bytes
  parse_start_lem true l rest h = parse_location_lem env l rest h
  parse_start_lem false l rest h = rw h

  parse_end_lem :
      (b : Bool) (g : ℕ) (rest : List ℕ)
      → IsEnd b g
      → parse_end env b (end_bytes b g ++ rest) ≡ ok (g, rest)
  unfolding parse_end end_bytes
  parse_end_lem true g rest h = take_varint-encode env g rest h
  parse_end_lem false g rest h = rw h

  known : (f : ℕ) → IsFilterType f → (f == 0 || ltb 4 f) ≡ false
  known f h = ground arith

  pub parse_filter_lem :
      (f : Filter) (rest : List ℕ)
      → IsFilter f
      → parse_filter env (filter_bytes f ++ rest) ≡ ok (f, rest)
  unfolding parse_filter filter_bytes
  parse_filter_lem f rest w = simp append_assoc (
      rw (
        take_varint-encode env f.filter_type _ (omega arith),
        known _ w.filter_type,
        parse_start_lem _ _ _ w.start_location,
        parse_end_lem _ _ _ w.end_group,
      ))
