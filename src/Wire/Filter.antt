-- ===== src/Wire/Filter.antt =====
-- The filter of a subscription: the lines on FilterType, the start location and the end group that
-- subscribe_message.go and publish_ok_message.go of internal/wire share.
pub mod RoundTrip
use moqtransport_fec.Base.{
  ℕ, ◌≡◌, Bool, true, false, List, ltb, ◌==◌, ◌||◌, Result, ok, invalid_filter_type, ◌>>=◌, ◌>>◌,
  refuse, if◌then◌else◌,
}
use moqtransport_fec.Wire.Env.{Env, IsVarint, take_varint}
use moqtransport_fec.Wire.Fields.{
  Location, IsLocation, IsFilterType, append_location, parse_location, append_filter_type,
  filter_type_absolute_start, filter_type_absolute_range,
}

pub record Filter : Type 0 where
  pub filter_type : ℕ
  pub start_location : Location
  pub end_group : ℕ

-- The zero value of a field that is not on the wire.
abbrev pub no_location : Location
no_location = record { group = 0; object = 0 }

abbrev pub has_start : ℕ → Bool
has_start f = f == filter_type_absolute_start || f == filter_type_absolute_range

abbrev pub has_end : ℕ → Bool
has_end f = f == filter_type_absolute_range

module _ (env : Env) where
  append_start : Bool → List ℕ → Location → List ℕ
  append_start b buf l = if b then append_location env buf l else buf

  append_end : Bool → List ℕ → ℕ → List ℕ
  append_end b buf g = if b then env.append buf g else buf

  unfoldable pub append_filter : List ℕ → Filter → List ℕ
  unfolding append_end append_start
  append_filter buf f =
      append_end (has_end f.filter_type)
        (append_start (has_start f.filter_type) (append_filter_type env buf f.filter_type)
          f.start_location)
        f.end_group

  parse_start : Bool → List ℕ → Result (Location × List ℕ)
  parse_start b input = if b then parse_location env input else ok (no_location, input)

  parse_end : Bool → List ℕ → Result (ℕ × List ℕ)
  parse_end b input = if b then take_varint env input else ok (0, input)

  pub parse_filter : List ℕ → Result (Filter × List ℕ)
  parse_filter input = do
    (f, rest) ← take_varint env input
    refuse (f == 0 || ltb 4 f) invalid_filter_type
    (l, rest') ← parse_start (has_start f) rest
    (g, rest'') ← parse_end (has_end f) rest'
    ok (record { filter_type = f; start_location = l; end_group = g }, rest'')

-- A field that the filter type leaves out has its zero value.
abbrev pub IsStart : Bool → Location → Type 0
IsStart true l = IsLocation l
IsStart false l = l ≡ no_location

abbrev pub IsEnd : Bool → ℕ → Type 0
IsEnd true g = IsVarint g
IsEnd false g = g ≡ 0

pub record IsFilter (f : Filter) : Type 0 where
  pub filter_type : IsFilterType f.filter_type
  pub start_location : IsStart (has_start f.filter_type) f.start_location
  pub end_group : IsEnd (has_end f.filter_type) f.end_group
