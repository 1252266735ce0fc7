-- ===== src/Wire/Fields.antt =====
-- internal/wire/varint_bytes.go, tuple.go, location.go and version.go, and FilterType of
-- subscribe_message.go. Strings are lists of bytes. A parser of a field returns, with the value,
-- what `data = data[n:]` leaves behind it. What Go returns along with an error is dropped: the
-- callers return at once.
pub mod RoundTrip
use moqtransport_fec.Base.{
  ℕ, zero, suc, ◌≤◌, List, [], ◌∷◌, ◌++◌, ltb, ◌==◌, ◌||◌, length, take, drop, Result, ok, err,
  unexpected_eof, length_mismatch, ◌>>=◌, ◌>>◌, refuse, if◌then◌else◌, All,
}
use moqtransport_fec.Wire.Env.{Env, IsVarint, take_varint, make}

-- `if len(data) < n { return errLengthMismatch }`, and the bytes that are then read.
abbrev pub one_byte : List ℕ → Result (ℕ × List ℕ)
one_byte [] = err length_mismatch
one_byte (a ∷ rest) = ok (a, rest)

abbrev pub two_bytes : List ℕ → Result (ℕ × ℕ × List ℕ)
two_bytes (a ∷ b ∷ rest) = ok (a, b, rest)
two_bytes _ = err length_mismatch

abbrev pub three_bytes : List ℕ → Result (ℕ × ℕ × ℕ × List ℕ)
three_bytes (a ∷ b ∷ c ∷ rest) = ok (a, b, c, rest)
three_bytes _ = err length_mismatch

pub record Location : Type 0 where
  pub group : ℕ
  pub object : ℕ

abbrev pub filter_type_next_group_start : ℕ
filter_type_next_group_start = 0x01

abbrev pub filter_type_latest_object : ℕ
filter_type_latest_object = 0x02

abbrev pub filter_type_absolute_start : ℕ
filter_type_absolute_start = 0x03

abbrev pub filter_type_absolute_range : ℕ
filter_type_absolute_range = 0x04

abbrev pub current_version : ℕ
current_version = 0xff00_000b

abbrev pub supported_versions : List ℕ
supported_versions = current_version ∷ []

module _ (env : Env) where
  unfoldable pub append_var_int_bytes : List ℕ → List ℕ → List ℕ
  append_var_int_bytes buf input = env.append buf (length input) ++ input

  unfoldable pub parse_var_int_bytes : List ℕ → Result (List ℕ × List ℕ)
  parse_var_int_bytes input = do
    (l, rest) ← take_varint env input
    if l == 0
        then ok ([], rest)
        else if ltb (length rest) l
        then err unexpected_eof
        else ok (take l rest, drop l rest)

  -- The body of the loop of `Tuple.append`, over the rest of the tuple.
  unfoldable pub append_strings : List ℕ → List (List ℕ) → List ℕ
  append_strings buf [] = buf
  append_strings buf (t ∷ ts) = append_strings (env.append buf (length t) ++ t) ts

  unfoldable pub append_tuple : List ℕ → List (List ℕ) → List ℕ
  append_tuple buf t = append_strings (env.append buf (length t)) t

  -- The loop of `parseTuple`, with the number of elements still to be read.
  unfoldable pub parse_strings : ℕ → List ℕ → Result (List (List ℕ) × List ℕ)
  parse_strings zero input = ok ([], input)
  parse_strings (suc i) input = do
    (l, rest) ← take_varint env input
    refuse (ltb (length rest) l) length_mismatch
    (ts, rest') ← parse_strings i (drop l rest)
    ok (take l rest ∷ ts, rest')

  unfoldable pub parse_tuple : List ℕ → Result (List (List ℕ) × List ℕ)
  parse_tuple input = do (n, rest) ← take_varint env input; make env n; parse_strings n rest

  unfoldable pub append_location : List ℕ → Location → List ℕ
  append_location buf l = env.append (env.append buf l.group) l.object

  unfoldable pub parse_location : List ℕ → Result (Location × List ℕ)
  parse_location input = do
    (group, rest) ← take_varint env input
    (object, rest') ← take_varint env rest
    ok (record { group = group; object = object }, rest')

  -- The loop of `versions.append` and of `ClientSetupMessage.Append`.
  unfoldable pub append_numbers : List ℕ → List ℕ → List ℕ
  append_numbers buf [] = buf
  append_numbers buf (v ∷ vs) = append_numbers (env.append buf v) vs

  unfoldable pub append_versions : List ℕ → List ℕ → List ℕ
  append_versions buf vs = append_numbers (env.append buf (length vs)) vs

  unfoldable pub parse_numbers : ℕ → List ℕ → Result (List ℕ × List ℕ)
  parse_numbers zero input = ok ([], input)
  parse_numbers (suc i) input = do
    (v, rest) ← take_varint env input
    (vs, rest') ← parse_numbers i rest
    ok (v ∷ vs, rest')

  unfoldable pub parse_versions : List ℕ → Result (List ℕ × List ℕ)
  parse_versions input = do (n, rest) ← take_varint env input; parse_numbers n rest

  -- A filter type that is none of the four is sent as NextGroupStart.
  unfoldable pub append_filter_type : List ℕ → ℕ → List ℕ
  append_filter_type buf f =
      if f == filter_type_latest_object
        || (f == filter_type_next_group_start
            || (f == filter_type_absolute_start || f == filter_type_absolute_range))
      then env.append buf f
      else env.append buf filter_type_next_group_start

-- What an encoder accepts, field by field.
abbrev pub IsText : List ℕ → Type 0
IsText s = IsVarint (length s)

abbrev pub IsTuple : Env → List (List ℕ) → Type 0
IsTuple env t = IsVarint (length t) × (length t ≤ env.make_limit) × All IsText t

abbrev pub IsVersions : List ℕ → Type 0
IsVersions vs = IsVarint (length vs) × All IsVarint vs

abbrev pub IsLocation : Location → Type 0
IsLocation l = IsVarint l.group × IsVarint l.object

abbrev pub IsFilterType : ℕ → Type 0
IsFilterType f = (1 ≤ f) × (f ≤ 4)
