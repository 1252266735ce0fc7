-- ===== src/Wire/Params.antt =====
-- internal/wire/key_value_pair.go and kvp_list.go. A byte slice is read here with its capacity,
-- since `data[:length]` may reach into the bytes behind its end.
pub mod RoundTrip
pub mod Lengths
pub mod Stuck
use moqtransport_fec.Base.{
  ℕ, zero, suc, ◌+◌, ◌%◌, ◌≤◌, ◌≡◌, Bool, true, false, not, List, [], ◌∷◌, ◌++◌, ltb, ◌==◌, length,
  take, drop, Result, ok, err, panic, hang, eof, unexpected_eof, length_mismatch, ◌>>=◌, ◌>>◌,
  refuse, if◌then◌else◌, All,
}
use moqtransport_fec.Wire.Env.{Env, IsVarint, make}
use moqtransport_fec.Wire.Fields.{IsText}

-- `spare` are the bytes between the length and the capacity.
pub record Slice : Type 0 where
  pub bytes : List ℕ
  pub spare : List ℕ

-- A slice whose capacity is its length, as `make` returns it.
abbrev pub full : List ℕ → Slice
full input = record { bytes = input; spare = [] }

-- data[n:], for n within the length
abbrev pub slice_from : ℕ → Slice → Slice
slice_from n s = record s { bytes = drop n s.bytes }

-- data[:n], which panics beyond the capacity
abbrev pub slice_to : ℕ → Slice → Result Slice
slice_to n s =
    if ltb (length (s.bytes ++ s.spare)) n
    then panic
    else ok (record { bytes = take n (s.bytes ++ s.spare); spare = drop n (s.bytes ++ s.spare) })

pub record KeyValuePair : Type 0 where
  pub typ : ℕ
  pub value_bytes : List ℕ
  pub value_var_int : ℕ

abbrev pub path_parameter_key : ℕ
path_parameter_key = 0x01

abbrev pub max_request_id_parameter_key : ℕ
max_request_id_parameter_key = 0x02

abbrev pub authorization_token_parameter_key : ℕ
authorization_token_parameter_key = 0x03

-- p.Type%2 == 1
abbrev pub has_bytes : ℕ → Bool
has_bytes typ = typ % 2 == 1

module _ (env : Env) where
  unfoldable pub length_pair : KeyValuePair → ℕ
  length_pair p =
      if has_bytes p.typ
      then env.len p.typ + env.len (length p.value_bytes) + length p.value_bytes
      else env.len p.typ + env.len p.value_var_int

  unfoldable pub append_pair : List ℕ → KeyValuePair → List ℕ
  append_pair buf p =
      if has_bytes p.typ
      then env.append (env.append buf p.typ) (length p.value_bytes) ++ p.value_bytes
      else env.append (env.append buf p.typ) p.value_var_int

  -- The pair, and the number of bytes that it took.
  unfoldable pub parse_bytes : ℕ → ℕ → Slice → Result (KeyValuePair × ℕ)
  parse_bytes typ parsed s = do
    (l, n) ← env.parse s.bytes
    make env l
    v ← slice_to l (slice_from n s)
    refuse (not (length v.bytes == l)) length_mismatch
    ok (record { typ = typ; value_bytes = v.bytes; value_var_int = 0 }, parsed + n + length v.bytes)

  unfoldable pub parse_var_int : ℕ → ℕ → Slice → Result (KeyValuePair × ℕ)
  parse_var_int typ parsed s = do
    (v, n) ← env.parse s.bytes
    ok (record { typ = typ; value_bytes = []; value_var_int = v }, parsed + n)

  unfoldable pub parse_pair : Slice → Result (KeyValuePair × ℕ)
  parse_pair s = do
    (typ, n) ← env.parse s.bytes
    if has_bytes typ
        then parse_bytes typ n (slice_from n s)
        else parse_var_int typ n (slice_from n s)

  -- `KeyValuePair.parseReader`, with what is left of the reader. `io.ReadFull` finds nothing, or
  -- less than it wants, at the end of the input.
  unfoldable pub read_full : ℕ → List ℕ → Result (List ℕ × List ℕ)
  read_full n input =
      if ltb (length input) n
      then (if length input == 0 then err eof else err unexpected_eof)
      else ok (take n input, drop n input)

  unfoldable pub read_bytes : ℕ → List ℕ → Result (KeyValuePair × List ℕ)
  read_bytes typ input = do
    (l, rest) ← env.read input
    make env l
    (v, rest') ← read_full l rest
    ok (record { typ = typ; value_bytes = v; value_var_int = 0 }, rest')

  unfoldable pub read_var_int : ℕ → List ℕ → Result (KeyValuePair × List ℕ)
  read_var_int typ input = do
    (v, rest) ← env.read input
    ok (record { typ = typ; value_bytes = []; value_var_int = v }, rest)

  unfoldable pub parse_reader : List ℕ → Result (KeyValuePair × List ℕ)
  parse_reader input = do
    (typ, rest) ← env.read input
    if has_bytes typ then read_bytes typ rest else read_var_int typ rest

  unfoldable pub length_list : List KeyValuePair → ℕ
  length_list [] = 0
  length_list (p ∷ pp) = length_pair p + length_list pp

  unfoldable pub append_list : List ℕ → List KeyValuePair → List ℕ
  append_list buf [] = buf
  append_list buf (p ∷ pp) = append_list (append_pair buf p) pp

  unfoldable pub append_num : List ℕ → List KeyValuePair → List ℕ
  append_num buf pp = append_list (env.append buf (length pp)) pp

  unfoldable pub append_length : List ℕ → List KeyValuePair → List ℕ
  append_length buf pp = append_list (env.append buf (length_list pp)) pp

  -- The loop of `parseNum`, with the number of parameters still to be read.
  unfoldable pub parse_pairs : ℕ → Slice → Result (List KeyValuePair)
  parse_pairs zero s = ok []
  parse_pairs (suc i) s = do (p, n) ← parse_pair s; pp ← parse_pairs i (slice_from n s); ok (p ∷ pp)

  unfoldable pub parse_num : Slice → Result (List KeyValuePair)
  parse_num s = do (count, n) ← env.parse s.bytes; parse_pairs count (slice_from n s)

  -- The loop of `parseLength`: it goes on while `data` is not empty, and never moves `data` on.
  unfoldable pub parse_while : ℕ → Slice → ℕ → List KeyValuePair → Result (List KeyValuePair × ℕ)
  parse_while zero s parsed pp = hang
  parse_while (suc fuel) s parsed pp =
      let rest = parse_pair s >>= λ (p, n). parse_while fuel s (parsed + n) (pp ++ (p ∷ [])) in
      if length s.bytes == 0 then ok (pp, parsed) else rest

  unfoldable pub parse_length : ℕ → Slice → Result (List KeyValuePair × ℕ)
  parse_length fuel s = do
    (l, n) ← env.parse s.bytes
    s' ← slice_to l (slice_from n s)
    parse_while fuel s' n []

  -- The loop of `parseLengthReader`, which ends by an error alone. `input` is what the limited
  -- reader still holds.
  unfoldable pub read_until_error : ℕ → List ℕ → Result (List KeyValuePair)
  read_until_error zero input = hang
  read_until_error (suc fuel) input = do (p, rest) ← parse_reader input; read_until_error fuel rest

  -- Each round reads a byte at least, so one more round than there are bytes is enough.
  unfoldable pub parse_length_reader : List ℕ → Result (List KeyValuePair × List ℕ)
  parse_length_reader input = do
    (l, rest) ← env.read input
    if l == 0
        then ok ([], rest)
        else read_until_error (suc l) (take l rest) >>= λ pp. ok (pp, drop l rest)

-- A parameter as the format has it: an odd type carries bytes, an even one a number.
abbrev pub IsValue : Env → Bool → KeyValuePair → Type 0
IsValue env true p =
    IsText p.value_bytes × (length p.value_bytes ≤ env.make_limit) × (p.value_var_int ≡ 0)
IsValue env false p = IsVarint p.value_var_int × (p.value_bytes ≡ [])

abbrev pub IsPair : Env → KeyValuePair → Type 0
IsPair env p = IsVarint p.typ × IsValue env (has_bytes p.typ) p

abbrev pub IsList : Env → List KeyValuePair → Type 0
IsList env pp = IsVarint (length pp) × All (IsPair env) pp
