-- ===== src/Wire/Params/RoundTrip.antt =====
-- What key_value_pair.go and kvp_list.go append, and their parsers.
use moqtransport_fec.Base.{
  ℕ, ◌+◌, ◌≡◌, refl, sym, ◌∙◌, Bool, true, false, List, [], ◌∷◌, ◌++◌, arith, length, ok, All,
  append_assoc, append-nil, take-length, drop-length, append-covers, if◌then◌else◌, length-append,
  Bool-cases, inl, inr,
}
use moqtransport_fec.Wire.Env.{Env, encode, append-encode, parse-encode, read-encode, make_lem}
use moqtransport_fec.Wire.Params.{
  slice_to, KeyValuePair, has_bytes, append_pair, parse_pair, parse_bytes, parse_var_int,
  append_list, append_num, parse_pairs, parse_num, IsValue, IsPair, IsList, read_full, read_bytes,
  read_var_int, parse_reader,
}

pub slice_to_lem :
    (xs rest spare : List ℕ)
    → slice_to (length xs) (record { bytes = xs ++ rest; spare = spare })
      ≡ ok (record { bytes = xs; spare = rest ++ spare })
slice_to_lem xs rest spare =
    rw append_assoc (rw (append-covers xs (rest ++ spare), take-length xs, drop-length xs))

module _ (env : Env) where
  unfoldable pub value : Bool → KeyValuePair → List ℕ
  value true p = encode env (length p.value_bytes) ++ p.value_bytes
  value false p = encode env p.value_var_int

  -- The bytes of one parameter.
  unfoldable pub pair : KeyValuePair → List ℕ
  pair p = encode env p.typ ++ value (has_bytes p.typ) p

  pub append_pair_lem : (buf : List ℕ) (p : KeyValuePair) → append_pair env buf p ≡ buf ++ pair p
  unfolding append_pair pair value
  append_pair_lem buf p = elim (Bool-cases (has_bytes p.typ)) [
    | inl h ↦ rw h (simp (append-encode, append_assoc))
    | inr h ↦ rw h (simp (append-encode, append_assoc))
  ]

  parse_bytes_lem :
      (p : KeyValuePair) (parsed : ℕ) (rest spare : List ℕ)
      → IsValue env true p
      → parse_bytes env p.typ parsed (record { bytes = value true p ++ rest; spare = spare })
        ≡ ok (p, parsed + length (value true p))
  unfolding parse_bytes value
  parse_bytes_lem p parsed rest spare (h, fits, z) =
      rw (append_assoc, parse-encode env _ _ h)
        (rw
          (
            make_lem env _ fits,
            drop-length (encode env (length p.value_bytes)),
            slice_to_lem p.value_bytes,
          )
          (ground (arith, length-append (encode env (length p.value_bytes)) p.value_bytes)))

  parse_var_int_lem :
      (p : KeyValuePair) (parsed : ℕ) (rest spare : List ℕ)
      → IsValue env false p
      → parse_var_int env p.typ parsed (record { bytes = value false p ++ rest; spare = spare })
        ≡ ok (p, parsed + length (value false p))
  unfolding parse_var_int value
  parse_var_int_lem p parsed rest spare (h, e) = rw (parse-encode env _ _ h) (ground arith)

  pub parse_pair_lem :
      (p : KeyValuePair) (rest spare : List ℕ)
      → IsPair env p
      → parse_pair env (record { bytes = pair p ++ rest; spare = spare }) ≡ ok (p, length (pair p))
  unfolding parse_pair pair
  parse_pair_lem p rest spare (h, v) =
      rw
        (
          append_assoc,
          parse-encode env _ _ h,
          drop-length (encode env p.typ),
          length-append (encode env p.typ),
        )
        (by_kind (has_bytes p.typ) v)
    where
      by_kind :
          (b : Bool)
          → IsValue env b p
          → (if b
              then parse_bytes env p.typ
                  (length (encode env p.typ))
                  (record { bytes = value b p ++ rest; spare = spare })
              else parse_var_int env p.typ
                  (length (encode env p.typ))
                  (record { bytes = value b p ++ rest; spare = spare }))
            ≡ ok (p, length (encode env p.typ) + length (value b p))
      by_kind true v = parse_bytes_lem p _ rest spare v
      by_kind false v = parse_var_int_lem p _ rest spare v

  unfoldable pub pairs : List KeyValuePair → List ℕ
  pairs [] = []
  pairs (p ∷ pp) = pair p ++ pairs pp

  pub append_list_lem :
      (buf : List ℕ) (pp : List KeyValuePair) → append_list env buf pp ≡ buf ++ pairs pp
  unfolding append_list pairs
  append_list_lem buf [] = sym (append-nil buf)
  append_list_lem buf (p ∷ pp) =
      append_list_lem (append_pair env buf p) pp ∙ simp (append_pair_lem, append_assoc)

  parse_pairs_lem :
      (pp : List KeyValuePair) (rest spare : List ℕ)
      → All (IsPair env) pp
      → parse_pairs env (length pp) (record { bytes = pairs pp ++ rest; spare = spare }) ≡ ok pp
  unfolding parse_pairs pairs
  parse_pairs_lem [] rest spare h = refl
  parse_pairs_lem (p ∷ pp) rest spare (h, hs) =
      rw (append_assoc, parse_pair_lem p _ spare h)
        (rw (drop-length (pair p), parse_pairs_lem pp rest spare hs))

  -- The bytes of a list of parameters behind its number of elements.
  unfoldable pub parameters : List KeyValuePair → List ℕ
  parameters pp = encode env (length pp) ++ pairs pp

  pub append_num_lem :
      (buf : List ℕ) (pp : List KeyValuePair) → append_num env buf pp ≡ buf ++ parameters pp
  unfolding append_num parameters
  append_num_lem buf pp =
      append_list_lem (env.append buf (length pp)) pp ∙ simp (append-encode, append_assoc)

  pub parse_num_lem :
      (pp : List KeyValuePair) (rest spare : List ℕ)
      → IsList env pp
      → parse_num env (record { bytes = parameters pp ++ rest; spare = spare }) ≡ ok pp
  unfolding parse_num parameters
  parse_num_lem pp rest spare (h, hs) =
      rw (append_assoc, parse-encode env _ _ h)
        (rw (drop-length (encode env (length pp))) (parse_pairs_lem pp rest spare hs))

  -- The same for the parsers that take their bytes from a reader.
  pub read_full_lem : (xs rest : List ℕ) → read_full env (length xs) (xs ++ rest) ≡ ok (xs, rest)
  unfolding read_full
  read_full_lem xs rest = rw (append-covers xs rest, take-length xs, drop-length xs)

  read_bytes_lem :
      (p : KeyValuePair) (rest : List ℕ)
      → IsValue env true p
      → read_bytes env p.typ (value true p ++ rest) ≡ ok (p, rest)
  unfolding read_bytes value
  read_bytes_lem p rest (h, fits, z) =
      rw (append_assoc, read-encode env _ _ h)
        (rw (make_lem env _ fits, read_full_lem p.value_bytes rest) (ground arith))

  read_var_int_lem :
      (p : KeyValuePair) (rest : List ℕ)
      → IsValue env false p
      → read_var_int env p.typ (value false p ++ rest) ≡ ok (p, rest)
  unfolding read_var_int value
  read_var_int_lem p rest (h, e) = rw (read-encode env _ _ h) (ground arith)

  pub parse_reader_lem :
      (p : KeyValuePair) (rest : List ℕ)
      → IsPair env p
      → parse_reader env (pair p ++ rest) ≡ ok (p, rest)
  unfolding parse_reader pair
  parse_reader_lem p rest (h, v) =
      rw (append_assoc, read-encode env _ _ h) (by_kind (has_bytes p.typ) v)
    where
      by_kind :
          (b : Bool)
          → IsValue env b p
          → (if b
              then read_bytes env p.typ (value b p ++ rest)
              else read_var_int env p.typ (value b p ++ rest))
            ≡ ok (p, rest)
      by_kind true v = read_bytes_lem p rest v
      by_kind false v = read_var_int_lem p rest v
