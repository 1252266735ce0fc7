-- ===== src/Wire/Params/Stuck.antt =====
-- The lists of kvp_list.go behind their length in bytes: parseLength and parseLengthReader on what
-- appendLength writes.
use moqtransport_fec.Base.{
  ℕ, zero, suc, ◌+◌, ◌≤◌, ◌≡◌, refl, List, [], ◌∷◌, ◌++◌, arith, length, take-length, drop-length,
  ok, err, hang, eof, All, length-append, take-length,
}
use moqtransport_fec.Wire.Env.{Env, IsVarint, encode, parse-encode, encode-pos}
use moqtransport_fec.Wire.Params.{
  KeyValuePair, has_bytes, parse_while, parse_length, parse_reader, append_length, IsPair,
}
use moqtransport_fec.Wire.Params.RoundTrip.{value, pair, pairs, parse_pair_lem, slice_to_lem}
use moqtransport_fec.Wire.Params.Lengths.{append_length-rest}

module _ (env : Env) where
  -- A parameter takes up at least one byte.
  pair-pos : (p : KeyValuePair) → IsPair env p → 1 ≤ length (pair env p)
  unfolding pair
  pair-pos p (h, _) = omega (
    arith,
    encode-pos env p.typ h,
    length-append (encode env p.typ) (value env (has_bytes p.typ) p),
  )

  -- The loop parses the first parameter again and again.
  parse_while-hang :
      (fuel : ℕ) (p : KeyValuePair) (rest spare : List ℕ) (parsed : ℕ) (pp : List KeyValuePair)
      → IsPair env p
      → parse_while env fuel (record { bytes = pair env p ++ rest; spare = spare }) parsed pp ≡ hang
  unfolding parse_while
  parse_while-hang zero p rest spare parsed pp h = refl
  parse_while-hang (suc fuel) p rest spare parsed pp h = ground (
    arith,
    pair-pos p h,
    length-append (pair env p) rest,
    parse_pair_lem env p rest spare h,
    parse_while-hang fuel p rest spare (parsed + length (pair env p)) (pp ++ (p ∷ [])) h,
  )

  -- On what `appendLength` writes for a list of parameters that is not empty, the loop of
  -- `parseLength` never ends, however many rounds it is given.
  pub parse_length-hang :
      (fuel : ℕ) (p : KeyValuePair) (pp : List KeyValuePair) (rest spare : List ℕ)
      → All (IsPair env) (p ∷ pp)
      → IsVarint (length (pairs env (p ∷ pp)))
      → parse_length env fuel
          (record { bytes = append_length env [] (p ∷ pp) ++ rest; spare = spare })
        ≡ hang
  unfolding parse_length
  parse_length-hang fuel p pp rest spare (h, hs) fits =
      rw (append_length-rest env (p ∷ pp) rest (h, hs), parse-encode env _ _ fits)
        (rw
          (
            drop-length (encode env (length (pairs env (p ∷ pp)))),
            slice_to_lem (pairs env (p ∷ pp)) rest spare,
          )
          (unfold pairs in parse_while-hang fuel p (pairs env pp) (rest ++ spare) _ [] h))

  -- The empty list is read back.
  pub parse_length_empty :
      (fuel : ℕ) (rest spare : List ℕ)
      → parse_length env
          (suc fuel)
          (record { bytes = append_length env [] [] ++ rest; spare = spare })
        ≡ ok ([], length (encode env 0))
  unfolding parse_length parse_while
  parse_length_empty fuel rest spare =
      rw (append_length-rest env [] rest tt)
        (unfold pairs in rw (parse-encode env 0 _ (omega arith)) (ground arith))

  -- The calls of `parseReader` on an input return these parameters, one after the other, and then the
  -- end of the input.
  unfoldable pub Reads : List KeyValuePair → List ℕ → Type 0
  Reads [] input = parse_reader env input ≡ err eof
  Reads (p ∷ pp) input = (rest : List ℕ) × (parse_reader env input ≡ ok (p, rest)) × Reads pp rest
