-- ===== src/Wire/Streams/Consumption.antt =====
-- Every object that object_stream_parser.go parses takes bytes off the stream.
use moqtransport_fec.Base.{
  ℕ, zero, suc, ◌≤◌, ◌<◌, ◌≡◌, ◌≢◌, arith, List, [], ◌∷◌, Option, none, some, length, length-drop,
  take, ◌==◌, ok, err, invalid_stream_type, ◌>>◌, >>=-eq-ok, Bool-cases, inl, inr,
}
use moqtransport_fec.Wire.Env.{Env, make}
use moqtransport_fec.Wire.Params.{
  KeyValuePair, read_full, parse_reader, read_until_error, parse_length_reader,
}
use moqtransport_fec.Wire.Control.{read_byte}
use moqtransport_fec.Wire.Objects.{
  ObjectMessage, stream_type_fetch, read_subgroup_headers, read_payload, read_headers,
  read_subgroup, read_fetch,
}
use moqtransport_fec.Wire.Streams.{
  ObjectStreamParser, is_subgroup, parse_subgroup_object, parse_fetch_object, parse_object,
}

read_byte-shrinks :
    (input : List ℕ) (b : ℕ) (rest : List ℕ)
    → read_byte input ≡ ok (b, rest)
    → length rest < length input
unfolding read_byte
read_byte-shrinks [] b rest e = cc
read_byte-shrinks (a ∷ input) b rest e = ground arith

module _ (env : Env) where
  read_until_error-fails :
      (fuel : ℕ) (input : List ℕ) (pp : List KeyValuePair) → read_until_error env fuel input ≢ ok pp
  unfolding read_until_error
  read_until_error-fails zero input pp e = cc
  read_until_error-fails (suc fuel) input pp e =
      let ((p, rest), _, q) = >>=-eq-ok (parse_reader env input) _ e in
      read_until_error-fails fuel rest pp q

  parse_length_reader-shrinks :
      (input : List ℕ) (pp : List KeyValuePair) (rest : List ℕ)
      → parse_length_reader env input ≡ ok (pp, rest)
      → length rest < length input
  unfolding parse_length_reader
  parse_length_reader-shrinks input pp rest e =
      let ((l, tail), read, q) = >>=-eq-ok (env.read input) _ e in
      elim (Bool-cases (l == 0)) [
        | inl z ↦ ground (arith, env.read_bounds input l tail)
        | inr z ↦
            let (qs, bad, _) =
              >>=-eq-ok (read_until_error env (suc l) (take l tail)) _ (rw z at q) in
            absurd (read_until_error-fails (suc l) (take l tail) qs bad)
      ]

  pub read_full-shrinks :
      (n : ℕ) (input xs rest : List ℕ)
      → read_full env n input ≡ ok (xs, rest)
      → length rest ≤ length input
  unfolding read_full
  read_full-shrinks n input xs rest e = ground (arith, length-drop n input)

  read_payload-shrinks :
      (m m' : ObjectMessage) (input rest : List ℕ)
      → read_payload env m input ≡ ok (m', rest)
      → length rest < length input
  unfolding read_payload
  read_payload-shrinks m m' input rest e =
      let ((l, tail), read, q) = >>=-eq-ok (env.read input) _ e in
      let shorter = env.read_bounds input l tail read in
      elim (Bool-cases (l == 0)) [
        | inl z ↦
            let ((status, end), read', q') = >>=-eq-ok (env.read tail) _ (rw z at q) in
            ground (arith, env.read_bounds tail status end read')
        | inr z ↦
            let ((payload, end), full, q') =
              >>=-eq-ok (make env l >> read_full env l tail) _ (rw z at q) in
            let (_, _, taken) = >>=-eq-ok (make env l) _ full in
            ground (arith, read_full-shrinks l tail payload end taken)
      ]

  read_headers-shrinks :
      (pp : List KeyValuePair) (input : List ℕ) (ext : Option (List KeyValuePair)) (rest : List ℕ)
      → read_headers env pp input ≡ ok (ext, rest)
      → length rest < length input
  unfolding read_headers
  read_headers-shrinks pp input ext rest e =
      let ((qs, tail), read, q) = >>=-eq-ok (parse_length_reader env input) _ e in
      ground (arith, parse_length_reader-shrinks input qs tail read)

  read_subgroup_headers-shrinks :
      (o : Option (List KeyValuePair)) (input : List ℕ) (ext : Option (List KeyValuePair))
      (rest : List ℕ)
      → read_subgroup_headers env o input ≡ ok (ext, rest)
      → length rest ≤ length input
  unfolding read_subgroup_headers
  read_subgroup_headers-shrinks none input ext rest e = ground arith
  read_subgroup_headers-shrinks (some pp) input ext rest e =
      let shorter = read_headers-shrinks pp input ext rest e in omega arith

  read_subgroup-shrinks :
      (m m' : ObjectMessage) (input rest : List ℕ)
      → read_subgroup env m input ≡ ok (m', rest)
      → length rest < length input
  unfolding read_subgroup
  read_subgroup-shrinks m m' input rest e =
      let ((id, tail), read, q) = >>=-eq-ok (env.read input) _ e in
      let shorter = env.read_bounds input id tail read in
      let ((ext, tail'), taken, q') =
        >>=-eq-ok (read_subgroup_headers env m.object_extension_headers tail) _ q in
      let shorter' =
        read_subgroup_headers-shrinks m.object_extension_headers tail ext tail' taken in
      let shorter'' = read_payload-shrinks _ m' tail' rest q' in omega arith

  read_fetch-shrinks :
      (m m' : ObjectMessage) (input rest : List ℕ)
      → read_fetch env m input ≡ ok (m', rest)
      → length rest < length input
  unfolding read_fetch
  read_fetch-shrinks m m' input rest e =
      let ((a, i1), r1, e1) = >>=-eq-ok (env.read input) _ e in
      let ((b, i2), r2, e2) = >>=-eq-ok (env.read i1) _ e1 in
      let ((c, i3), r3, e3) = >>=-eq-ok (env.read i2) _ e2 in
      let ((d, i4), r4, e4) = >>=-eq-ok (read_byte i3) _ e3 in
      let ((ext, i5), r5, e5) = >>=-eq-ok (read_headers env _ i4) _ e4 in
      omega (
        arith,
        env.read_bounds input a i1 r1,
        env.read_bounds i1 b i2 r2,
        env.read_bounds i2 c i3 r3,
        read_byte-shrinks i3 d i4 r4,
        read_headers-shrinks _ i4 ext i5 r5,
        read_payload-shrinks _ m' i5 rest e5,
      )

  parse_fetch_object-shrinks :
      (p q : ObjectStreamParser) (input rest : List ℕ) (m : ObjectMessage)
      → parse_fetch_object env p input ≡ ok (m, q, rest)
      → length rest < length input
  unfolding parse_fetch_object
  parse_fetch_object-shrinks p q input rest m e =
      let ((m', tail), read, e') = >>=-eq-ok (read_fetch env _ input) _ e in
      ground (arith, read_fetch-shrinks _ m' input tail read)

  parse_subgroup_object-shrinks :
      (p q : ObjectStreamParser) (input rest : List ℕ) (m : ObjectMessage)
      → parse_subgroup_object env p input ≡ ok (m, q, rest)
      → length rest < length input
  unfolding parse_subgroup_object
  parse_subgroup_object-shrinks p q input rest m e =
      let ((m', tail), read, e') = >>=-eq-ok (read_subgroup env _ input) _ e in
      ground (arith, read_subgroup-shrinks _ m' input tail read)

  -- An object that `Parse` returns has taken at least one byte off the stream.
  pub parse_object-shrinks :
      (p q : ObjectStreamParser) (input rest : List ℕ) (m : ObjectMessage)
      → parse_object env p input ≡ ok (m, q, rest)
      → length rest < length input
  unfolding parse_object
  parse_object-shrinks p q input rest m e = elim (Bool-cases (p.typ == stream_type_fetch)) [
    | inl f ↦ parse_fetch_object-shrinks p q input rest m (rw f at e)
    | inr f ↦ elim (Bool-cases (is_subgroup p.typ)) [
      | inl g ↦ parse_subgroup_object-shrinks p q input rest m (rw (f, g) at e)
      | inr g ↦ absurd (refused (rw (f, g) at e))
    ]
  ]
    where
      refused :
          {x : ObjectMessage × ObjectStreamParser × List ℕ} → err (invalid_stream_type p.typ) ≢ ok x
      refused e = cc
