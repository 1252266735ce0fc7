-- ===== src/Wire/Streams/Ending.antt =====
-- No call of object_stream_parser.go waits for more than the stream has: each ends with an object, an
-- error or a panic.
use moqtransport_fec.Base.{
  ℕ, zero, suc, Bool, true, false, if◌then◌else◌, ◌≤◌, ◌<◌, ◌≡◌, ◌≢◌, arith, List, [], ◌∷◌, Option,
  none, some, length, take, ◌==◌, ok, hang, ltb, ◌>>◌, >>=-eq-ok, >>=-neq-hang, Bool-cases, inl,
  inr,
}
use moqtransport_fec.Wire.Env.{Env, make}
use moqtransport_fec.Wire.Params.{
  KeyValuePair, read_full, read_bytes, read_var_int, has_bytes, parse_reader, read_until_error,
  parse_length_reader,
}
use moqtransport_fec.Wire.Control.{read_byte}
use moqtransport_fec.Wire.Objects.{
  ObjectMessage, stream_type_fetch, read_subgroup_headers, read_payload, read_headers,
  read_subgroup, read_fetch, parse_subgroup_header, parse_fetch_header,
}
use moqtransport_fec.Wire.Streams.{
  ObjectStreamParser, is_subgroup, new_object_stream_parser, parse_subgroup_object,
  parse_fetch_object, parse_object,
}
use moqtransport_fec.Wire.Streams.Consumption.{read_full-shrinks}

read_byte_ends : (input : List ℕ) → read_byte input ≢ hang
unfolding read_byte
read_byte_ends [] e = cc
read_byte_ends (b ∷ input) e = cc

length-take_most : (n : ℕ) (xs : List ℕ) → length (take n xs) ≤ n
length-take_most zero xs = omega arith
length-take_most (suc n) [] = omega arith
length-take_most (suc n) (x ∷ xs) = let h = length-take_most n xs in omega arith

module _ (env : Env) where
  make_ends : (n : ℕ) → make env n ≢ hang
  unfolding make
  make_ends n = elim (Bool-cases (ltb env.make_limit n)) [
    | inl h ↦ rw h (λ e. cc)
    | inr h ↦ rw h (λ e. cc)
  ]

  read_full_ends : (n : ℕ) (input : List ℕ) → read_full env n input ≢ hang
  unfolding read_full
  read_full_ends n input = elim (Bool-cases (ltb (length input) n)) [
    | inr h ↦ rw h (λ e. cc)
    | inl h ↦ elim (Bool-cases (length input == 0)) [
      | inl g ↦ rw (h, g) (λ e. cc)
      | inr g ↦ rw (h, g) (λ e. cc)
    ]
  ]

  read_bytes_ends : (typ : ℕ) (input : List ℕ) → read_bytes env typ input ≢ hang
  unfolding read_bytes
  read_bytes_ends typ input = >>=-neq-hang (env.read input) _ (env.read_ends input) (λ (l, rest) e.
      >>=-neq-hang (make env l) _ (make_ends l)
        (λ _ e. >>=-neq-hang (read_full env l rest) _ (read_full_ends l rest) (λ x e e'. cc)))

  read_var_int_ends : (typ : ℕ) (input : List ℕ) → read_var_int env typ input ≢ hang
  unfolding read_var_int
  read_var_int_ends typ input = >>=-neq-hang (env.read input) _ (env.read_ends input) (λ x e e'. cc)

  parse_reader_ends : (input : List ℕ) → parse_reader env input ≢ hang
  unfolding parse_reader
  parse_reader_ends input = >>=-neq-hang (env.read input) _ (env.read_ends input) (λ (typ, rest) e.
      elim (Bool-cases (has_bytes typ)) [
        | inl h ↦ rw h (read_bytes_ends typ rest)
        | inr h ↦ rw h (read_var_int_ends typ rest)
      ])

  read_bytes-shrinks :
      (typ : ℕ) (input : List ℕ) (p : KeyValuePair) (rest : List ℕ)
      → read_bytes env typ input ≡ ok (p, rest)
      → length rest ≤ length input
  unfolding read_bytes
  read_bytes-shrinks typ input p rest e =
      let ((l, tail), read, q) = >>=-eq-ok (env.read input) _ e in
      let (_, _, q') = >>=-eq-ok (make env l) _ q in
      let ((v, end), full, q'') = >>=-eq-ok (read_full env l tail) _ q' in
      ground (arith, env.read_bounds input l tail read, read_full-shrinks env l tail v end full)

  parse_reader-shrinks :
      (input : List ℕ) (p : KeyValuePair) (rest : List ℕ)
      → parse_reader env input ≡ ok (p, rest)
      → length rest < length input
  unfolding parse_reader read_var_int
  parse_reader-shrinks input p rest e =
      let ((typ, tail), read, q) = >>=-eq-ok (env.read input) _ e in
      let shorter = env.read_bounds input typ tail read in
      elim (Bool-cases (has_bytes typ)) [
        | inl h ↦ let most = read_bytes-shrinks typ tail p rest (rw h at q) in omega arith
        | inr h ↦
            let ((v, end), read', q') = >>=-eq-ok (env.read tail) _ (rw h at q) in
            ground (arith, env.read_bounds tail v end read')
      ]

  read_until_error_ends :
      (fuel : ℕ) (input : List ℕ) → length input < fuel → read_until_error env fuel input ≢ hang
  unfolding read_until_error
  read_until_error_ends zero input h = absurd (omega arith)
  read_until_error_ends (suc fuel) input h =
      >>=-neq-hang (parse_reader env input) _ (parse_reader_ends input) (λ (p, rest) e.
        let shorter = parse_reader-shrinks input p rest e in
        read_until_error_ends fuel rest (omega arith))

  parse_length_reader_ends : (input : List ℕ) → parse_length_reader env input ≢ hang
  unfolding parse_length_reader
  parse_length_reader_ends input =
      >>=-neq-hang (env.read input) _ (env.read_ends input) (λ (l, rest) e.
        elim (Bool-cases (l == 0)) [
          | inl z ↦ rw z (λ e'. cc)
          | inr z ↦
              let most = length-take_most l rest in
              rw z (
                >>=-neq-hang (read_until_error env (suc l) (take l rest)) _
                  (read_until_error_ends (suc l) (take l rest) (omega arith)) (λ x e e'. cc))
        ])

  read_payload_ends : (m : ObjectMessage) (input : List ℕ) → read_payload env m input ≢ hang
  unfolding read_payload
  read_payload_ends m input = >>=-neq-hang (env.read input) _ (env.read_ends input) (λ (l, rest) e.
      elim (Bool-cases (l == 0)) [
        | inl z ↦ rw z (>>=-neq-hang (env.read rest) _ (env.read_ends rest) (λ x e e'. cc))
        | inr z ↦ rw z (
            >>=-neq-hang (make env l >> read_full env l rest) _
              (>>=-neq-hang (make env l) _ (make_ends l) (λ _ _. read_full_ends l rest))
              (λ x e e'. cc))
      ])

  read_headers_ends : (pp : List KeyValuePair) (input : List ℕ) → read_headers env pp input ≢ hang
  unfolding read_headers
  read_headers_ends pp input =
      >>=-neq-hang (parse_length_reader env input) _ (parse_length_reader_ends input) (λ x e e'. cc)

  read_subgroup_headers_ends :
      (o : Option (List KeyValuePair)) (input : List ℕ) → read_subgroup_headers env o input ≢ hang
  unfolding read_subgroup_headers
  read_subgroup_headers_ends none input e = cc
  read_subgroup_headers_ends (some pp) input e = read_headers_ends pp input e

  read_subgroup_ends : (m : ObjectMessage) (input : List ℕ) → read_subgroup env m input ≢ hang
  unfolding read_subgroup
  read_subgroup_ends m input =
      >>=-neq-hang (env.read input) _ (env.read_ends input) (λ (id, rest) e.
        >>=-neq-hang (read_subgroup_headers env m.object_extension_headers rest) _
          (read_subgroup_headers_ends m.object_extension_headers rest)
          (λ (ext, tail) e. read_payload_ends _ tail))

  read_fetch_ends : (m : ObjectMessage) (input : List ℕ) → read_fetch env m input ≢ hang
  unfolding read_fetch
  read_fetch_ends m input = >>=-neq-hang (env.read input) _ (env.read_ends input) (λ (a, i1) e.
      >>=-neq-hang (env.read i1) _ (env.read_ends i1) (λ (b, i2) e.
        >>=-neq-hang (env.read i2) _ (env.read_ends i2) (λ (c, i3) e.
          >>=-neq-hang (read_byte i3) _ (read_byte_ends i3) (λ (d, i4) e.
            >>=-neq-hang (read_headers env _ i4) _ (read_headers_ends _ i4)
              (λ (ext, i5) e. read_payload_ends _ i5)))))

  -- A call of `Parse` ends.
  pub parse_object_ends :
      (p : ObjectStreamParser) (input : List ℕ) → parse_object env p input ≢ hang
  unfolding parse_object parse_fetch_object parse_subgroup_object
  parse_object_ends p input = elim (Bool-cases (p.typ == stream_type_fetch)) [
    | inl f ↦
        rw f (>>=-neq-hang (read_fetch env _ input) _ (read_fetch_ends _ input) (λ x e e'. cc))
    | inr f ↦ elim (Bool-cases (is_subgroup p.typ)) [
      | inl g ↦
          rw (f, g)
            (>>=-neq-hang (read_subgroup env _ input) _ (read_subgroup_ends _ input) (λ x e e'. cc))
      | inr g ↦ rw (f, g) (λ e. cc)
    ]
  ]

  parse_fetch_header_ends : (input : List ℕ) → parse_fetch_header env input ≢ hang
  unfolding parse_fetch_header
  parse_fetch_header_ends input =
      >>=-neq-hang (env.read input) _ (env.read_ends input) (λ x e e'. cc)

  read_subgroup_id_ends :
      (sid : Bool) (input : List ℕ) → (if sid then env.read input else ok (0, input)) ≢ hang
  read_subgroup_id_ends true input = env.read_ends input
  read_subgroup_id_ends false input = λ e. cc

  parse_subgroup_header_ends :
      (sid : Bool) (input : List ℕ) → parse_subgroup_header env sid input ≢ hang
  unfolding parse_subgroup_header
  parse_subgroup_header_ends sid input =
      >>=-neq-hang (env.read input) _ (env.read_ends input) (λ (a, i1) e.
        >>=-neq-hang (env.read i1) _ (env.read_ends i1) (λ (b, i2) e.
          >>=-neq-hang (if sid then env.read i2 else ok (0, i2)) _ (read_subgroup_id_ends sid i2)
            (λ (c, i3) e. >>=-neq-hang (read_byte i3) _ (read_byte_ends i3) (λ x e e'. cc))))

  -- The header of a stream is read, or there is an error.
  pub new_object_stream_parser_ends : (input : List ℕ) → new_object_stream_parser env input ≢ hang
  unfolding new_object_stream_parser
  new_object_stream_parser_ends input =
      >>=-neq-hang (env.read input) _ (env.read_ends input) (λ (st, rest) e.
        elim (Bool-cases (st == stream_type_fetch)) [
          | inl f ↦ rw f (
              >>=-neq-hang (parse_fetch_header env rest) _ (parse_fetch_header_ends rest)
                (λ x e e'. cc))
          | inr f ↦ elim (Bool-cases (is_subgroup st)) [
            | inl g ↦
                rw (f, g)
                  (>>=-neq-hang (parse_subgroup_header env _ rest) _
                    (parse_subgroup_header_ends _ rest) (λ x e e'. cc))
            | inr g ↦ rw (f, g) (λ e. cc)
          ]
        ])
