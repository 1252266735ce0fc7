-- ===== src/Wire/Fields/RoundTrip.antt =====
-- What is appended for each field of the wire format, and its parser.
use moqtransport_fec.Base.{
  ℕ, ◌≡◌, refl, sym, ◌∙◌, List, [], ◌∷◌, ◌++◌, arith, length, ok, All, append_assoc, append-nil,
  take-length, drop-length, append-covers,
}
use moqtransport_fec.Wire.Env.{Env, IsVarint, encode, append-encode, take_varint-encode, make_lem}
use moqtransport_fec.Wire.Fields.{
  Location, IsText, IsTuple, IsLocation, IsFilterType, IsVersions, append_var_int_bytes,
  parse_var_int_bytes, append_strings, append_tuple, parse_strings, parse_tuple, append_location,
  parse_location, append_filter_type, append_numbers, append_versions, parse_numbers,
  parse_versions,
}

module _ (env : Env) where
  unfoldable pub var_int_bytes : List ℕ → List ℕ
  var_int_bytes b = encode env (length b) ++ b

  pub append_var_int_bytes_lem :
      (buf b : List ℕ) → append_var_int_bytes env buf b ≡ buf ++ var_int_bytes b
  unfolding append_var_int_bytes var_int_bytes
  append_var_int_bytes_lem buf b = simp (append-encode, append_assoc)

  pub parse_var_int_bytes_lem :
      (b rest : List ℕ)
      → IsText b
      → parse_var_int_bytes env (var_int_bytes b ++ rest) ≡ ok (b, rest)
  unfolding parse_var_int_bytes var_int_bytes
  parse_var_int_bytes_lem [] rest h = rw (append_assoc, take_varint-encode env 0 _ h)
  parse_var_int_bytes_lem (x ∷ b) rest h =
      rw (append_assoc, take_varint-encode env _ _ h)
        (rw (append-covers (x ∷ b) rest, take-length b rest, drop-length b rest) (ground arith))

  unfoldable pub strings : List (List ℕ) → List ℕ
  strings [] = []
  strings (t ∷ ts) = encode env (length t) ++ (t ++ strings ts)

  append_strings_lem :
      (buf : List ℕ) (ts : List (List ℕ)) → append_strings env buf ts ≡ buf ++ strings ts
  unfolding append_strings strings
  append_strings_lem buf [] = sym (append-nil buf)
  append_strings_lem buf (t ∷ ts) =
      append_strings_lem (env.append buf (length t) ++ t) ts ∙ simp (append-encode, append_assoc)

  parse_strings_lem :
      (ts : List (List ℕ)) (rest : List ℕ)
      → All IsText ts
      → parse_strings env (length ts) (strings ts ++ rest) ≡ ok (ts, rest)
  unfolding parse_strings strings
  parse_strings_lem [] rest h = refl
  parse_strings_lem (t ∷ ts) rest (h, hs) = simp (append_assoc) (
      (rw (take_varint-encode env _ _ h)
        (rw (append-covers t _, take-length t _, drop-length t _, parse_strings_lem ts rest hs))))

  unfoldable pub tuple : List (List ℕ) → List ℕ
  tuple t = encode env (length t) ++ strings t

  pub append_tuple_lem :
      (buf : List ℕ) (t : List (List ℕ)) → append_tuple env buf t ≡ buf ++ tuple t
  unfolding append_tuple tuple
  append_tuple_lem buf t =
      append_strings_lem (env.append buf (length t)) t ∙ simp (append-encode, append_assoc)

  pub parse_tuple_lem :
      (t : List (List ℕ)) (rest : List ℕ)
      → IsTuple env t
      → parse_tuple env (tuple t ++ rest) ≡ ok (t, rest)
  unfolding parse_tuple tuple
  parse_tuple_lem t rest (h, fits, hs) =
      rw (append_assoc, take_varint-encode env _ _ h)
        (rw (make_lem env _ fits) (parse_strings_lem t rest hs))

  unfoldable pub location : Location → List ℕ
  location l = encode env l.group ++ encode env l.object

  pub append_location_lem :
      (buf : List ℕ) (l : Location) → append_location env buf l ≡ buf ++ location l
  unfolding append_location location
  append_location_lem buf l = simp (append-encode, append_assoc)

  pub parse_location_lem :
      (l : Location) (rest : List ℕ)
      → IsLocation l
      → parse_location env (location l ++ rest) ≡ ok (l, rest)
  unfolding parse_location location
  parse_location_lem l rest (g, o) =
      rw (append_assoc, take_varint-encode env _ _ g) (rw (take_varint-encode env _ _ o))

  unfoldable pub numbers : List ℕ → List ℕ
  numbers [] = []
  numbers (v ∷ vs) = encode env v ++ numbers vs

  append_numbers_lem : (buf vs : List ℕ) → append_numbers env buf vs ≡ buf ++ numbers vs
  unfolding append_numbers numbers
  append_numbers_lem buf [] = sym (append-nil buf)
  append_numbers_lem buf (v ∷ vs) =
      append_numbers_lem (env.append buf v) vs ∙ simp (append-encode, append_assoc)

  parse_numbers_lem :
      (vs rest : List ℕ)
      → All IsVarint vs
      → parse_numbers env (length vs) (numbers vs ++ rest) ≡ ok (vs, rest)
  unfolding parse_numbers numbers
  parse_numbers_lem [] rest h = refl
  parse_numbers_lem (v ∷ vs) rest (h, hs) =
      rw (append_assoc, take_varint-encode env _ _ h) (rw (parse_numbers_lem vs rest hs))

  unfoldable pub versions : List ℕ → List ℕ
  versions vs = encode env (length vs) ++ numbers vs

  pub append_versions_lem : (buf vs : List ℕ) → append_versions env buf vs ≡ buf ++ versions vs
  unfolding append_versions versions
  append_versions_lem buf vs =
      append_numbers_lem (env.append buf (length vs)) vs ∙ simp (append-encode, append_assoc)

  pub parse_versions_lem :
      (vs rest : List ℕ) → IsVersions vs → parse_versions env (versions vs ++ rest) ≡ ok (vs, rest)
  unfolding parse_versions versions
  parse_versions_lem vs rest (h, hs) =
      rw (append_assoc, take_varint-encode env _ _ h) (parse_numbers_lem vs rest hs)

  pub append_filter_type_lem :
      (buf : List ℕ) (f : ℕ) → IsFilterType f → append_filter_type env buf f ≡ buf ++ encode env f
  unfolding append_filter_type
  append_filter_type_lem buf f h = ground (arith, append-encode env buf f)
