-- ===== src/Wire/Objects/RoundTrip.antt =====
-- What object_message.go and the two stream headers of internal/wire append, and their parsers, for
-- objects without extension headers.
use moqtransport_fec.Base.{
  ℕ, ◌≤◌, ◌≡◌, refl, ap, arith, true, List, [], ◌∷◌, ◌++◌, none, some, ◌==◌, length, append_assoc,
  ok, if◌then◌else◌, Bool-cases, inl, inr, ◌⊎◌,
}
use moqtransport_fec.Wire.Env.{Env, IsVarint, encode, append-encode, read-encode, make_lem}
use moqtransport_fec.Wire.Params.{append_length, length_list, append_list, parse_length_reader}
use moqtransport_fec.Wire.Params.RoundTrip.{read_full_lem}
use moqtransport_fec.Wire.Control.{read_byte}
use moqtransport_fec.Wire.Objects.{
  ObjectMessage, SubgroupHeaderMessage, FetchHeaderMessage, headers, stream_type_subgroup_sid_ext,
  append_payload, append_subgroup, append_fetch_object, read_payload, read_headers,
  read_subgroup_headers, read_subgroup, read_fetch, append_subgroup_header, parse_subgroup_header,
  parse_fetch_header,
}

-- What an encoder accepts: a payload that can be allocated, or none and a status.
pub record IsObject (env : Env) (m : ObjectMessage) : Type 0 where
  pub group_id : IsVarint m.group_id
  pub subgroup_id : IsVarint m.subgroup_id
  pub object_id : IsVarint m.object_id
  pub object_status : IsVarint m.object_status
  pub payload : IsVarint (length m.object_payload)
  pub fits : length m.object_payload ≤ env.make_limit
  pub no_status : (m.object_payload ≡ []) ⊎ (m.object_status ≡ 0)

module _ (env : Env) where
  unfoldable pub payload_bytes : ObjectMessage → List ℕ
  payload_bytes m =
      encode env (length m.object_payload)
      ++ (if length m.object_payload == 0 then encode env m.object_status else m.object_payload)

  append_payload_lem :
      (buf : List ℕ) (m : ObjectMessage) → append_payload env buf m ≡ buf ++ payload_bytes m
  unfolding append_payload payload_bytes
  append_payload_lem buf m = elim (Bool-cases (length m.object_payload == 0)) [
    | inl z ↦ rw z (simp (append-encode, append_assoc))
    | inr z ↦ rw z (simp (append-encode, append_assoc))
  ]

  empty : (xs : List ℕ) → (length xs == 0) ≡ true → [] ≡ xs
  empty [] h = refl
  empty (x ∷ xs) h = ground arith

  -- Into an object that has neither a status nor a payload yet.
  read_payload_lem :
      (m : ObjectMessage) (rest : List ℕ)
      → IsObject env m
      → read_payload env
          (record m { object_status = 0; object_payload = [] })
          (payload_bytes m ++ rest)
        ≡ ok (m, rest)
  unfolding read_payload payload_bytes
  read_payload_lem m rest w = elim (Bool-cases (length m.object_payload == 0)) [
    | inl z ↦
        rw (append_assoc, read-encode env _ _ w.payload)
          (rw (z, read-encode env _ _ w.object_status)
            (ap (λ p. ok (record m { object_payload = p }, rest)) (empty m.object_payload z)))
    | inr z ↦
        rw (append_assoc, read-encode env _ _ w.payload)
          (rw (z, make_lem env _ w.fits, read_full_lem env m.object_payload rest)
            (ap (λ s. ok (record m { object_status = s }, rest)) (ground arith)))
  ]

  append_length_none : (buf : List ℕ) → append_length env buf [] ≡ buf ++ encode env 0
  unfolding append_length append_list length_list
  append_length_none buf = append-encode env buf 0

  parse_length_reader_none :
      (rest : List ℕ) → parse_length_reader env (encode env 0 ++ rest) ≡ ok ([], rest)
  unfolding parse_length_reader
  parse_length_reader_none rest = rw (read-encode env 0 rest (omega arith)) refl

  -- The bytes of an object of a subgroup, and of one of a fetch.
  unfoldable pub subgroup_bytes : ObjectMessage → List ℕ
  subgroup_bytes m = encode env m.object_id ++ (encode env 0 ++ payload_bytes m)

  pub append_subgroup_lem :
      (buf : List ℕ) (m : ObjectMessage)
      → headers m.object_extension_headers ≡ []
      → append_subgroup env buf m ≡ buf ++ subgroup_bytes m
  unfolding append_subgroup subgroup_bytes
  append_subgroup_lem buf m h =
      rw h (simp (append_payload_lem, append_length_none, append-encode, append_assoc))

  unfoldable pub fetch_bytes : ObjectMessage → List ℕ
  fetch_bytes m =
      encode env m.group_id
      ++ (encode env m.subgroup_id
          ++ (encode env m.object_id ++ (m.publisher_priority ∷ (encode env 0 ++ payload_bytes m))))

  pub append_fetch_object_lem :
      (buf : List ℕ) (m : ObjectMessage)
      → headers m.object_extension_headers ≡ []
      → append_fetch_object env buf m ≡ buf ++ fetch_bytes m
  unfolding append_fetch_object fetch_bytes
  append_fetch_object_lem buf m h =
      rw h (simp (append_payload_lem, append_length_none, append-encode, append_assoc))

  with_headers :
      (m : ObjectMessage)
      → IsObject env m
      → IsObject env (record m { object_extension_headers = some [] })
  with_headers m w = record {
    group_id = w.group_id;
    subgroup_id = w.subgroup_id;
    object_id = w.object_id;
    object_status = w.object_status;
    payload = w.payload;
    fits = w.fits;
    no_status = w.no_status;
  }

  -- Where the stream has extension headers, as every stream does that this implementation opens.
  pub read_subgroup_lem :
      (m : ObjectMessage) (rest : List ℕ)
      → IsObject env m
      → read_subgroup env
          (record m {
            object_id = 0;
            object_extension_headers = some [];
            object_status = 0;
            object_payload = [];
          })
          (subgroup_bytes m ++ rest)
        ≡ ok (record m { object_extension_headers = some [] }, rest)
  unfolding read_subgroup read_subgroup_headers read_headers subgroup_bytes payload_bytes
  read_subgroup_lem m rest w =
      rw (append_assoc, append_assoc, read-encode env _ _ w.object_id)
        (rw (parse_length_reader_none (payload_bytes m ++ rest)) (
          read_payload_lem (record m { object_extension_headers = some [] }) rest
            (with_headers m w)))

  pub read_fetch_lem :
      (m : ObjectMessage) (group priority : ℕ) (rest : List ℕ)
      → IsObject env m
      → read_fetch env
          (record m {
            group_id = group;
            subgroup_id = 0;
            object_id = 0;
            publisher_priority = priority;
            object_extension_headers = none;
            object_status = 0;
            object_payload = [];
          })
          (fetch_bytes m ++ rest)
        ≡ ok (record m { object_extension_headers = some [] }, rest)
  unfolding read_fetch read_headers read_byte fetch_bytes payload_bytes
  read_fetch_lem m group priority rest w =
      rw (append_assoc, append_assoc, append_assoc, append_assoc, read-encode env _ _ w.group_id)
        (rw (read-encode env _ _ w.subgroup_id, read-encode env _ _ w.object_id)
          (rw (read_byte, parse_length_reader_none (payload_bytes m ++ rest))
            (read_payload_lem (record m { object_extension_headers = some [] }) rest
              (with_headers m w))))

  unfoldable pub subgroup_header_bytes : SubgroupHeaderMessage → List ℕ
  subgroup_header_bytes m =
      encode env m.track_alias
      ++ (encode env m.group_id ++ (encode env m.subgroup_id ++ (m.publisher_priority ∷ [])))

  pub append_subgroup_header_lem :
      (buf : List ℕ) (m : SubgroupHeaderMessage)
      → append_subgroup_header env buf m
        ≡ buf ++ (encode env stream_type_subgroup_sid_ext ++ subgroup_header_bytes m)
  unfolding append_subgroup_header subgroup_header_bytes
  append_subgroup_header_lem buf m = simp (append-encode, append_assoc)

  pub parse_subgroup_header_lem :
      (m : SubgroupHeaderMessage) (rest : List ℕ)
      → IsVarint m.track_alias
      → IsVarint m.group_id
      → IsVarint m.subgroup_id
      → parse_subgroup_header env true (subgroup_header_bytes m ++ rest) ≡ ok (m, rest)
  unfolding subgroup_header_bytes parse_subgroup_header read_byte
  parse_subgroup_header_lem m rest a b c =
      simp append_assoc
        (rw (read-encode env _ _ a, read-encode env _ _ b, read-encode env _ _ c) refl)

  pub parse_fetch_header_lem :
      (m : FetchHeaderMessage) (rest : List ℕ)
      → IsVarint m.request_id
      → parse_fetch_header env (encode env m.request_id ++ rest) ≡ ok (m, rest)
  unfolding parse_fetch_header
  parse_fetch_header_lem m rest h = rw (read-encode env _ _ h) refl
