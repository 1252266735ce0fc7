-- ===== src/Session/Streams/Delivery.antt =====
-- subgroup.go and fetch_stream.go on one side of a stream, and remote_track.go on the other.
use moqtransport_fec.Base.{
  ℕ, zero, suc, ◌≤◌, ◌<◌, ◌≡◌, refl, sym, ap, ◌∙◌, arith, Bool, true, List, [], ◌∷◌, ◌++◌,
  append_assoc, append-nil, length, length-append, take, take-length, ltb, Bool-cases, inl, some,
  All, ok, err, eof, inr,
}
use moqtransport_fec.Wire.Env.{Env, IsVarint, encode, read-encode, encode-pos}
use moqtransport_fec.Wire.Objects.{
  ObjectMessage, SubgroupHeaderMessage, read_subgroup, append_subgroup_header,
  stream_type_subgroup_sid_ext,
}
use moqtransport_fec.Wire.Objects.RoundTrip.{
  payload_bytes, subgroup_bytes, append_subgroup_lem, read_subgroup_lem, subgroup_header_bytes,
  append_subgroup_header_lem, parse_subgroup_header_lem,
}
use moqtransport_fec.Wire.Streams.{
  ObjectStreamParser, new_object_stream_parser, parse_object, parse_subgroup_object,
}
use moqtransport_fec.Session.Streams.{
  Object, Subgroup, Reception, returns, push, read_stream, rounds, object_of, new_subgroup,
  write_subgroup_object, subgroup_object, forwarding_preference_subgroup,
}

-- What is written to a subgroup: IDs with payloads.
abbrev pub write_all : (Env) → (List ℕ → List ℕ → Bool) → Subgroup → List (ℕ × List ℕ) → Subgroup
write_all env accepts s [] = s
write_all env accepts s ((id, payload) ∷ os) =
    write_all env accepts (write_subgroup_object env accepts s id payload).0 os

-- What arrives of it, in order, as far as the buffer has room.
abbrev pub push_all : Reception → ℕ → ℕ → List (ℕ × List ℕ) → Reception
push_all t group subgroup [] = t
push_all t group subgroup ((id, payload) ∷ os) =
    push_all
      (push t (record {
        group_id = group;
        object_id = id;
        forwarding_preference = forwarding_preference_subgroup;
        sub_group_id = subgroup;
        payload = payload;
      }))
      group subgroup os

abbrev pub IsPayload : Env → ℕ × List ℕ → Type 0
IsPayload env (id, payload) =
    IsVarint id × IsVarint (length payload) × (length payload ≤ env.make_limit)

-- A stream that takes every call.
abbrev pub always : List ℕ → List ℕ → Bool
always written next = true

module _ (env : Env) where
  body : List (ℕ × List ℕ) → List ℕ
  body [] = []
  body ((id, payload) ∷ os) = subgroup_bytes env (subgroup_object env always id payload) ++ body os

  write_all_lem :
      (s : Subgroup) (os : List (ℕ × List ℕ))
      → (write_all env always s os).stream ≡ s.stream ++ body os
  unfolding write_subgroup_object body
  write_all_lem s [] = sym (append-nil s.stream)
  write_all_lem s ((id, payload) ∷ os) =
      write_all_lem (write_subgroup_object env always s id payload).0 os
      ∙ rw (append_subgroup_lem env [] (subgroup_object env always id payload) refl) (
          append_assoc s.stream (subgroup_bytes env (subgroup_object env always id payload))
            (body os))

  -- The parser behind the header of a subgroup.
  abbrev reading : SubgroupHeaderMessage → ObjectStreamParser
  reading h = record {
    typ = stream_type_subgroup_sid_ext;
    identifier = h.track_alias;
    has_subgroup_id = true;
    has_extensions = true;
    publisher_priority = h.publisher_priority;
    group_id = h.group_id;
    subgroup_id = h.subgroup_id;
  }

  abbrev arriving : SubgroupHeaderMessage → ℕ → List ℕ → ObjectMessage
  arriving h id payload = record {
    track_alias = h.track_alias;
    group_id = h.group_id;
    subgroup_id = h.subgroup_id;
    object_id = id;
    publisher_priority = h.publisher_priority;
    object_extension_headers = some [];
    object_status = 0;
    object_payload = payload;
  }

  abbrev IsHeader : SubgroupHeaderMessage → Type 0
  IsHeader h = IsVarint h.track_alias × IsVarint h.group_id × IsVarint h.subgroup_id

  parse_object_lem :
      (h : SubgroupHeaderMessage) (id : ℕ) (payload rest : List ℕ)
      → IsHeader h
      → IsPayload env (id, payload)
      → parse_object env
          (reading h)
          (subgroup_bytes env (subgroup_object env always id payload) ++ rest)
        ≡ ok (arriving h id payload, reading h, rest)
  unfolding parse_object parse_subgroup_object subgroup_bytes payload_bytes
  parse_object_lem h id payload rest (a, g, s) (i, l, f) =
      rw
        (read_subgroup_lem env (arriving h id payload) rest (record {
          group_id = g;
          subgroup_id = s;
          object_id = i;
          object_status = omega arith;
          payload = l;
          fits = f;
          no_status = inr refl;
        }))
        refl

  parse_object_end : (h : SubgroupHeaderMessage) → parse_object env (reading h) [] ≡ err eof
  unfolding parse_object parse_subgroup_object read_subgroup
  parse_object_end h = rw env.read_empty refl

  subgroup_bytes-pos :
      (m : ObjectMessage) → IsVarint m.object_id → 1 ≤ length (subgroup_bytes env m)
  unfolding subgroup_bytes
  subgroup_bytes-pos m h = omega (
    arith,
    encode-pos env m.object_id h,
    length-append (encode env m.object_id) (encode env 0 ++ payload_bytes env m),
  )

  read_stream-body :
      (fuel : ℕ) (h : SubgroupHeaderMessage) (os : List (ℕ × List ℕ)) (t : Reception)
      → IsHeader h
      → All (IsPayload env) os
      → length (body os) < fuel
      → read_stream env fuel (reading h) (body os) t
        ≡ (push_all t h.group_id h.subgroup_id os, returns)
  unfolding read_stream body
  read_stream-body zero h os t w v k = absurd (omega arith)
  read_stream-body (suc fuel) h [] t w v k = rw (read_stream, parse_object_end h) refl
  read_stream-body (suc fuel) h ((id, payload) ∷ os) t w (v, vs) k =
      let m = subgroup_object env always id payload in
      rw (read_stream, parse_object_lem h id payload (body os) w v)
        (read_stream-body fuel h os (push t (object_of (arriving h id payload))) w vs
          (omega (arith, subgroup_bytes-pos m v.0, length-append (subgroup_bytes env m) (body os))))

  header_first :
      (h : SubgroupHeaderMessage) (rest : List ℕ)
      → append_subgroup_header env [] h ++ rest
        ≡ encode env stream_type_subgroup_sid_ext ++ (subgroup_header_bytes env h ++ rest)
  header_first h rest =
      ap (λ b. b ++ rest) (append_subgroup_header_lem env [] h)
      ∙ append_assoc (encode env stream_type_subgroup_sid_ext) (subgroup_header_bytes env h) rest

  new_object_stream_parser_lem :
      (h : SubgroupHeaderMessage) (rest : List ℕ)
      → IsHeader h
      → new_object_stream_parser env (append_subgroup_header env [] h ++ rest)
        ≡ ok (reading h, rest)
  unfolding new_object_stream_parser
  new_object_stream_parser_lem h rest (a, g, s) = rw (header_first h rest) (
      rw (read-encode env stream_type_subgroup_sid_ext _ (omega arith))
        (rw (parse_subgroup_header_lem env h rest a g s) refl))

  -- A subgroup is opened on a new stream that takes every call, and objects are written to it. The
  -- receiver's parser takes the stream for one of the subgroup's track alias, and the loop of
  -- `readStream` ends without an error when it has pushed exactly these objects, in order, with the
  -- group and the subgroup that the sender gave.
  pub read_stream-write_all :
      (h : SubgroupHeaderMessage) (os : List (ℕ × List ℕ)) (t : Reception)
      → IsVarint h.track_alias × IsVarint h.group_id × IsVarint h.subgroup_id
      → All (IsPayload env) os
      → (s : Subgroup) × (p : ObjectStreamParser) × (input : List ℕ) × (new_subgroup env always []
            h.track_alias h.group_id h.subgroup_id h.publisher_priority
          ≡ some s)
        × (new_object_stream_parser env (write_all env always s os).stream ≡ ok (p, input))
        × (p.identifier ≡ h.track_alias)
        × (p.typ ≡ stream_type_subgroup_sid_ext)
        × (read_stream env (rounds input) p input t
            ≡ (push_all t h.group_id h.subgroup_id os, returns))
  unfolding new_subgroup
  read_stream-write_all h os t w v = (
    record {
      stream = append_subgroup_header env [] h;
      group_id = h.group_id;
      subgroup_id = h.subgroup_id;
    },
    reading h,
    body os,
    refl,
    rw (write_all_lem _ os) (new_object_stream_parser_lem h (body os) w),
    refl,
    refl,
    read_stream-body (rounds (body os)) h os t w v (omega arith),
  )

abbrev pub delivered : ℕ → ℕ → List (ℕ × List ℕ) → List Object
delivered group subgroup [] = []
delivered group subgroup ((id, payload) ∷ os) =
    record {
      group_id = group;
      object_id = id;
      forwarding_preference = forwarding_preference_subgroup;
      sub_group_id = subgroup;
      payload = payload;
    }
    ∷ delivered group subgroup os

-- Taking more than there is.
pub take_all : (n : ℕ) (xs : List Object) → length xs ≤ n → take n xs ≡ xs
take_all zero [] h = refl
take_all zero (x ∷ xs) h = absurd (omega arith)
take_all (suc n) [] h = refl
take_all (suc n) (x ∷ xs) h = ap (◌∷◌ x) (take_all n xs (omega arith))

-- The objects stand behind what the buffer held, in order, as far as there is room.
pub push_all_lem :
    (t : Reception) (group subgroup : ℕ) (os : List (ℕ × List ℕ))
    → length t.buffer ≤ 100
    → push_all t group subgroup os
      ≡ record t { buffer = take 100 (t.buffer ++ delivered group subgroup os) }
unfolding push
push_all_lem t group subgroup [] h =
    ap (λ b. record t { buffer = b })
      (sym (ap (take 100) (append-nil t.buffer) ∙ take_all 100 t.buffer h))
push_all_lem t group subgroup ((id, payload) ∷ os) h =
    let o : Object = record {
      group_id = group;
      object_id = id;
      forwarding_preference = forwarding_preference_subgroup;
      sub_group_id = subgroup;
      payload = payload;
    } in
    let rest = delivered group subgroup os in
    elim (Bool-cases (ltb (length t.buffer) 100)) [
      | inl room ↦
          rw (push_all, push, room)
            (push_all_lem (record t { buffer = t.buffer ++ (o ∷ []) }) group subgroup os
                (ground (arith, length-append t.buffer (o ∷ [])))
              ∙ ap (λ b. record t { buffer = take 100 b }) (append_assoc t.buffer (o ∷ []) rest))
      | inr full ↦
          let same : length t.buffer ≡ 100 = ground arith in
          rw (push_all, push, full)
            (push_all_lem t group subgroup os h
              ∙ ap (λ b. record t { buffer = b })
                  (full_take t.buffer rest same ∙ sym (full_take t.buffer (o ∷ rest) same)))
    ]
  where
    full_take : (xs ys : List Object) → length xs ≡ 100 → take 100 (xs ++ ys) ≡ xs
    full_take xs ys e = ap (λ n. take n (xs ++ ys)) (sym e) ∙ take-length xs ys
