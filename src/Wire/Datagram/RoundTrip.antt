-- ===== src/Wire/Datagram/RoundTrip.antt =====
-- Senders and the receiver of object_datagram_message.go of internal/wire together.
use moqtransport_fec.Base.{
  ℕ, ◌+◌, ◌≡◌, refl, ap, sym, ◌<◌, append-nil, lt→ltb, arith, List, [], ◌∷◌, ◌++◌, Option, none,
  some, length, length-append, drop, drop-length, append_assoc, Result, ok, hang, panic, All, ◌>>=◌,
  ◌∙◌,
}
use moqtransport_fec.Wire.Env.{Env, IsVarint, encode, append-encode, parse-encode}
use moqtransport_fec.Wire.Params.{KeyValuePair, Slice, append_length, parse_length, IsPair}
use moqtransport_fec.Wire.Params.RoundTrip.{pairs}
use moqtransport_fec.Wire.Params.Stuck.{parse_length-hang}
use moqtransport_fec.Wire.Params.Lengths.{append_length_lem}
use moqtransport_fec.Wire.Datagram.{
  ObjectDatagramMessage, append_datagram_head, append_datagram, append_datagram_status,
  parse_extension, parse_content_of, parse_datagram, status_type,
}

-- What an encoder accepts.
pub record IsDatagram (m : ObjectDatagramMessage) : Type 0 where
  pub track_alias : IsVarint m.track_alias
  pub group_id : IsVarint m.group_id
  pub object_id : IsVarint m.object_id
  pub object_status : IsVarint m.object_status

module _ (env : Env) where
  parse-encode-all : (v : ℕ) → IsVarint v → env.parse (encode env v) ≡ ok (v, length (encode env v))
  parse-encode-all v h = ap env.parse (sym (append-nil (encode env v))) ∙ parse-encode env v [] h

  drop_all : (xs : List ℕ) → drop (length xs) xs ≡ []
  drop_all xs = ap (drop (length xs)) (sym (append-nil xs)) ∙ drop-length xs []

  -- The bytes behind the type, as far as the priority.
  ids : ObjectDatagramMessage → List ℕ
  ids m =
      encode env m.track_alias
      ++ (encode env m.group_id ++ (encode env m.object_id ++ (m.publisher_priority ∷ [])))

  -- What parse does behind the priority.
  unfoldable parse_rest :
      ℕ → ℕ → Slice → ObjectDatagramMessage → ℕ → Result (ObjectDatagramMessage × ℕ)
  parse_rest fuel typ s m parsed = parse_extension env fuel typ s parsed >>= λ (ext, n).
      parse_content_of env typ s
        (record m { object_extension_headers = ext; object_payload = []; object_status = 0 }) n

  sized :
      (a b c d : List ℕ) (x : ℕ)
      → length a + length b + length c + length d + 1 ≡ length (a ++ (b ++ (c ++ (d ++ (x ∷ [])))))
  sized a b c d x = simp length-append (omega arith)

  parse_datagram-ids :
      (fuel typ : ℕ) (m : ObjectDatagramMessage) (rest spare : List ℕ)
      → IsVarint typ
      → IsDatagram m
      → parse_datagram env fuel
          (record { bytes = encode env typ ++ (ids m ++ rest); spare = spare })
        ≡ parse_rest fuel typ
            (record { bytes = rest; spare = spare })
            m
            (length (encode env typ ++ ids m))
  unfolding parse_datagram parse_rest ids
  parse_datagram-ids fuel typ m rest spare ht w = simp append_assoc (
      rw (parse-encode env _ _ ht, drop-length (encode env typ))
        (rw (parse-encode env _ _ w.track_alias, drop-length (encode env m.track_alias))
          (rw (parse-encode env _ _ w.group_id, drop-length (encode env m.group_id))
            (rw (parse-encode env _ _ w.object_id, drop-length (encode env m.object_id))
              (ap (λ n. parse_rest fuel typ (record { bytes = rest; spare = spare }) m n)
                (sized (encode env typ) (encode env m.track_alias) (encode env m.group_id)
                  (encode env m.object_id) m.publisher_priority))))))

  append_datagram_lem :
      (m : ObjectDatagramMessage)
      → m.object_extension_headers ≡ none
      → append_datagram env [] m ≡ encode env 0 ++ (ids m ++ m.object_payload)
  unfolding append_datagram append_datagram_head ids
  append_datagram_lem m h = rw h (simp (append-encode, append_assoc))

  -- Whether there are headers or not.
  status_head :
      (ext : Option (List KeyValuePair)) (m : ObjectDatagramMessage)
      → append_datagram_head env [] (status_type ext) m ≡ encode env (status_type ext) ++ ids m
  unfolding append_datagram_head ids
  status_head none m = simp (append-encode, append_assoc)
  status_head (some pp) m = simp (append-encode, append_assoc)

  append_datagram_status_lem :
      (m : ObjectDatagramMessage)
      → append_datagram_status env [] m
        ≡ encode env (status_type m.object_extension_headers)
          ++ (ids m ++ encode env m.object_status)
  unfolding append_datagram_status
  append_datagram_status_lem m =
      rw (append-encode, status_head m.object_extension_headers m)
        (append_assoc (encode env (status_type m.object_extension_headers)) (ids m)
          (encode env m.object_status))

  status_none :
      (m : ObjectDatagramMessage)
      → m.object_extension_headers ≡ none
      → append_datagram_status env [] m ≡ encode env 2 ++ (ids m ++ encode env m.object_status)
  status_none m h =
      append_datagram_status_lem m
      ∙ ap (λ e. encode env (status_type e) ++ (ids m ++ encode env m.object_status)) h

  append_datagram_headers :
      (m : ObjectDatagramMessage) (pp : List KeyValuePair)
      → m.object_extension_headers ≡ some pp
      → All (IsPair env) pp
      → append_datagram env [] m
        ≡ encode env 1 ++ (ids m ++ (append_length env [] pp ++ m.object_payload))
  unfolding append_datagram append_datagram_head ids
  append_datagram_headers m pp h hs =
      rw (h, append_length_lem env _ pp hs, append_length_lem env [] pp hs)
        (simp (append-encode, append_assoc))

  -- What the parser makes of the two types without extension headers.
  with_payload :
      (m : ObjectDatagramMessage) (fuel : ℕ) (rest spare : List ℕ)
      → IsDatagram m
      → parse_datagram env fuel (record { bytes = encode env 0 ++ (ids m ++ rest); spare = spare })
        ≡ ok (
          record m { object_extension_headers = none; object_payload = rest; object_status = 0 },
          length (encode env 0 ++ (ids m ++ rest)),
        )
  unfolding parse_rest parse_extension parse_content_of
  with_payload m fuel rest spare w =
      parse_datagram-ids fuel 0 m rest spare (omega arith) w
      ∙ ap
          (λ n. ok (
            record m { object_extension_headers = none; object_payload = rest; object_status = 0 },
            n,
          ))
          (simp length-append (omega arith))

  with_status :
      (m : ObjectDatagramMessage) (fuel : ℕ) (spare : List ℕ)
      → IsDatagram m
      → parse_datagram env fuel
          (record { bytes = encode env 2 ++ (ids m ++ encode env m.object_status); spare = spare })
        ≡ ok (
          record m { object_extension_headers = none; object_payload = [] },
          length (encode env 2 ++ (ids m ++ encode env m.object_status)),
        )
  unfolding parse_rest parse_extension parse_content_of
  with_status m fuel spare w =
      parse_datagram-ids fuel 2 m (encode env m.object_status) spare (omega arith) w
      ∙ rw (parse-encode-all m.object_status w.object_status) (
          ap (λ n. ok (record m { object_extension_headers = none; object_payload = [] }, n))
            (simp length-append (omega arith)))

  -- A datagram that `AppendDatagram` or `AppendDatagramStatus` makes of a message without extension
  -- headers is parsed, to its last byte, as that message with a payload and no status, or with a
  -- status and no payload. What lies behind the datagram in memory does not matter.
  pub parse_datagram-append :
      (m : ObjectDatagramMessage) (fuel : ℕ) (spare : List ℕ)
      → IsDatagram m
      → m.object_extension_headers ≡ none
      → (parse_datagram env fuel (record { bytes = append_datagram env [] m; spare = spare })
          ≡ ok (record m { object_status = 0 }, length (append_datagram env [] m)))
        × (parse_datagram env fuel
              (record { bytes = append_datagram_status env [] m; spare = spare })
            ≡ ok (record m { object_payload = [] }, length (append_datagram_status env [] m)))
  parse_datagram-append m fuel spare w h = (
    rw (append_datagram_lem m h) (with_payload m fuel m.object_payload spare w)
        ∙ ap
            (λ e. ok (
              record m { object_extension_headers = e; object_status = 0 },
              length (append_datagram env [] m),
            ))
            (sym h),
    ap (λ bs. parse_datagram env fuel (record { bytes = bs; spare = spare })) (status_none m h)
        ∙ (with_status m fuel spare w ∙ λ i. ok (
          record m { object_extension_headers = sym h i; object_payload = [] },
          length (sym (status_none m h) i),
        )),
  )

  -- `AppendDatagram` writes extension headers, but a datagram with a list of them that is not empty
  -- is never parsed: the parser's loop does not end. The headers of a status are not written at all,
  -- and the parser takes the status for their length: it panics if that is larger than the capacity
  -- behind the datagram.
  pub parse_datagram_headers :
      (m : ObjectDatagramMessage) (p : KeyValuePair) (pp : List KeyValuePair) (fuel : ℕ)
      (spare : List ℕ)
      → IsDatagram m
      → m.object_extension_headers ≡ some (p ∷ pp)
      → All (IsPair env) (p ∷ pp)
      → IsVarint (length (pairs env (p ∷ pp)))
      → (parse_datagram env fuel (record { bytes = append_datagram env [] m; spare = spare })
          ≡ hang)
        × (length spare < m.object_status
            → parse_datagram env fuel
                (record { bytes = append_datagram_status env [] m; spare = spare })
              ≡ panic)
  unfolding parse_rest parse_extension parse_content_of parse_length
  parse_datagram_headers m p pp fuel spare w h hs fits = (
    rw (append_datagram_headers m (p ∷ pp) h hs) (
        parse_datagram-ids fuel 1 m _ spare (omega arith) w
        ∙ rw (parse_length-hang env fuel p pp m.object_payload spare hs fits) refl),
    λ more.
        ap (λ bs. parse_datagram env fuel (record { bytes = bs; spare = spare }))
          (append_datagram_status_lem m
            ∙ ap (λ e. encode env (status_type e) ++ (ids m ++ encode env m.object_status)) h)
        ∙ (parse_datagram-ids fuel 3 m (encode env m.object_status) spare (omega arith) w
            ∙ rw (parse-encode-all m.object_status w.object_status) (
                rw (drop_all (encode env m.object_status))
                  (rw (lt→ltb (length spare) m.object_status more) refl))),
  )
