-- ===== src/Session/Streams/Termination.antt =====
-- The loop of readStream in remote_track.go and the rounds that the model grants it.
use moqtransport_fec.Base.{
  ℕ, ◌+◌, Bool-cases, Option-cases, ltb, ◌==◌, zero, suc, ◌<◌, ◌≡◌, ◌≢◌, Error, eof, refl, arith,
  List, length, Result-cases, inl, inr,
}
use moqtransport_fec.Wire.Env.{Env}
use moqtransport_fec.Wire.Streams.{ObjectStreamParser, parse_object, new_object_stream_parser}
use moqtransport_fec.Wire.Objects.{stream_type_fetch}
use moqtransport_fec.Wire.Streams.Consumption.{parse_object-shrinks}
use moqtransport_fec.Session.Streams.{
  Reception, ending_of, panics, runs_on, handle_uni_stream, reception_of, read_fetch_stream,
  read_subgroup_stream, read_uni_stream, store_at, Ending, read_stream, rounds, push, object_of,
}
use moqtransport_fec.Wire.Streams.Ending.{parse_object_ends, new_object_stream_parser_ends}
use moqtransport_fec.Session.RemoteTracks.{RemoteTrackMap, find_by_request_id, find_by_track_alias}

module _ (env : Env) where
  enough :
      (a b : ℕ) (p : ObjectStreamParser) (input : List ℕ) (t : Reception)
      → length input < a
      → length input < b
      → read_stream env a p input t ≡ read_stream env b p input t
  unfolding read_stream
  enough zero b p input t h k = absurd (omega arith)
  enough (suc a) zero p input t h k = absurd (omega arith)
  enough (suc a) (suc b) p input t h k = elim (Result-cases (parse_object env p input)) [
    | inl ((m, q, rest), e) ↦
        let shorter = parse_object-shrinks env p q input rest m e in
        rw (read_stream, e) (enough a b q rest (push t (object_of m)) (omega arith) (omega arith))
    | inr (inl (_, e)) ↦ rw (read_stream, e) refl
    | inr (inr (inl e)) ↦ rw (read_stream, e) refl
    | inr (inr (inr e)) ↦ rw (read_stream, e) refl
  ]

  ends :
      (fuel : ℕ) (p : ObjectStreamParser) (input : List ℕ) (t : Reception)
      → length input < fuel
      → (read_stream env fuel p input t).1 ≢ runs_on
  unfolding read_stream
  ends zero p input t h e = absurd (omega arith)
  ends (suc fuel) p input t h e = elim (Result-cases (parse_object env p input)) [
    | inl ((m, q, rest), f) ↦
        let shorter = parse_object-shrinks env p q input rest m f in
        ends fuel q rest (push t (object_of m)) (omega arith) (rw (read_stream, f) at e)
    | inr (inl (x, f)) ↦ ending_of_ends x (rw (read_stream, f) at e)
    | inr (inr (inl f)) ↦ never (rw (read_stream, f) at e)
    | inr (inr (inr f)) ↦ absurd (parse_object_ends env p input f)
  ]
    where
      ending_of_ends : (x : Error) → ending_of x ≢ runs_on
      ending_of_ends eof = λ e. cc
      ending_of_ends _ = λ e. cc

      never : panics ≢ runs_on
      never e = cc

  -- With more rounds than the stream has bytes, the loop of `readStream` ends: it returns, or it fails
  -- or panics, and it has the same result for every such number of rounds.
  pub read_stream_enough :
      (fuel : ℕ) (p : ObjectStreamParser) (input : List ℕ) (t : Reception)
      → length input < fuel
      → ((read_stream env fuel p input t).1 ≢ runs_on)
        × (read_stream env fuel p input t ≡ read_stream env (rounds input) p input t)
  read_stream_enough fuel p input t h =
      (ends fuel p input t h, enough fuel (rounds input) p input t h (omega arith))

  store_at_ends :
      (rs : List (ℕ × Reception)) (address : ℕ) (r : Reception × Ending)
      → r.1 ≢ runs_on
      → (store_at env rs address r).1 ≢ runs_on
  store_at_ends rs address (t, e) h = h

  read_fetch_stream_ends :
      (p : ObjectStreamParser) (input : List ℕ) (t : Reception)
      → (read_fetch_stream env p input t).1 ≢ runs_on
  unfolding read_fetch_stream
  read_fetch_stream_ends p input t = elim (Bool-cases (ltb 1 (t.fetch_count + 1))) [
    | inl h ↦ rw h (λ e. cc)
    | inr h ↦ rw h (ends (rounds input) p input _ (omega arith))
  ]

  read_subgroup_stream_ends :
      (p : ObjectStreamParser) (input : List ℕ) (t : Reception)
      → (read_subgroup_stream env p input t).1 ≢ runs_on
  unfolding read_subgroup_stream
  read_subgroup_stream_ends p input t = ends (rounds input) p input _ (omega arith)

  handle_uni_stream_ends :
      (m : RemoteTrackMap) (rs : List (ℕ × Reception)) (p : ObjectStreamParser) (input : List ℕ)
      → (handle_uni_stream env m rs p input).1 ≢ runs_on
  unfolding handle_uni_stream
  handle_uni_stream_ends m rs p input = elim (Bool-cases (p.typ == stream_type_fetch)) [
    | inl f ↦ elim (Option-cases (find_by_request_id m p.identifier)) [
      | inl k ↦ rw (f, k) (λ e. cc)
      | inr (rt, k) ↦
          rw (f, k)
            (store_at_ends rs rt.address
              (read_fetch_stream env p input (reception_of env rs rt.address))
              (read_fetch_stream_ends p input (reception_of env rs rt.address)))
    ]
    | inr f ↦ elim (Option-cases (find_by_track_alias m p.identifier)) [
      | inl k ↦ rw (f, k) (λ e. cc)
      | inr (rt, k) ↦
          rw (f, k)
            (store_at_ends rs rt.address
              (read_subgroup_stream env p input (reception_of env rs rt.address))
              (read_subgroup_stream_ends p input (reception_of env rs rt.address)))
    ]
  ]

  -- Whatever bytes a stream from the peer has and whatever tracks there are, the reading of the stream
  -- ends, by a return, an error or a panic.
  pub read_uni_stream-ends :
      (m : RemoteTrackMap) (rs : List (ℕ × Reception)) (input : List ℕ)
      → (read_uni_stream env m rs input).1 ≢ runs_on
  unfolding read_uni_stream
  read_uni_stream-ends m rs input = elim (Result-cases (new_object_stream_parser env input)) [
    | inl ((p, rest), f) ↦ rw (read_uni_stream, f) (handle_uni_stream_ends m rs p rest)
    | inr (inl (x, f)) ↦ rw (read_uni_stream, f) (λ e. cc)
    | inr (inr (inl f)) ↦ rw (read_uni_stream, f) (λ e. cc)
    | inr (inr (inr f)) ↦ absurd (new_object_stream_parser_ends env input f)
  ]
