-- ===== src/Session/Streams.antt =====
-- Objects between sender and receiver: subgroup.go, fetch_stream.go and object.go; what remote_track.go
-- does with a stream and with an object; and handleUniStream, readDatagrams and receiveDatagram of session.go. A
-- stream that is written to is the bytes that it has taken; it takes all bytes of a call or returns an
-- error, as `accepts` says of the bytes so far and the next ones. What is written to the log is
-- left out.
pub mod Termination
pub mod Delivery
pub mod Reading
use moqtransport_fec.Base.{
  ℕ, zero, suc, ◌+◌, Bool, true, false, List, [], ◌∷◌, ◌++◌, Option, none, some, ltb, ◌==◌, length,
  Error, Result, ok, err, panic, hang, eof, if◌then◌else◌, ◌>>=◌,
}
use moqtransport_fec.Base.Assoc.{lookup, insert}
use moqtransport_fec.Wire.Env.{Env}
use moqtransport_fec.Wire.Objects.{
  ObjectMessage, append_subgroup, append_fetch_object, append_subgroup_header, append_fetch_header,
  stream_type_fetch,
}
use moqtransport_fec.Wire.Params.{Slice}
use moqtransport_fec.Wire.Datagram.{ObjectDatagramMessage, parse_datagram}
use moqtransport_fec.Wire.Streams.{ObjectStreamParser, new_object_stream_parser, parse_object}
use moqtransport_fec.Session.RemoteTracks.{RemoteTrackMap, find_by_request_id, find_by_track_alias}

-- The second constant repeats the expression of the first, so both are zero.
abbrev pub forwarding_preference_subgroup : ℕ
forwarding_preference_subgroup = 0x00

abbrev pub forwarding_preference_datagram : ℕ
forwarding_preference_datagram = 0x00

pub record Object : Type 0 where
  pub group_id : ℕ
  pub object_id : ℕ
  pub forwarding_preference : ℕ
  pub sub_group_id : ℕ
  pub payload : List ℕ

pub record Subgroup : Type 0 where
  pub stream : List ℕ
  pub group_id : ℕ
  pub subgroup_id : ℕ

pub record FetchStream : Type 0 where
  pub stream : List ℕ

-- What the streams change of a RemoteTrack.
pub record Reception : Type 0 where
  pub buffer : List Object
  pub sub_group_count : ℕ
  pub fetch_count : ℕ

unfoldable pub new_reception : Reception
new_reception = record { buffer = []; sub_group_count = 0; fetch_count = 0 }

-- `make(chan *Object, 100)`
abbrev pub buffer_size : ℕ
buffer_size = 100

-- An object that finds the buffer full is dropped.
unfoldable pub push : Reception → Object → Reception
push t o =
    if ltb (length t.buffer) buffer_size then record t { buffer = t.buffer ++ (o ∷ []) } else t

-- The case that the select of ReadObject takes.
pub data Selection : Type 0 where
  context_done track_done object_arrived : Selection

-- What ReadObject returns: the cause of the context, an ErrSubscribeDone, or an object, which comes
-- with an error if the track is done.
pub data ReadResult : Type 0 where
  context_error : ReadResult
  subscribe_done_error : ℕ → List ℕ → ReadResult
  read : Object → Bool → ReadResult

-- RemoteTrack.ReadObject, with the status and the reason of the track's end if it is done; none if the
-- case is not ready. The caller's context may end at any time.
unfoldable pub read_object :
    Selection → Reception → Option (ℕ × List ℕ) → Option (Reception × ReadResult)
read_object context_done t finished = some (t, context_error)
read_object track_done t none = none
read_object track_done t (some (status, reason)) = some (t, subscribe_done_error status reason)
read_object object_arrived t finished = elim t.buffer [
  | [] ↦ none
  | o ∷ os ↦
      some (record t { buffer = os }, read o (elim finished [ none ↦ false | some _ ↦ true ]))
]

-- How the reading of a stream ends; the last two are those of `Result`.
pub data Ending : Type 0 where
  returns : Ending
  fails : Error → Ending
  too_many_fetch_streams unknown_request_id : Ending
  panics runs_on : Ending

-- The end of the input ends the stream.
abbrev pub ending_of : Error → Ending
ending_of eof = returns
ending_of e = fails e

-- The object that readStream makes of a message.
abbrev pub object_of : ObjectMessage → Object
object_of m = record {
  group_id = m.group_id;
  object_id = m.object_id;
  forwarding_preference = forwarding_preference_subgroup;
  sub_group_id = m.subgroup_id;
  payload = m.object_payload;
}

-- Each object takes a byte at least, so these are enough.
abbrev pub rounds : List ℕ → ℕ
rounds input = suc (length input)

module _ (env : Env) where
  -- RemoteTrack.readStream, for as many objects as the fuel allows.
  unfoldable pub read_stream : ℕ → ObjectStreamParser → List ℕ → Reception → Reception × Ending
  read_stream zero p input t = (t, runs_on)
  read_stream (suc fuel) p input t = elim (parse_object env p input) [
    | ok (m, q, rest) ↦ read_stream fuel q rest (push t (object_of m))
    | err e ↦ (t, ending_of e)
    | panic ↦ (t, panics)
    | hang ↦ (t, runs_on)
  ]

  unfoldable pub read_fetch_stream : ObjectStreamParser → List ℕ → Reception → Reception × Ending
  read_fetch_stream p input t =
      let counted = record t { fetch_count = t.fetch_count + 1 } in
      if ltb 1 counted.fetch_count
      then (counted, too_many_fetch_streams)
      else read_stream (rounds input) p input counted

  unfoldable pub read_subgroup_stream : ObjectStreamParser → List ℕ → Reception → Reception × Ending
  read_subgroup_stream p input t =
      read_stream (rounds input) p input (record t { sub_group_count = t.sub_group_count + 1 })

  -- What is known of the track at an address; a track that nothing has reached yet is new.
  unfoldable pub reception_of : List (ℕ × Reception) → ℕ → Reception
  reception_of rs address = elim (lookup address rs) [ none ↦ new_reception | some t ↦ t ]

  abbrev pub store_at :
      List (ℕ × Reception) → ℕ → Reception × Ending → List (ℕ × Reception) × Ending
  store_at rs address (t, e) = (insert address t rs, e)

  -- Session.handleUniStream, behind the parser of the stream's header.
  unfoldable pub handle_uni_stream :
      RemoteTrackMap
      → List (ℕ × Reception)
      → ObjectStreamParser
      → List ℕ
      → List (ℕ × Reception) × Ending
  handle_uni_stream m rs p input =
      if p.typ == stream_type_fetch
      then (elim (find_by_request_id m p.identifier) [
        | none ↦ (rs, unknown_request_id)
        | some rt ↦ store_at rs rt.address (read_fetch_stream p input (reception_of rs rt.address))
      ])
      else (elim (find_by_track_alias m p.identifier) [
        | none ↦ (rs, unknown_request_id)
        | some rt ↦
            store_at rs rt.address (read_subgroup_stream p input (reception_of rs rt.address))
      ])

  -- What readStreams does with one stream.
  unfoldable pub read_uni_stream :
      RemoteTrackMap → List (ℕ × Reception) → List ℕ → List (ℕ × Reception) × Ending
  read_uni_stream m rs input = elim (new_object_stream_parser env input) [
    | ok (p, rest) ↦ handle_uni_stream m rs p rest
    | err e ↦ (rs, fails e)
    | panic ↦ (rs, panics)
    | hang ↦ (rs, runs_on)
  ]

  -- Session.receiveDatagram; none is the error for an alias that is not known.
  unfoldable pub receive_datagram :
      RemoteTrackMap → List (ℕ × Reception) → ObjectDatagramMessage → Option (List (ℕ × Reception))
  receive_datagram m rs msg = elim (find_by_track_alias m msg.track_alias) [
    | none ↦ none
    | some rt ↦ some (
        insert rt.address
          (push (reception_of rs rt.address) (record {
            group_id = msg.group_id;
            object_id = msg.object_id;
            forwarding_preference = forwarding_preference_datagram;
            sub_group_id = 0;
            payload = msg.object_payload;
          }))
          rs)
  ]

  -- What readDatagrams does with one datagram.
  unfoldable pub read_datagram :
      ℕ → RemoteTrackMap → List (ℕ × Reception) → Slice → Result (Option (List (ℕ × Reception)))
  read_datagram fuel m rs dgram = do
    (msg, parsed) ← parse_datagram env fuel dgram
    ok (receive_datagram m rs msg)

  module _ (accepts : List ℕ → List ℕ → Bool) where
    unfoldable pub new_subgroup : List ℕ → ℕ → ℕ → ℕ → ℕ → Option Subgroup
    new_subgroup stream track_alias group_id subgroup_id publisher_priority =
        let buf = append_subgroup_header env [] (record {
          track_alias = track_alias;
          group_id = group_id;
          subgroup_id = subgroup_id;
          publisher_priority = publisher_priority;
        }) in
        if accepts stream buf
        then some
            (record { stream = stream ++ buf; group_id = group_id; subgroup_id = subgroup_id })
        else none

    abbrev pub subgroup_object : ℕ → List ℕ → ObjectMessage
    subgroup_object object_id payload = record {
      track_alias = 0;
      group_id = 0;
      subgroup_id = 0;
      object_id = object_id;
      publisher_priority = 0;
      object_extension_headers = none;
      object_status = 0;
      object_payload = payload;
    }

    -- The number of bytes written, or none for an error.
    unfoldable pub write_subgroup_object : Subgroup → ℕ → List ℕ → Subgroup × Option ℕ
    write_subgroup_object s object_id payload =
        let buf = append_subgroup env [] (subgroup_object object_id payload) in
        if accepts s.stream buf
        then (record s { stream = s.stream ++ buf }, some (length payload))
        else (s, none)

    unfoldable pub new_fetch_stream : List ℕ → ℕ → Option FetchStream
    new_fetch_stream stream request_id =
        let buf = append_fetch_header env [] (record { request_id = request_id }) in
        if accepts stream buf then some (record { stream = stream ++ buf }) else none

    abbrev pub fetch_object : ℕ → ℕ → ℕ → ℕ → List ℕ → ObjectMessage
    fetch_object group_id subgroup_id object_id priority payload = record {
      track_alias = 0;
      group_id = group_id;
      subgroup_id = subgroup_id;
      object_id = object_id;
      publisher_priority = priority;
      object_extension_headers = none;
      object_status = 0;
      object_payload = payload;
    }

    unfoldable pub write_fetch_object :
        FetchStream → ℕ → ℕ → ℕ → ℕ → List ℕ → FetchStream × Option ℕ
    write_fetch_object f group_id subgroup_id object_id priority payload =
        let buf =
          append_fetch_object env []
            (fetch_object group_id subgroup_id object_id priority payload) in
        if accepts f.stream buf
        then (record f { stream = f.stream ++ buf }, some (length payload))
        else (f, none)
