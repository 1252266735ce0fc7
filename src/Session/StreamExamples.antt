-- ===== src/Session/StreamExamples.antt =====
-- The theorems on tracks, streams and datagrams at examples.
use moqtransport_fec.Base.{
  ℕ, ◌+◌, ◌≤◌, false, ◌≡◌, ◌≢◌, refl, arith, true, length, ◌<◌, List, [], ◌∷◌, ◌++◌, none, some,
  All, inr, ok,
}
use moqtransport_fec.Base.Assoc.{lookup, insert}
use moqtransport_fec.Wire.Quic.{quic}
use moqtransport_fec.Wire.Streams.{ObjectStreamParser}
use moqtransport_fec.Session.LocalTracks.{LocalTrack}
use moqtransport_fec.Session.RemoteTracks.{
  RemoteTrack, RemoteTrackMap, find_by_request_id, find_by_track_alias,
}
use moqtransport_fec.Session.Streams.{
  Selection, object_arrived, track_done, Object, Subgroup, Reception, returns, runs_on, rounds,
  read_stream, reception_of, new_reception, read_uni_stream, read_datagram,
}
use moqtransport_fec.Session.Streams.Termination.{read_stream_enough, read_uni_stream-ends}
use moqtransport_fec.Session.Streams.Reading.{read_calls, objects_of, arrivals, results}
use moqtransport_fec.Session.Tracks.Reading.{read_objects-open_subgroup}
use moqtransport_fec.Session.Streams.Delivery.{delivered, write_all, always, IsPayload}
use moqtransport_fec.Session.Tracks.{TrackState, open_subgroup, send_datagram}
use moqtransport_fec.Session.Tracks.Delivery.{
  read_uni_stream-open_subgroup, read_datagram-send_datagram, received,
}

abbrev a_local_track : LocalTrack
a_local_track = record { request_id = 2; track_alias = 5; is_fetch = false }

abbrev a_live_track : TrackState
a_live_track = record { subgroup_count = 0; fetch_stream = none; closed = none }

abbrev a_track_with : ℕ → RemoteTrack
a_track_with id = record { address = 100 + id; request_id = id }

-- The subscription of request 2 is open under the alias 5.
abbrev subscribed_tracks : RemoteTrackMap
subscribed_tracks = record {
  next_track_alias = 0;
  pending = [];
  opened = (2, a_track_with 2) ∷ [];
  track_alias_to_request_id = (5, 2) ∷ [];
}

subscribed_tracks-known : find_by_track_alias subscribed_tracks 5 ≡ some (a_track_with 2)
unfolding find_by_track_alias find_by_request_id lookup
subscribed_tracks-known = refl

abbrev two_objects : List (ℕ × List ℕ)
two_objects = (0, 1 ∷ 2 ∷ []) ∷ (1, []) ∷ []

two_objects-IsPayload : All (IsPayload quic) two_objects
unfolding quic
two_objects-IsPayload =
    ((omega arith, omega arith, omega arith), ((omega arith, omega arith, omega arith), tt))

room : length (reception_of quic [] 102).buffer ≤ 100
unfolding reception_of lookup new_reception
room = omega arith

has_room : length (reception_of quic [] 102).buffer < 100
unfolding reception_of lookup new_reception
has_room = omega arith

read_uni_stream-open_subgroup_example :
    (s : Subgroup) × ((open_subgroup quic always a_local_track a_live_track (some []) 7 3 128).1
      ≡ inr s)
    × (read_uni_stream quic subscribed_tracks [] (write_all quic always s two_objects).stream
        ≡ (insert 102 (received (reception_of quic [] 102) 7 3 two_objects) [], returns))
read_uni_stream-open_subgroup_example =
    read_uni_stream-open_subgroup quic a_local_track a_live_track subscribed_tracks (a_track_with 2)
      [] 7 3 128 two_objects refl subscribed_tracks-known (omega arith, omega arith, omega arith)
      two_objects-IsPayload room

abbrev an_object : Object
an_object = record {
  group_id = 4;
  object_id = 9;
  forwarding_preference = 0;
  sub_group_id = 0;
  payload = 1 ∷ 2 ∷ 3 ∷ [];
}

read_datagram-send_datagram_example :
    (bytes : List ℕ) × (send_datagram quic always a_local_track a_live_track an_object ≡ inr bytes)
    × (read_datagram quic 3 subscribed_tracks [] (record { bytes = bytes; spare = 8 ∷ [] })
        ≡ ok (
            some (
              insert 102
                (record (reception_of quic [] 102) {
                  buffer = (reception_of quic [] 102).buffer ++ (an_object ∷ []);
                })
                [])))
read_datagram-send_datagram_example =
    read_datagram-send_datagram quic a_local_track a_live_track subscribed_tracks (a_track_with 2)
      [] an_object 3 (8 ∷ []) refl subscribed_tracks-known (omega arith, omega arith, omega arith)
      has_room

abbrev a_parser : ObjectStreamParser
a_parser = record {
  typ = 0x0d;
  identifier = 5;
  has_subgroup_id = true;
  has_extensions = true;
  publisher_priority = 128;
  group_id = 7;
  subgroup_id = 3;
}

abbrev a_reception : Reception
a_reception = record { buffer = []; sub_group_count = 1; fetch_count = 0 }

abbrev some_bytes : List ℕ
some_bytes = 0 ∷ 0 ∷ 2 ∷ 8 ∷ 9 ∷ []

read_stream_enough_example :
    ((read_stream quic 50 a_parser some_bytes a_reception).1 ≢ runs_on)
    × (read_stream quic 50 a_parser some_bytes a_reception
        ≡ read_stream quic (rounds some_bytes) a_parser some_bytes a_reception)
read_stream_enough_example =
    read_stream_enough quic 50 a_parser some_bytes a_reception (omega arith)

read_uni_stream-ends_example :
    (read_uni_stream quic subscribed_tracks [] (8 ∷ 5 ∷ some_bytes)).1 ≢ runs_on
read_uni_stream-ends_example = read_uni_stream-ends quic subscribed_tracks [] (8 ∷ 5 ∷ some_bytes)

abbrev some_calls : List Selection
some_calls = object_arrived ∷ track_done ∷ object_arrived ∷ object_arrived ∷ []

nothing_held : (reception_of quic [] 102).buffer ≡ []
unfolding reception_of lookup new_reception
nothing_held = refl

read_objects-open_subgroup_example :
    (s : Subgroup) × ((open_subgroup quic always a_local_track a_live_track (some []) 7 3 128).1
      ≡ inr s)
    × (let r =
          reception_of quic
            (read_uni_stream quic subscribed_tracks []
              (write_all quic always s two_objects).stream).0
            102 in
        (objects_of (read_calls (some (2, [])) some_calls r).1
            ++ (read_calls (some (2, [])) some_calls r).0.buffer
          ≡ delivered 7 3 two_objects)
        × (read_calls (some (2, [])) (arrivals 2) r
            ≡ (record r { buffer = [] }, results (some (2, [])) (delivered 7 3 two_objects))))
read_objects-open_subgroup_example =
    read_objects-open_subgroup quic a_local_track a_live_track subscribed_tracks (a_track_with 2) []
      7 3 128 two_objects (some (2, [])) some_calls refl subscribed_tracks-known
      (omega arith, omega arith, omega arith) two_objects-IsPayload nothing_held (omega arith)
