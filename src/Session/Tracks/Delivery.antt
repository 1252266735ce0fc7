-- ===== src/Session/Tracks/Delivery.antt =====
-- From a local track to the remote track that is subscribed to it: local_track.go and subgroup.go on
-- one side of a stream, session.go and remote_track.go on the other.
use moqtransport_fec.Base.{
  ℕ, ◌+◌, ◌≤◌, ◌<◌, ◌≡◌, ap, length, take, lt→ltb, ◌++◌, ◌∷◌, refl, ok, arith, List, [], none, some,
  inr, All,
}
use moqtransport_fec.Base.Assoc.{insert}
use moqtransport_fec.Wire.Env.{Env, IsVarint}
use moqtransport_fec.Wire.Objects.{SubgroupHeaderMessage}
use moqtransport_fec.Wire.Datagram.{append_datagram}
use moqtransport_fec.Wire.Datagram.RoundTrip.{parse_datagram-append}
use moqtransport_fec.Session.LocalTracks.{LocalTrack}
use moqtransport_fec.Session.RemoteTracks.{RemoteTrack, RemoteTrackMap, find_by_track_alias}
use moqtransport_fec.Session.Streams.{
  Object, push, receive_datagram, read_datagram, Subgroup, Reception, returns, reception_of,
  handle_uni_stream, read_subgroup_stream, read_uni_stream,
}
use moqtransport_fec.Session.Streams.Delivery.{
  write_all, delivered, push_all_lem, IsPayload, always, read_stream-write_all,
}
use moqtransport_fec.Session.Tracks.{TrackState, open_subgroup, datagram_of, send_datagram}

-- A track that one more subgroup has reached.
abbrev reached : Reception → Reception
reached t = record t { sub_group_count = t.sub_group_count + 1 }

-- What a track holds behind a subgroup: the objects in order, as far as its buffer has room.
abbrev pub received : Reception → ℕ → ℕ → List (ℕ × List ℕ) → Reception
received t group subgroup os = record t {
  buffer = take 100 (t.buffer ++ delivered group subgroup os);
  sub_group_count = t.sub_group_count + 1;
}

module _ (env : Env) where
  -- A local track that is not closed opens a subgroup on a new stream that takes every call, and
  -- objects are written to it. A receiver that knows the track's alias reads the stream to its end
  -- without an error; the remote track of that alias, and no other, then holds these objects behind
  -- what it held, in order, with the group and the subgroup that the sender gave. If there is no room
  -- for all of them in its buffer of 100, which holds no more before, the last ones are dropped.
  pub read_uni_stream-open_subgroup :
      (lt : LocalTrack) (t : TrackState) (m : RemoteTrackMap) (rt : RemoteTrack)
      (rs : List (ℕ × Reception)) (group subgroup priority : ℕ) (os : List (ℕ × List ℕ))
      → t.closed ≡ none
      → find_by_track_alias m lt.track_alias ≡ some rt
      → IsVarint lt.track_alias × IsVarint group × IsVarint subgroup
      → All (IsPayload env) os
      → length (reception_of env rs rt.address).buffer ≤ 100
      → (s : Subgroup) × ((open_subgroup env always lt t (some []) group subgroup priority).1
          ≡ inr s)
        × (read_uni_stream env m rs (write_all env always s os).stream ≡ (
          insert rt.address (received (reception_of env rs rt.address) group subgroup os) rs,
          returns,
        ))
  unfolding open_subgroup read_uni_stream handle_uni_stream read_subgroup_stream
  read_uni_stream-open_subgroup lt t m rt rs group subgroup priority os live known ids v room =
      let h : SubgroupHeaderMessage = record {
        track_alias = lt.track_alias;
        group_id = group;
        subgroup_id = subgroup;
        publisher_priority = priority;
      } in
      let (s, p, input, made, parsed, same, typ, pushed) =
        read_stream-write_all env h os (reached (reception_of env rs rt.address)) ids v in
      (
        s,
        rw (open_subgroup, live, made) refl,
        rw (read_uni_stream, parsed)
            (rw (handle_uni_stream, typ, same, known)
              (rw (read_subgroup_stream, pushed)
                (ap (λ r. (insert rt.address r rs, returns))
                  (push_all_lem (reached (reception_of env rs rt.address)) group subgroup os
                    room)))),
      )

  -- A local track that is not closed sends an object in a datagram. A receiver that knows the track's
  -- alias appends the object to the buffer of the remote track of that alias, which has room for it,
  -- whatever lies behind the datagram in memory; the number of a subgroup is not sent.
  pub read_datagram-send_datagram :
      (lt : LocalTrack) (t : TrackState) (m : RemoteTrackMap) (rt : RemoteTrack)
      (rs : List (ℕ × Reception)) (o : Object) (fuel : ℕ) (spare : List ℕ)
      → t.closed ≡ none
      → find_by_track_alias m lt.track_alias ≡ some rt
      → IsVarint lt.track_alias × IsVarint o.group_id × IsVarint o.object_id
      → length (reception_of env rs rt.address).buffer < 100
      → (bytes : List ℕ) × (send_datagram env always lt t o ≡ inr bytes)
        × (read_datagram env fuel m rs (record { bytes = bytes; spare = spare })
            ≡ ok (
                some (
                  insert rt.address
                    (record (reception_of env rs rt.address) {
                      buffer =
                          (reception_of env rs rt.address).buffer
                          ++ (record o { forwarding_preference = 0; sub_group_id = 0 } ∷ []);
                    })
                    rs)))
  unfolding send_datagram read_datagram receive_datagram push
  read_datagram-send_datagram lt t m rt rs o fuel spare live known (a, g, i) room =
      let msg = datagram_of env always lt o in
      let (parsed, status) =
        parse_datagram-append env msg fuel spare
          (record { track_alias = a; group_id = g; object_id = i; object_status = omega arith })
          refl in
      (
        append_datagram env [] msg,
        rw (send_datagram, live) refl,
        rw (read_datagram, parsed) (rw (receive_datagram, known, push, lt→ltb _ 100 room) refl),
      )
