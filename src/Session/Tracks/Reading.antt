-- ===== src/Session/Tracks/Reading.antt =====
-- From a local track to the application that reads the remote track: local_track.go and subgroup.go
-- on one side, session.go and remote_track.go on the other.
use moqtransport_fec.Base.{
  ℕ, ◌≤◌, ◌≡◌, refl, sym, ap, ◌∙◌, arith, List, [], ◌++◌, append-nil, Option, none, some, inr, All,
  length, take, ==-refl,
}
use moqtransport_fec.Base.Assoc.{insert, lookup-insert}
use moqtransport_fec.Wire.Env.{Env, IsVarint}
use moqtransport_fec.Session.LocalTracks.{LocalTrack}
use moqtransport_fec.Session.RemoteTracks.{RemoteTrack, RemoteTrackMap, find_by_track_alias}
use moqtransport_fec.Session.Streams.{Selection, Subgroup, Reception, reception_of, read_uni_stream}
use moqtransport_fec.Session.Streams.Delivery.{write_all, delivered, IsPayload, always, take_all}
use moqtransport_fec.Session.Streams.Reading.{
  read_calls, objects_of, arrivals, results, read_calls-buffer, read_calls-arrivals,
  length-delivered,
}
use moqtransport_fec.Session.Tracks.{TrackState, open_subgroup}
use moqtransport_fec.Session.Tracks.Delivery.{received, read_uni_stream-open_subgroup}

module _ (env : Env) where
  reception_of-insert :
      (rs : List (ℕ × Reception)) (address : ℕ) (t : Reception)
      → reception_of env (insert address t rs) address ≡ t
  unfolding reception_of
  reception_of-insert rs address t =
      rw (reception_of, lookup-insert address address t rs, ==-refl address) refl

  received-buffer :
      (t : Reception) (group subgroup : ℕ) (os : List (ℕ × List ℕ))
      → t.buffer ≡ []
      → length os ≤ 100
      → (received t group subgroup os).buffer ≡ delivered group subgroup os
  received-buffer t group subgroup os e h =
      let ds = delivered group subgroup os in
      let most : length ds ≤ 100 = rw (length-delivered group subgroup os) h in
      ap (λ b. take 100 (b ++ ds)) e ∙ take_all 100 ds most

  -- Where nothing was to be read before, the objects of a subgroup are read in order.
  read_calls-received :
      (finished : Option (ℕ × List ℕ)) (cs : List Selection) (t : Reception) (group subgroup : ℕ)
      (os : List (ℕ × List ℕ))
      → t.buffer ≡ []
      → length os ≤ 100
      → let r = received t group subgroup os in
        (objects_of (read_calls finished cs r).1 ++ (read_calls finished cs r).0.buffer
          ≡ delivered group subgroup os)
        × (read_calls finished (arrivals (length os)) r
            ≡ (record r { buffer = [] }, results finished (delivered group subgroup os)))
  read_calls-received finished cs t group subgroup os e h =
      let ds = delivered group subgroup os in
      let r = received t group subgroup os in
      let held = received-buffer t group subgroup os e h in
      (
        sym (read_calls-buffer finished cs r) ∙ held,
        ap (λ n. read_calls finished (arrivals n) r) (sym (length-delivered group subgroup os))
            ∙ read_calls-arrivals finished ds [] r (held ∙ sym (append-nil ds)),
      )

  -- A local track that is not closed opens a subgroup on a new stream that takes every call, and at
  -- most 100 objects are written to it. A receiver that knows the track's alias, and whose application
  -- has read all that the track had, reads the stream. Whatever calls of `ReadObject` follow, and
  -- whichever ready case each takes, the objects that they return and then those that are left are
  -- exactly these objects, in order, with the group and the subgroup that the sender gave. If there
  -- are as many calls as objects, and each takes the case of the object, they return all of them,
  -- whether or not the track is done, and none is left.
  pub read_objects-open_subgroup :
      (lt : LocalTrack) (t : TrackState) (m : RemoteTrackMap) (rt : RemoteTrack)
      (rs : List (ℕ × Reception)) (group subgroup priority : ℕ) (os : List (ℕ × List ℕ))
      (finished : Option (ℕ × List ℕ)) (cs : List Selection)
      → t.closed ≡ none
      → find_by_track_alias m lt.track_alias ≡ some rt
      → IsVarint lt.track_alias × IsVarint group × IsVarint subgroup
      → All (IsPayload env) os
      → (reception_of env rs rt.address).buffer ≡ []
      → length os ≤ 100
      → (s : Subgroup) × ((open_subgroup env always lt t (some []) group subgroup priority).1
          ≡ inr s)
        × (let r =
              reception_of env
                (read_uni_stream env m rs (write_all env always s os).stream).0
                rt.address in
            (objects_of (read_calls finished cs r).1 ++ (read_calls finished cs r).0.buffer
              ≡ delivered group subgroup os)
            × (read_calls finished (arrivals (length os)) r
                ≡ (record r { buffer = [] }, results finished (delivered group subgroup os))))
  read_objects-open_subgroup lt t m rt rs group subgroup priority os finished cs live known ids v
        empty few =
      let before = reception_of env rs rt.address in
      let (s, made, arrived) =
        read_uni_stream-open_subgroup env lt t m rt rs group subgroup priority os live known ids v
          (rw empty (omega arith)) in
      let same : reception_of env (read_uni_stream env m rs (write_all env always s os).stream).0
            rt.address
          ≡ received before group subgroup os =
        ap (λ r. reception_of env r.0 rt.address) arrived
        ∙ reception_of-insert rs rt.address (received before group subgroup os) in
      (s, made, rw same (read_calls-received finished cs before group subgroup os empty few))
