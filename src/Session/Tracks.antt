-- ===== src/Session/Tracks.antt =====
-- What a local track of local_track.go does with its streams, its datagrams and its context. The
-- connection is not this repository's code: `opened` is what OpenUniStream returns, a stream that has
-- taken no bytes yet or none for an error; `accepts` is asked for every write.
pub mod Delivery
pub mod Reading
use moqtransport_fec.Base.{
  ℕ, ◌+◌, ◌%◌, Bool, List, [], Option, none, some, ◌⊎◌, inl, inr, if◌then◌else◌,
}
use moqtransport_fec.Wire.Env.{Env}
use moqtransport_fec.Wire.Datagram.{ObjectDatagramMessage, append_datagram}
use moqtransport_fec.Session.Ids.{u64_mod}
use moqtransport_fec.Session.LocalTracks.{LocalTrack}
use moqtransport_fec.Session.Streams.{Object, Subgroup, FetchStream, new_subgroup, new_fetch_stream}

-- Why a track was closed: `ErrSubscriptionDone` or `ErrUnsusbcribed`.
pub data Cause : Type 0 where
  subscription_done unsubscribed : Cause

-- The errors of a track: the cause for which it was closed, or one of the connection.
pub data TrackError : Type 0 where
  closed_by : Cause → TrackError
  connection_failed : TrackError

-- The fields of a localTrack that change.
pub record TrackState : Type 0 where
  pub subgroup_count : ℕ
  pub fetch_stream : Option FetchStream
  pub closed : Option Cause

unfoldable pub new_local_track : TrackState
new_local_track = record { subgroup_count = 0; fetch_stream = none; closed = none }

-- A context keeps the cause of its first cancellation.
unfoldable pub cancel : Cause → TrackState → TrackState
cancel cause t = elim t.closed [ some _ ↦ t | none ↦ record t { closed = some cause } ]

unfoldable pub unsubscribe : TrackState → TrackState
unsubscribe t = cancel unsubscribed t

module _ (env : Env) (accepts : List ℕ → List ℕ → Bool) where
  unfoldable pub get_fetch_stream :
      LocalTrack → TrackState → Option (List ℕ) → TrackState × (TrackError ⊎ FetchStream)
  get_fetch_stream lt t opened = elim t.closed [
    | some cause ↦ (t, inl (closed_by cause))
    | none ↦ elim t.fetch_stream [
      | some f ↦ (t, inr f)
      | none ↦ elim opened [
        | none ↦ (t, inl connection_failed)
        | some stream ↦ elim (new_fetch_stream env accepts stream lt.request_id) [
          | none ↦ (record t { fetch_stream = none }, inl connection_failed)
          | some f ↦ (record t { fetch_stream = some f }, inr f)
        ]
      ]
    ]
  ]

  unfoldable pub open_subgroup :
      LocalTrack → TrackState → Option (List ℕ) → ℕ → ℕ → ℕ → TrackState × (TrackError ⊎ Subgroup)
  open_subgroup lt t opened group_id subgroup_id priority = elim t.closed [
    | some cause ↦ (t, inl (closed_by cause))
    | none ↦ elim opened [
      | none ↦ (t, inl connection_failed)
      | some stream ↦
          let counted = record t { subgroup_count = (t.subgroup_count + 1) % u64_mod } in
          elim (new_subgroup env accepts stream lt.track_alias group_id subgroup_id priority) [
            | none ↦ (counted, inl connection_failed)
            | some g ↦ (counted, inr g)
          ]
    ]
  ]

  -- The message of a datagram.
  abbrev pub datagram_of : LocalTrack → Object → ObjectDatagramMessage
  datagram_of lt o = record {
    track_alias = lt.track_alias;
    group_id = o.group_id;
    object_id = o.object_id;
    publisher_priority = 0;
    object_extension_headers = none;
    object_payload = o.payload;
    object_status = 0;
  }

  -- The bytes that are handed to the connection.
  unfoldable pub send_datagram : LocalTrack → TrackState → Object → TrackError ⊎ List ℕ
  send_datagram lt t o = elim t.closed [
    | some cause ↦ inl (closed_by cause)
    | none ↦
        let buf = append_datagram env [] (datagram_of lt o) in
        if accepts [] buf then inr buf else inl connection_failed
  ]
