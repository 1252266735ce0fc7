-- ===== src/Session/Tests.antt =====
-- The theorems on the session at examples.
use moqtransport_fec.Base.{
  ℕ, ◌+◌, ◌≤◌, ◌<◌, ◌/◌, ◌≡◌, refl, arith, Bool, true, false, List, [], ◌∷◌, ◌++◌, ◌^◌, none, some,
  All, ◌⊎◌,
}
use moqtransport_fec.Base.Assoc.{lookup}
use moqtransport_fec.Wire.Quic.{quic}
use moqtransport_fec.Wire.Message.{ControlMessage, client_setup, server_setup}
use moqtransport_fec.Wire.Fields.{current_version}
use moqtransport_fec.Session.Errors.{write_failed, duplicate_request_id, max_request_id_violated}
use moqtransport_fec.Session.Ids.{RequestIdGenerator, next, set_max}
use moqtransport_fec.Session.Ids.Fresh
use moqtransport_fec.Session.LocalTracks.{LocalTrack, LocalTrackMap}
use moqtransport_fec.Session.LocalTracks.Refinement as Local
use moqtransport_fec.Session.RemoteTracks.{
  RemoteTrack, RemoteTrackMap, find_by_request_id, find_by_track_alias,
}
use moqtransport_fec.Session.RemoteTracks.Refinement as Remote
use moqtransport_fec.Session.State.{client, server, Session, start}
use moqtransport_fec.Session.Handshake.{
  client_setup_of, server_setup_of, send_client_setup, on_server_setup, receive_before_setup,
}
use moqtransport_fec.Session.Handshake.Agreement.{
  starting, AnswerAgrees, handshake_agreement, receive_before_setup-EndsSetup, EndsSetup,
}
use moqtransport_fec.Session.Window.{add_local_track}
use moqtransport_fec.Session.Window.Grants.{
  add_local_track-IsBounded, add_local_track_lem, IsBounded,
}

-- A stream that takes every message.
abbrev takes_all : List ControlMessage → ControlMessage → Bool
takes_all sent msg = true

abbrev a_generator : RequestIdGenerator
a_generator = record { id = 1; max = 4; interval = 2 }

abbrev some_calls : List Fresh.Call
some_calls =
    Fresh.take_next
    ∷ Fresh.take_next
    ∷ Fresh.take_next
    ∷ Fresh.announce_max 10
    ∷ Fresh.take_next
    ∷ []

some_calls-issued : Fresh.issued a_generator some_calls ≡ 1 ∷ 3 ∷ 5 ∷ []
unfolding Fresh.issued next set_max
some_calls-issued = refl

issued-IsSpread_example : Fresh.IsSpread 1 (Fresh.issued a_generator some_calls)
issued-IsSpread_example =
    Fresh.issued-IsSpread a_generator some_calls
      (record { interval = refl; id = omega arith; max = omega arith })
      (tt, (tt, (tt, (omega arith, (tt, tt)))))

issued-lt-max_example :
    ((Fresh.run a_generator some_calls).max
      ≤ (Fresh.run a_generator (some_calls ++ (Fresh.announce_max 3 ∷ []))).max)
    × All (λ n. n < (Fresh.run a_generator some_calls).max) (Fresh.issued a_generator some_calls)
issued-lt-max_example = Fresh.issued-lt-max a_generator some_calls (Fresh.announce_max 3 ∷ [])

abbrev a_track : ℕ → LocalTrack
a_track id = record { request_id = id; track_alias = 0; is_fetch = false }

-- Request 2 is pending, and request 0 is open.
abbrev some_tracks : LocalTrackMap
some_tracks = record { pending = (2, a_track 2) ∷ []; opened = (0, a_track 0) ∷ [] }

some_tracks-IsDisjoint : Local.IsDisjoint some_tracks
unfolding Local.IsDisjoint lookup
some_tracks-IsDisjoint id = ground arith

apply-status_example :
    Local.status (Local.apply some_tracks (Local.confirms 2)) 2 ≡ Local.accepted (a_track 2)
unfolding Local.status lookup
apply-status_example = Local.apply-status some_tracks some_tracks-IsDisjoint (Local.confirms 2) 2

apply-IsDisjoint_example : Local.IsDisjoint (Local.apply some_tracks (Local.deletes 0))
apply-IsDisjoint_example =
    Local.apply-IsDisjoint some_tracks some_tracks-IsDisjoint (Local.deletes 0)

abbrev a_remote : ℕ → RemoteTrack
a_remote id = record { address = 100 + id; request_id = id }

abbrev remote_tracks : RemoteTrackMap
remote_tracks = record {
  next_track_alias = 0;
  pending = (2, a_remote 2) ∷ [];
  opened = (0, a_remote 0) ∷ [];
  track_alias_to_request_id = (7, 0) ∷ [];
}

remote_tracks-IsDisjoint : Remote.IsDisjoint remote_tracks
unfolding Remote.IsDisjoint lookup
remote_tracks-IsDisjoint id = ground arith

find_by_request_id-apply_example :
    find_by_request_id (Remote.apply remote_tracks (Remote.rejects 2)) 2 ≡ none
unfolding lookup
find_by_request_id-apply_example =
    Remote.find_by_request_id-apply remote_tracks remote_tracks-IsDisjoint (Remote.rejects 2) 2

remote-IsDisjoint_example : Remote.IsDisjoint (Remote.apply remote_tracks (Remote.confirms 2))
remote-IsDisjoint_example =
    Remote.remote-IsDisjoint remote_tracks remote_tracks-IsDisjoint (Remote.confirms 2)

find_by_track_alias-apply_example :
    find_by_track_alias (Remote.apply remote_tracks (Remote.sets_alias 2 7)) 7 ≡ some (a_remote 0)
unfolding lookup find_by_request_id
find_by_track_alias-apply_example =
    Remote.find_by_track_alias-apply remote_tracks remote_tracks-IsDisjoint (Remote.sets_alias 2 7)
      7 0 refl

handshake_agreement_example :
    let c = starting quic takes_all true (47 ∷ 120 ∷ []) 64 in
    let sending = send_client_setup quic takes_all c in
    ((sending ≡ (c, some write_failed)) × (c.sent ≡ []) × (c.panicked ≡ false))
    ⊎ ((sending ≡ (record c { sent = client_setup (client_setup_of c) ∷ [] }, none))
        × AnswerAgrees quic takes_all sending.0 true (47 ∷ 120 ∷ []) 64 32
        × (on_server_setup quic takes_all sending.0 (server_setup_of current_version) ≡ (
          record sending.0 {
            version = current_version;
            request_ids = record c.request_ids { max = 100 };
            handshake_done = true;
          },
          none,
        )))
handshake_agreement_example =
    handshake_agreement quic takes_all takes_all true (47 ∷ 120 ∷ []) 64 32 (omega arith)
      (omega arith) (omega arith)

receive_before_setup-EndsSetup_example :
    EndsSetup client (server_setup (server_setup_of 7)) (
      receive_before_setup quic takes_all
        (start client false 64)
        (server_setup (server_setup_of 7)))
unfolding start
receive_before_setup-EndsSetup_example =
    receive_before_setup-EndsSetup quic takes_all (start client false 64)
      (server_setup (server_setup_of 7)) refl

abbrev a_session : Session
a_session = record (start server true 16) { local_tracks = some_tracks }

a_session-IsBounded : IsBounded some_tracks 16
unfolding IsBounded lookup
a_session-IsBounded id lt found = ground arith

add_local_track-IsBounded_example :
    IsBounded
      (add_local_track quic takes_all a_session (a_track 10)).0.local_tracks
      (add_local_track quic takes_all a_session (a_track 10)).0.local_max_request_id
unfolding start
add_local_track-IsBounded_example =
    add_local_track-IsBounded quic takes_all a_session (a_track 10) (omega arith)
      a_session-IsBounded

add_local_track_lem_example :
    let r = add_local_track quic takes_all a_session (a_track 10) in
    (16 ≤ 10 → r ≡ (a_session, some max_request_id_violated))
    × (10 < 16
        → 16 < 2 ^ 61
        → (r.0.panicked ≡ false)
          × (10 < r.0.local_max_request_id / 2)
          × (16 ≤ r.0.local_max_request_id)
          × ((old : LocalTrack)
              → (lookup 10 some_tracks.pending ≡ some old)
                ⊎ (lookup 10 some_tracks.opened ≡ some old)
              → (r.1 ≡ some duplicate_request_id) × (r.0.local_tracks ≡ some_tracks))
          × (lookup 10 some_tracks.pending ≡ none
              → lookup 10 some_tracks.opened ≡ none
              → (r.1 ≡ none) × (lookup 10 r.0.local_tracks.pending ≡ some (a_track 10))))
    × (2 ^ 61 ≤ 16 → 8 ≤ 10 → 10 < 16 → r.0.panicked ≡ true)
unfolding start
add_local_track_lem_example =
    add_local_track_lem quic takes_all a_session (a_track 10) (omega arith)

-- At 2^61 the message for the new maximum makes the program panic.
a_large_session-panics :
    (add_local_track quic takes_all
      (record a_session { local_max_request_id = 2 ^ 61 })
      (a_track (2 ^ 60))).0.panicked
    ≡ true
a_large_session-panics =
    (add_local_track_lem quic takes_all (record a_session { local_max_request_id = 2 ^ 61 })
        (a_track (2 ^ 60)) (omega arith)).2
      (omega arith) (omega arith) (omega arith)
