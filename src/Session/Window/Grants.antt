-- ===== src/Session/Window/Grants.antt =====
-- The peer's request IDs and the maximum that it was given, in addLocalTrack of session.go.
use moqtransport_fec.Base.{
  ℕ, ◌*◌, ◌/◌, ◌%◌, ◌^◌, ◌≤◌, ◌<◌, ◌≡◌, refl, arith, Bool, true, false, List, none, some, leb,
  Bool-cases, inl, inr, ◌⊎◌,
}
use moqtransport_fec.Base.Assoc.{lookup, lookup-insert}
use moqtransport_fec.Wire.Env.{Env}
use moqtransport_fec.Wire.Message.{ControlMessage}
use moqtransport_fec.Session.Errors.{max_request_id_violated, duplicate_request_id}
use moqtransport_fec.Session.Ids.{u64_mod}
use moqtransport_fec.Session.LocalTracks.{LocalTrack, LocalTrackMap, add_pending}
use moqtransport_fec.Session.State.{Session, write, write_cases, write_returns}
use moqtransport_fec.Wire.Encodable.{can_compile, numbers, all_have_encoding}
use moqtransport_fec.Session.Window.{raise_max, add_local_track}

-- Every track that is pending or open has an ID below the maximum.
unfoldable pub IsBounded : LocalTrackMap → ℕ → Type 0
IsBounded m most =
    (id : ℕ) (lt : LocalTrack)
    → (lookup id m.pending ≡ some lt) ⊎ (lookup id m.opened ≡ some lt)
    → id < most

add_pending-IsBounded :
    (m : LocalTrackMap) (lt : LocalTrack) (low most : ℕ)
    → IsBounded m low
    → low ≤ most
    → lt.request_id < most
    → IsBounded (add_pending m lt).0 most
unfolding IsBounded add_pending
add_pending-IsBounded m lt low most bounded grows below id found it =
    ground (arith, lookup-insert lt.request_id id lt m.pending, bounded id found)

add_pending_lem :
    (m : LocalTrackMap) (lt : LocalTrack)
    → ((old : LocalTrack)
        → (lookup lt.request_id m.pending ≡ some old) ⊎ (lookup lt.request_id m.opened ≡ some old)
        → add_pending m lt ≡ (m, false))
      × (lookup lt.request_id m.pending ≡ none
          → lookup lt.request_id m.opened ≡ none
          → ((add_pending m lt).1 ≡ true)
            × (lookup lt.request_id (add_pending m lt).0.pending ≡ some lt))
unfolding add_pending
add_pending_lem m lt = (
  λ old found. ground arith,
  λ p o. ground (arith, lookup-insert lt.request_id lt.request_id lt m.pending),
)

module _ (env : Env) (accepts : List ControlMessage → ControlMessage → Bool) where
  -- A message that is written, or not, changes nothing but what was sent.
  write_keeps :
      (s : Session) (msg : ControlMessage)
      → ((write env accepts s msg).0.local_max_request_id ≡ s.local_max_request_id)
        × ((write env accepts s msg).0.local_tracks ≡ s.local_tracks)
  write_keeps s msg = elim (write_cases env accepts s msg) [
    | inl e ↦ rw e (refl, refl)
    | inr (inl e) ↦ rw e (refl, refl)
    | inr (inr e) ↦ rw e (refl, refl)
  ]

  raise_max_lem :
      (s : Session) (id : ℕ)
      → id < s.local_max_request_id
      → s.local_max_request_id < 2 ^ 63
      → (id < (raise_max env accepts s id).local_max_request_id / 2)
        × (s.local_max_request_id ≤ (raise_max env accepts s id).local_max_request_id)
        × ((raise_max env accepts s id).local_tracks ≡ s.local_tracks)
  unfolding raise_max
  raise_max_lem s id h k =
      let new_max = 2 * s.local_max_request_id % u64_mod in
      ground (
        arith,
        write_keeps (record s { local_max_request_id = new_max })
            (ControlMessage.max_request_id (record { request_id = new_max })),
      )

  -- While the maximum is below 2^61, `addLocalTrack` keeps it above the ID of every track.
  pub add_local_track-IsBounded :
      (s : Session) (lt : LocalTrack)
      → s.local_max_request_id < 2 ^ 61
      → IsBounded s.local_tracks s.local_max_request_id
      → IsBounded
          (add_local_track env accepts s lt).0.local_tracks
          (add_local_track env accepts s lt).0.local_max_request_id
  unfolding add_local_track
  add_local_track-IsBounded s lt h bounded =
      elim (Bool-cases (leb s.local_max_request_id lt.request_id)) [
        | inl over ↦ rw over bounded
        | inr below ↦
            let (half, grows, same) = raise_max_lem s lt.request_id (ground arith) (omega arith) in
            rw (below, same)
              (add_pending-IsBounded s.local_tracks lt s.local_max_request_id _ bounded grows
                (omega arith))
      ]

  -- Below 2^61 the new maximum has an encoding; from there on, the message cannot be written.
  raise_max_panics :
      (s : Session) (id : ℕ)
      → (s.local_max_request_id < 2 ^ 61 → (raise_max env accepts s id).panicked ≡ s.panicked)
        × (2 ^ 61 ≤ s.local_max_request_id
            → s.local_max_request_id < 2 ^ 63
            → s.local_max_request_id / 2 ≤ id
            → (raise_max env accepts s id).panicked ≡ true)
  unfolding raise_max write can_compile numbers all_have_encoding
  raise_max_panics s id =
      let new_max = 2 * s.local_max_request_id % u64_mod in
      let raised = record s { local_max_request_id = new_max } in
      let msg = ControlMessage.max_request_id (record { request_id = new_max }) in
      (
        λ small. elim (Bool-cases (leb (s.local_max_request_id / 2) id)) [
          | inr e ↦ rw e refl
          | inl e ↦ elim (write_returns env accepts raised msg (ground arith)) [
            | inl w ↦ rw (e, w) refl
            | inr w ↦ rw (e, w) refl
          ]
        ],
        λ large most half. ground arith,
      )

  -- With a maximum below 2^61, `addLocalTrack` never panics. It refuses an ID that is not below the
  -- maximum, and then changes nothing. Below it, the maximum is not lowered and ends up above twice the
  -- ID; an ID with a track that is pending or open is refused, and the tracks stay as they are; for any
  -- other ID the track is pending afterwards. With a maximum from 2^61 on, and below 2^63, an ID in the
  -- upper half of it makes the program panic: twice the maximum has no encoding.
  pub add_local_track_lem :
      (s : Session) (lt : LocalTrack)
      → s.local_max_request_id < 2 ^ 63
      → (s.local_max_request_id ≤ lt.request_id
          → add_local_track env accepts s lt ≡ (s, some max_request_id_violated))
        × (lt.request_id < s.local_max_request_id
            → s.local_max_request_id < 2 ^ 61
            → ((add_local_track env accepts s lt).0.panicked ≡ s.panicked)
              × (lt.request_id < (add_local_track env accepts s lt).0.local_max_request_id / 2)
              × (s.local_max_request_id ≤ (add_local_track env accepts s lt).0.local_max_request_id)
              × ((old : LocalTrack)
                  → (lookup lt.request_id s.local_tracks.pending ≡ some old)
                    ⊎ (lookup lt.request_id s.local_tracks.opened ≡ some old)
                  → ((add_local_track env accepts s lt).1 ≡ some duplicate_request_id)
                    × ((add_local_track env accepts s lt).0.local_tracks ≡ s.local_tracks))
              × (lookup lt.request_id s.local_tracks.pending ≡ none
                  → lookup lt.request_id s.local_tracks.opened ≡ none
                  → ((add_local_track env accepts s lt).1 ≡ none)
                    × (lookup lt.request_id
                          (add_local_track env accepts s lt).0.local_tracks.pending
                        ≡ some lt)))
        × (2 ^ 61 ≤ s.local_max_request_id
            → s.local_max_request_id / 2 ≤ lt.request_id
            → lt.request_id < s.local_max_request_id
            → (add_local_track env accepts s lt).0.panicked ≡ true)
  unfolding add_local_track
  add_local_track_lem s lt h = (
    λ over. ground arith,
    λ below small.
        let (half, grows, same) = raise_max_lem s lt.request_id below h in
        let (calm, _) = raise_max_panics s lt.request_id in
        let free : leb s.local_max_request_id lt.request_id ≡ false = ground arith in
        let (used, new) = add_pending_lem s.local_tracks lt in
        rw (free, same)
          (
            calm small,
            half,
            grows,
            λ old found. (rw (used old found) refl, rw (used old found) refl),
            λ p o. (rw (new p o).0 refl, (new p o).1),
          ),
    λ large half below.
        let (_, panics) = raise_max_panics s lt.request_id in
        let free : leb s.local_max_request_id lt.request_id ≡ false = ground arith in
        rw free (panics large h half),
  )
