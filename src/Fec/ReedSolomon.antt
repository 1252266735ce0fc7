-- ===== src/Fec/ReedSolomon.antt =====
-- fec/reed-solomon/reed-solomon.go: blocks of data packets with parity by the package
-- klauspost/reedsolomon, which is a parameter. The numbers of a configuration are not negative, and
-- block numbers do not wrap. The locks make each call atomic. A payload is not changed by its owner
-- after the call, since the code keeps the slice.
pub mod Transfer
use moqtransport_fec.Base.{
  ℕ, ◌+◌, List, [], ◌∷◌, ◌++◌, Option, none, some, ltb, length, take, drop, Result, ok, panic,
  if◌then◌else◌,
}

-- What the code uses of a `reedsolomon.Encoder`. A nil slice is the empty list: Split returns it with
-- an error. Encode and Reconstruct give the shards as they are after the call; their errors are not
-- looked at. Verify changes nothing and is left out.
pub record Codec : Type 0 where
  pub split : List ℕ → List (List ℕ)
  pub encode : List (List ℕ) → List (List ℕ)
  pub reconstruct : List (List ℕ) → List (List ℕ)

pub record Config : Type 0 where
  pub data_shards : ℕ
  pub parity_shards : ℕ

pub record Encoder : Type 0 where
  pub rs_encoder : Codec
  pub config : Config
  pub block_id : ℕ
  pub seq_id : ℕ
  pub buffer : List (List ℕ)

pub record Decoder : Type 0 where
  pub rs_decoder : Codec
  pub config : Config
  pub block_id : ℕ
  pub seq_id : ℕ
  pub buffer : List (List ℕ)

-- Data packets and parity packets.
abbrev pub Packets : Type 0
Packets = List (List ℕ) × List (List ℕ)

-- bytes.Join with no separator
unfoldable pub join : List (List ℕ) → List ℕ
join [] = []
join (p ∷ ps) = p ++ join ps

-- shards[:n] and shards[n:]; the first panics beyond the end, as the slices here have no more room
-- than they need where they are shorter.
abbrev pub cut : ℕ → List (List ℕ) → Result Packets
cut n shards = if ltb (length shards) n then panic else ok (take n shards, drop n shards)

-- `new` is reedsolomon.New, which fails on numbers that it does not support.
unfoldable pub new_encoder : (ℕ → ℕ → Option Codec) → Config → Option Encoder
new_encoder new config = elim (new config.data_shards config.parity_shards) [
  | none ↦ none
  | some enc ↦
      some (record { rs_encoder = enc; config = config; block_id = 0; seq_id = 0; buffer = [] })
]

unfoldable pub new_decoder : (ℕ → ℕ → Option Codec) → Config → Option Decoder
new_decoder new config = elim (new config.data_shards config.parity_shards) [
  | none ↦ none
  | some dec ↦
      some (record { rs_decoder = dec; config = config; block_id = 0; seq_id = 0; buffer = [] })
]

unfoldable pub flush_encoder : Encoder → Encoder
flush_encoder e = record e { buffer = []; block_id = e.block_id + 1; seq_id = 0 }

unfoldable pub try_encode : Encoder → List ℕ → Encoder × Result Packets
unfolding flush_encoder
try_encode e payload =
    let taken = record e { buffer = e.buffer ++ (payload ∷ []); seq_id = e.seq_id + 1 } in
    if ltb taken.seq_id taken.config.data_shards then (taken, ok ([], [])) else (
      flush_encoder taken,
      cut taken.config.data_shards
          (taken.rs_encoder.encode (taken.rs_encoder.split (join taken.buffer))),
    )

unfoldable pub flush_decoder : Decoder → Decoder
flush_decoder d = record d { buffer = []; block_id = d.block_id + 1; seq_id = 0 }

unfoldable pub try_decode : Decoder → List ℕ → Decoder × Result Packets
unfolding flush_decoder
try_decode d payload =
    let taken = record d { buffer = d.buffer ++ (payload ∷ []); seq_id = d.seq_id + 1 } in
    if ltb taken.seq_id (taken.config.data_shards + taken.config.parity_shards)
    then (taken, ok ([], []))
    else (
      flush_decoder taken,
      cut taken.config.data_shards (taken.rs_decoder.reconstruct taken.buffer),
    )
