-- ===== src/Fec/Xor.antt =====
-- fec/xor/xor.go: one parity packet for each block of data packets. Block and sequence numbers are
-- natural numbers that do not wrap, and the block size is not negative. The locks make each call
-- atomic. A payload is not changed by its owner after the call, since the code keeps the slice.
pub mod Parity
pub mod Blocks
pub mod Recovery
pub mod Transfer
use Prim.Native.Nat.{bit_xor}
use moqtransport_fec.Base.{
  ℕ, zero, suc, ◌+◌, Bool, true, false, ◌&&◌, List, [], ◌∷◌, ◌++◌, Option, none, some, ltb, ◌==◌,
  length, replicate, if◌then◌else◌,
}
use moqtransport_fec.Base.Assoc.{lookup, insert, delete}

pub record Encoder : Type 0 where
  pub block_size : ℕ
  pub block_id : ℕ
  pub seq_id : ℕ
  pub buffer : List (List ℕ)

unfoldable pub new_encoder : ℕ → Encoder
new_encoder size = record { block_size = size; block_id = 0; seq_id = 0; buffer = [] }

unfoldable pub max_len : List (List ℕ) → ℕ → ℕ
max_len [] m = m
max_len (p ∷ ps) m = max_len ps (if ltb m (length p) then length p else m)

-- `acc[i] ^= packet[i]` for each index of both. In `generateParity` no packet is longer than the
-- parity, and in `recoverMissingPacket` the loop stops at the shorter one.
unfoldable pub xor_into : List ℕ → List ℕ → List ℕ
xor_into [] packet = []
xor_into (a ∷ acc) [] = a ∷ acc
xor_into (a ∷ acc) (b ∷ packet) = bit_xor a b ∷ xor_into acc packet

unfoldable pub xor_all : List ℕ → List (List ℕ) → List ℕ
xor_all acc [] = acc
xor_all acc (p ∷ ps) = xor_all (xor_into acc p) ps

unfoldable pub generate_parity : List (List ℕ) → Option (List ℕ)
generate_parity [] = none
generate_parity (p ∷ ps) = some (xor_all (replicate (max_len (p ∷ ps) 0) 0) (p ∷ ps))

unfoldable pub flush_encoder : Encoder → Encoder
flush_encoder e = record e { buffer = []; block_id = e.block_id + 1; seq_id = 0 }

-- The parity packet, the block and the sequence number; `none` is a nil slice.
unfoldable pub try_encode : Encoder → List ℕ → Encoder × Option (List ℕ) × ℕ × ℕ
unfolding flush_encoder
try_encode e payload =
    let taken = record e { buffer = e.buffer ++ (payload ∷ []); seq_id = e.seq_id + 1 } in
    if ltb taken.seq_id taken.block_size
    then (taken, none, taken.block_id, taken.seq_id)
    else (flush_encoder taken, generate_parity taken.buffer, taken.block_id, taken.seq_id)

pub record Block : Type 0 where
  pub data_packets : List (ℕ × List ℕ)
  pub parity_packet : List ℕ
  pub received_data : ℕ
  pub has_parity : Bool
  pub size : ℕ

pub record Decoder : Type 0 where
  pub block_size : ℕ
  pub blocks : List (ℕ × Block)

unfoldable pub new_decoder : ℕ → Decoder
new_decoder size = record { block_size = size; blocks = [] }

unfoldable pub new_block : ℕ → Block
new_block size = record {
  data_packets = [];
  parity_packet = [];
  received_data = 0;
  has_parity = false;
  size = size;
}

-- The block that `d.blocks[blockID]` holds, or a new one.
unfoldable pub find_block : Decoder → ℕ → Block
find_block d id = elim (lookup id d.blocks) [ none ↦ new_block d.block_size | some b ↦ b ]

unfoldable pub store : Block → ℕ → List ℕ → Bool → Block
store b seq payload true = record b { parity_packet = payload; has_parity = true }
store b seq payload false = elim (lookup seq b.data_packets) [
  | none ↦ record b {
    data_packets = insert seq payload b.data_packets;
    received_data = b.received_data + 1;
  }
  | some _ ↦ b
]

-- Whether a sequence number from `i` on, `n` of them, is missing.
unfoldable pub has_missing : ℕ → ℕ → List (ℕ × List ℕ) → Bool
has_missing zero i packets = false
has_missing (suc n) i packets =
    let rest = has_missing n (i + 1) packets in
    elim (lookup i packets) [ none ↦ true | some _ ↦ rest ]

-- The packets of a map, in the order in which the model keeps them.
abbrev pub packets_of : List (ℕ × List ℕ) → List (List ℕ)
packets_of [] = []
packets_of ((seq, p) ∷ m) = p ∷ packets_of m

unfoldable pub recover_missing_packet : Block → Option (List ℕ)
recover_missing_packet b =
    if b.has_parity && (b.received_data + 1 == b.size && has_missing b.size 0 b.data_packets)
    then some (xor_all b.parity_packet (packets_of b.data_packets))
    else none

-- What `TryDecode` does when the block is neither complete nor recovered.
abbrev pass_on : List ℕ → Bool → Option (List ℕ)
pass_on payload is_parity = if is_parity then none else some payload

unfoldable pub try_decode : Decoder → ℕ → ℕ → List ℕ → Bool → Decoder × Option (List ℕ) × Bool
unfolding find_block store recover_missing_packet
try_decode d id seq payload is_parity =
    let b = store (find_block d id) seq payload is_parity in
    let kept = record d { blocks = insert id b d.blocks } in
    let dropped = record d { blocks = delete id (insert id b d.blocks) } in
    if b.received_data == b.size
    then (dropped, some payload, false)
    else (if b.has_parity && b.received_data + 1 == b.size
        then elim (recover_missing_packet b) [
          | some recovered ↦ (dropped, some recovered, true)
          | none ↦ (kept, pass_on payload is_parity, false)
        ]
        else (kept, pass_on payload is_parity, false))

unfoldable pub keep_recent : ℕ → List (ℕ × Block) → List (ℕ × Block)
keep_recent current [] = []
keep_recent current ((id, b) ∷ m) =
    let rest = keep_recent current m in if ltb (id + 10) current then rest else (id, b) ∷ rest

unfoldable pub cleanup_old_blocks : Decoder → ℕ → Decoder
cleanup_old_blocks d current = record d { blocks = keep_recent current d.blocks }
