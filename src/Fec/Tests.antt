-- ===== src/Fec/Tests.antt =====
-- The theorems on the erasure code at a block of three packets of different lengths.
use mathlib.Core.List.{Perm, perm_append_comm}
use moqtransport_fec.Base.{
  ℕ, ◌≤◌, ◌≡◌, refl, arith, true, List, [], ◌∷◌, ◌++◌, length, none, some, All,
}
use moqtransport_fec.Base.Assoc.{lookup}
use moqtransport_fec.Fec.Xor.{
  flush_encoder, new_encoder, new_decoder, max_len, xor_into, xor_all, generate_parity, try_encode,
  try_decode, new_block, cleanup_old_blocks,
}
use moqtransport_fec.Fec.Xor.Parity.{xor_all-perm, generate_parity_covers, padded}
use moqtransport_fec.Fec.Xor.Blocks.{holding, feed, cleanup_old_blocks_lem, try_encode_block}
use moqtransport_fec.Fec.Xor.Transfer.{sent, try_decode-try_encode}
use moqtransport_fec.Fec.Xor.Recovery.{receive, try_decode-generate_parity}

abbrev first : List ℕ
first = 1 ∷ 2 ∷ 3 ∷ []

abbrev second : List ℕ
second = 255 ∷ []

abbrev third : List ℕ
third = 16 ∷ 32 ∷ []

abbrev packets : List (List ℕ)
packets = first ∷ second ∷ third ∷ []

abbrev parity : List ℕ
parity = 238 ∷ 34 ∷ 3 ∷ []

parity-made : generate_parity packets ≡ some parity
unfolding generate_parity max_len xor_all xor_into
parity-made = refl

rotated : Perm packets (second ∷ third ∷ first ∷ [])
rotated = perm_append_comm (first ∷ []) (second ∷ third ∷ [])

xor_all-perm_example :
    xor_all (0 ∷ 0 ∷ []) packets ≡ xor_all (0 ∷ 0 ∷ []) (second ∷ third ∷ first ∷ [])
xor_all-perm_example = xor_all-perm packets (second ∷ third ∷ first ∷ []) (0 ∷ 0 ∷ []) rotated

generate_parity_covers_example :
    (length parity ≡ max_len packets 0) × All (λ p. length p ≤ length parity) packets
generate_parity_covers_example = generate_parity_covers packets parity parity-made

try_encode_block_example :
    try_encode (feed (new_encoder 3) (first ∷ second ∷ [])) third
    ≡ (record (new_encoder 3) { block_id = 1 }, some parity, 0, 3)
unfolding new_encoder generate_parity max_len xor_all xor_into
try_encode_block_example = try_encode_block (new_encoder 3) (first ∷ second ∷ []) third refl

-- The second packet is lost, and the third comes before the first; the numbers are the encoder's.
abbrev arrived : List (ℕ × List ℕ)
arrived = (3, third) ∷ (1, first) ∷ []

try_decode-generate_parity_example :
    let after = try_decode (receive (new_decoder 3) 7 arrived) 7 3 parity true in
    (after.1 ≡ some (255 ∷ 0 ∷ 0 ∷ [])) × (after.2 ≡ true) × (lookup 7 after.0.blocks ≡ none)
unfolding new_decoder lookup max_len padded
try_decode-generate_parity_example =
    try_decode-generate_parity (new_decoder 3) 7 3 0 packets second parity arrived refl refl rotated
      (refl, (refl, tt)) (omega arith) refl parity-made

cleanup_old_blocks_lem_example :
    lookup 4
      (cleanup_old_blocks (record { block_size = 3; blocks = (4, new_block 3) ∷ [] }) 20).blocks
    ≡ none
cleanup_old_blocks_lem_example =
    cleanup_old_blocks_lem (record { block_size = 3; blocks = (4, new_block 3) ∷ [] }) 20 4

block_sent :
    sent (holding (new_encoder 3) []) ((first ∷ second ∷ []) ++ (third ∷ []))
    ≡ (1, first) ∷ (2, second) ∷ (3, third) ∷ []
unfolding sent try_encode flush_encoder new_encoder
block_sent = refl

try_decode-try_encode_example :
    let encoded = try_encode (feed (holding (new_encoder 3) []) (first ∷ second ∷ [])) third in
    (parity : List ℕ) × (encoded.1 ≡ some parity)
    × (let after =
          try_decode
            (receive (new_decoder 3) encoded.2 ((1, first) ∷ (3, third) ∷ []))
            encoded.2
            encoded.3
            parity
            true in
        (after.1 ≡ some (padded (max_len packets 0) second))
        × (after.2 ≡ true)
        × (lookup encoded.2 after.0.blocks ≡ none))
unfolding new_encoder new_decoder lookup
try_decode-try_encode_example =
    try_decode-try_encode (new_encoder 3) (new_decoder 3) (first ∷ second ∷ []) third
      ((1, first) ∷ []) ((3, third) ∷ []) 2 second refl refl refl block_sent
