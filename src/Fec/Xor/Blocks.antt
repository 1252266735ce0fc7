-- ===== src/Fec/Xor/Blocks.antt =====
-- The encoder of fec/xor/xor.go over a block, and CleanupOldBlocks of its decoder.
use moqtransport_fec.Base.{
  ℕ, suc, ◌+◌, ◌<◌, ◌≡◌, ap, ◌∙◌, arith, List, [], ◌∷◌, ◌++◌, none, length, length-append,
  append_assoc, append-nil, ltb, if◌then◌else◌,
}
use moqtransport_fec.Base.Assoc.{lookup}
use moqtransport_fec.Fec.Xor.{
  Encoder, try_encode, generate_parity, Block, Decoder, keep_recent, cleanup_old_blocks,
}

-- Packets that are handed to the encoder one after the other.
abbrev pub feed : Encoder → List (List ℕ) → Encoder
feed e [] = e
feed e (p ∷ ps) = feed (try_encode e p).0 ps

abbrev pub holding : Encoder → List (List ℕ) → Encoder
holding e ps = record e { buffer = ps; seq_id = length ps }

pub try_encode_waits :
    (e : Encoder) (ps : List (List ℕ)) (p : List ℕ)
    → suc (length ps) < e.block_size
    → try_encode (holding e ps) p ≡ (holding e (ps ++ (p ∷ [])), none, e.block_id, suc (length ps))
unfolding try_encode
try_encode_waits e ps p h = ground (arith, length-append ps (p ∷ []))

feed_lem :
    (e : Encoder) (ps qs : List (List ℕ))
    → length ps + length qs < e.block_size
    → feed (holding e ps) qs ≡ holding e (ps ++ qs)
feed_lem e ps [] h = rw append-nil
feed_lem e ps (q ∷ qs) h = rw (try_encode_waits e ps q (omega arith)) (
    feed_lem e (ps ++ (q ∷ [])) qs (omega (arith, length-append ps (q ∷ [])))
    ∙ ap (holding e) (append_assoc ps (q ∷ []) qs))

-- An encoder at the start of a block that is handed as many packets as the block size says returns,
-- with the last of them, the parity of them all, under the number of its block and the sequence
-- number of that packet; it is then at the start of the next block.
pub try_encode_block :
    (e : Encoder) (ps : List (List ℕ)) (p : List ℕ)
    → suc (length ps) ≡ e.block_size
    → try_encode (feed (holding e []) ps) p ≡ (
      holding (record e { block_id = e.block_id + 1 }) [],
      generate_parity (ps ++ (p ∷ [])),
      e.block_id,
      e.block_size,
    )
unfolding try_encode
try_encode_block e ps p h = rw (feed_lem e [] ps (omega arith)) (ground arith)

keep_recent_lem :
    (current id : ℕ) (m : List (ℕ × Block))
    → lookup id (keep_recent current m) ≡ (if ltb (id + 10) current then none else lookup id m)
unfolding keep_recent lookup
keep_recent_lem current id [] = ground arith
keep_recent_lem current id ((j, b) ∷ m) = ground (arith, keep_recent_lem current id m)

-- `CleanupOldBlocks` forgets exactly the blocks that lie more than ten behind the current one.
pub cleanup_old_blocks_lem :
    (d : Decoder) (current id : ℕ)
    → lookup id (cleanup_old_blocks d current).blocks
      ≡ (if ltb (id + 10) current then none else lookup id d.blocks)
unfolding cleanup_old_blocks
cleanup_old_blocks_lem d current id = keep_recent_lem current id d.blocks
