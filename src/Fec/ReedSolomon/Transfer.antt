-- ===== src/Fec/ReedSolomon/Transfer.antt =====
-- Encoder and decoder of fec/reed-solomon/reed-solomon.go together, over a block.
use moqtransport_fec.Base.{
  ℕ, zero, suc, ◌+◌, ◌≤◌, ◌<◌, ◌≡◌, refl, sym, ap, ◌∙◌, arith, List, [], ◌∷◌, ◌++◌, le→ltb, length,
  length-append, append_assoc, take, drop, replicate, Result, ok,
}
use moqtransport_fec.Fec.ReedSolomon.{
  Codec, Config, Encoder, Decoder, Packets, join, cut, try_encode, try_decode, flush_encoder,
  flush_decoder,
}

-- The shards that arrive, in their places: `n` of them are missing, which the package takes an empty
-- one for.
pub data Erased : ℕ → List (List ℕ) → List (List ℕ) → Type 0 where
  done : Erased 0 [] []
  kept : {n : ℕ} {s : List ℕ} {ss rs : List (List ℕ)} → Erased n ss rs → Erased n (s ∷ ss) (s ∷ rs)
  lost :
      {n : ℕ} {s : List ℕ} {ss rs : List (List ℕ)}
      → Erased n ss rs
      → Erased (suc n) (s ∷ ss) ([] ∷ rs)

-- What the package documents: Split makes equally many shards of any data that is not empty, and
-- pads the data at its end; Encode leaves the number of shards and the data shards as they are; and
-- Reconstruct fills in missing shards if no more are missing than there are parity shards.
pub record IsCodec (c : Codec) (config : Config) : Type 0 where
  pub length-split :
      (bytes : List ℕ)
      → 1 ≤ length bytes
      → length (c.split bytes) ≡ config.data_shards + config.parity_shards
  pub join-split :
      (bytes : List ℕ)
      → 1 ≤ length bytes
      → (pad : List ℕ) × (join (take config.data_shards (c.split bytes)) ≡ bytes ++ pad)
  pub length-encode : (shards : List (List ℕ)) → length (c.encode shards) ≡ length shards
  pub take-encode :
      (shards : List (List ℕ))
      → take config.data_shards (c.encode shards) ≡ take config.data_shards shards
  pub reconstruct-erased :
      (bytes : List ℕ) (n : ℕ) (received : List (List ℕ))
      → 1 ≤ length bytes
      → Erased n (c.encode (c.split bytes)) received
      → n ≤ config.parity_shards
      → c.reconstruct received ≡ c.encode (c.split bytes)

-- Packets that are handed over one after the other, and what the calls return.
unfoldable pub encode_all : Encoder → List (List ℕ) → Encoder × List (Result Packets)
encode_all e [] = (e, [])
encode_all e (p ∷ ps) =
    let (e', r) = try_encode e p in let (e'', rs) = encode_all e' ps in (e'', r ∷ rs)

unfoldable pub decode_all : Decoder → List (List ℕ) → Decoder × List (Result Packets)
decode_all d [] = (d, [])
decode_all d (p ∷ ps) =
    let (d', r) = try_decode d p in let (d'', rs) = decode_all d' ps in (d'', r ∷ rs)

-- What the calls of a block return: nothing, up to the last one.
abbrev pub at_last : ℕ → Result Packets → List (Result Packets)
at_last n r = replicate n (ok ([], [])) ++ (r ∷ [])

abbrev holding : Encoder → List (List ℕ) → Encoder
holding e b = record e { buffer = b; seq_id = length b }

abbrev keeping : Decoder → List (List ℕ) → Decoder
keeping d b = record d { buffer = b; seq_id = length b }

cut_lem :
    (n : ℕ) (shards : List (List ℕ))
    → n ≤ length shards
    → cut n shards ≡ ok (take n shards, drop n shards)
cut_lem n shards h = rw (le→ltb (length shards) n h) refl

try_encode-waits :
    (e : Encoder) (b : List (List ℕ)) (q : List ℕ)
    → suc (length b) < e.config.data_shards
    → try_encode (holding e b) q ≡ (holding e (b ++ (q ∷ [])), ok ([], []))
unfolding try_encode
try_encode-waits e b q h = ground (arith, length-append b (q ∷ []))

try_encode-last :
    (e : Encoder) (b : List (List ℕ)) (q : List ℕ)
    → suc (length b) ≡ e.config.data_shards
    → try_encode (holding e b) q ≡ (
      flush_encoder e,
      cut e.config.data_shards (e.rs_encoder.encode (e.rs_encoder.split (join (b ++ (q ∷ []))))),
    )
unfolding try_encode flush_encoder
try_encode-last e b q h = rw (le→ltb (length b + 1) e.config.data_shards (omega arith)) refl

encode_all_lem :
    (e : Encoder) (b ps : List (List ℕ)) (p : List ℕ)
    → suc (length b + length ps) ≡ e.config.data_shards
    → encode_all (holding e b) (ps ++ (p ∷ [])) ≡ (
      flush_encoder e,
      at_last (length ps) (
          cut e.config.data_shards
            (e.rs_encoder.encode (e.rs_encoder.split (join (b ++ (ps ++ (p ∷ []))))))),
    )
unfolding encode_all
encode_all_lem e b [] p h = rw (try_encode-last e b p (omega arith)) refl
encode_all_lem e b (q ∷ ps) p h = rw (try_encode-waits e b q (omega arith)) (
    rw
      (
        encode_all_lem e (b ++ (q ∷ [])) ps p (omega (arith, length-append b (q ∷ []))),
        append_assoc b (q ∷ []) (ps ++ (p ∷ [])),
      )
      refl)

try_decode-waits :
    (d : Decoder) (b : List (List ℕ)) (q : List ℕ)
    → suc (length b) < d.config.data_shards + d.config.parity_shards
    → try_decode (keeping d b) q ≡ (keeping d (b ++ (q ∷ [])), ok ([], []))
unfolding try_decode
try_decode-waits d b q h = ground (arith, length-append b (q ∷ []))

try_decode-last :
    (d : Decoder) (b : List (List ℕ)) (q : List ℕ)
    → suc (length b) ≡ d.config.data_shards + d.config.parity_shards
    → try_decode (keeping d b) q
      ≡ (flush_decoder d, cut d.config.data_shards (d.rs_decoder.reconstruct (b ++ (q ∷ []))))
unfolding try_decode flush_decoder
try_decode-last d b q h =
    rw (le→ltb (length b + 1) (d.config.data_shards + d.config.parity_shards) (omega arith)) refl

decode_all_lem :
    (d : Decoder) (b rs : List (List ℕ)) (r : List ℕ)
    → suc (length b + length rs) ≡ d.config.data_shards + d.config.parity_shards
    → decode_all (keeping d b) (rs ++ (r ∷ [])) ≡ (
      flush_decoder d,
      at_last
          (length rs)
          (cut d.config.data_shards (d.rs_decoder.reconstruct (b ++ (rs ++ (r ∷ []))))),
    )
unfolding decode_all
decode_all_lem d b [] r h = rw (try_decode-last d b r (omega arith)) refl
decode_all_lem d b (q ∷ rs) r h = rw (try_decode-waits d b q (omega arith)) (
    rw
      (
        decode_all_lem d (b ++ (q ∷ [])) rs r (omega (arith, length-append b (q ∷ []))),
        append_assoc b (q ∷ []) (rs ++ (r ∷ [])),
      )
      refl)

Erased-length : {n : ℕ} {ss rs : List (List ℕ)} → Erased n ss rs → length rs ≡ length ss
Erased-length done = refl
Erased-length (kept h) = ap suc (Erased-length h)
Erased-length (lost h) = ap suc (Erased-length h)

-- A list that is not empty has a last element.
unsnoc :
    (n : ℕ) (xs : List (List ℕ))
    → length xs ≡ suc n
    → (ys : List (List ℕ)) × (y : List ℕ) × (xs ≡ ys ++ (y ∷ [])) × (length ys ≡ n)
unsnoc n [] h = absurd (omega arith)
unsnoc n (x ∷ []) h = ([], x, refl, omega arith)
unsnoc zero (x ∷ x' ∷ xs) h = absurd (omega arith)
unsnoc (suc n) (x ∷ x' ∷ xs) h =
    let (ys, y, e, l) = unsnoc n (x' ∷ xs) (omega arith) in (x ∷ ys, y, ap (◌∷◌ x) e, omega arith)

module _ (c : Codec) (config : Config) where
  -- An encoder and a decoder of one configuration, each at the start of a block.
  abbrev pub encoder_at : ℕ → Encoder
  encoder_at id = record { rs_encoder = c; config = config; block_id = id; seq_id = 0; buffer = [] }

  abbrev pub decoder_at : ℕ → Decoder
  decoder_at id = record { rs_decoder = c; config = config; block_id = id; seq_id = 0; buffer = [] }

  -- The shards of a block.
  abbrev pub shards_of : List (List ℕ) → List (List ℕ)
  shards_of ps = c.encode (c.split (join ps))

module _ (c : Codec) (config : Config) (law : IsCodec c config) where
  shards-length :
      (ps : List (List ℕ))
      → 1 ≤ length (join ps)
      → length (shards_of c config ps) ≡ config.data_shards + config.parity_shards
  shards-length ps h = law.length-encode (c.split (join ps)) ∙ law.length-split (join ps) h

  -- An encoder that is handed as many packets as there are data shards, not all of them empty,
  -- returns nothing until the last one, and then the data and the parity packets of the block; the
  -- data packets, joined, are what it was handed, padded. A decoder that is handed these packets in
  -- order, an empty one for each that is missing, returns nothing until the last one, and then all
  -- packets again, if no more are missing than there are parity shards. Both are then at the start of
  -- the next block.
  pub decode_all-encode_all :
      (i j n : ℕ) (ps : List (List ℕ)) (p : List ℕ) (received : List (List ℕ))
      → suc (length ps) ≡ config.data_shards
      → 1 ≤ length (join (ps ++ (p ∷ [])))
      → n ≤ config.parity_shards
      → Erased n (shards_of c config (ps ++ (p ∷ []))) received
      → (packets : Packets) × (encode_all (encoder_at c config i) (ps ++ (p ∷ []))
          ≡ (encoder_at c config (i + 1), at_last (length ps) (ok packets)))
        × (decode_all (decoder_at c config j) received ≡ (
          decoder_at c config (j + 1),
          at_last (length ps + config.parity_shards) (ok packets),
        ))
        × (pad : List ℕ) × (join packets.0 ≡ join (ps ++ (p ∷ [])) ++ pad)
  unfolding flush_encoder flush_decoder
  decode_all-encode_all i j n ps p received h full few erased =
      let all = shards_of c config (ps ++ (p ∷ [])) in
      let long = shards-length (ps ++ (p ∷ [])) full in
      let (rs, r, e, l) =
        unsnoc (length ps + config.parity_shards) received (omega (arith, Erased-length erased)) in
      let (pad, joined) = law.join-split (join (ps ++ (p ∷ []))) full in
      let whole = cut_lem config.data_shards all (omega arith) in
      (
        (take config.data_shards all, drop config.data_shards all),
        encode_all_lem (encoder_at c config i) [] ps p (omega arith) ∙ rw whole refl,
        rw e (
            decode_all_lem (decoder_at c config j) [] rs r (omega arith)
            ∙ rw
                (
                  sym e,
                  law.reconstruct-erased (join (ps ++ (p ∷ []))) n received full erased few,
                  l,
                  whole,
                )
                refl),
        pad,
        ap join (law.take-encode (c.split (join (ps ++ (p ∷ []))))) ∙ joined,
      )
