-- ===== src/Fec/Examples.antt =====
-- The theorem on the Reed-Solomon blocks at the smallest configuration: one data shard and one parity
-- shard, where the code repeats the data.
use moqtransport_fec.Base.{ℕ, ◌≤◌, ◌≡◌, refl, arith, List, [], ◌∷◌, ◌++◌, length, take, ok}
use moqtransport_fec.Fec.ReedSolomon.{Codec, Config, Packets, join}
use moqtransport_fec.Fec.ReedSolomon.Transfer.{
  Erased, done, kept, lost, IsCodec, encode_all, decode_all, at_last, encoder_at, decoder_at,
  decode_all-encode_all,
}

abbrev one_and_one : Config
one_and_one = record { data_shards = 1; parity_shards = 1 }

abbrev repeat : List (List ℕ) → List (List ℕ)
repeat (x ∷ y ∷ rest) = x ∷ x ∷ rest
repeat shards = shards

abbrev fill : List (List ℕ) → List (List ℕ)
fill ([] ∷ y ∷ rest) = y ∷ y ∷ rest
fill ((b ∷ x) ∷ y ∷ rest) = (b ∷ x) ∷ (b ∷ x) ∷ rest
fill shards = shards

abbrev repetition : Codec
repetition = record { split = λ bytes. bytes ∷ bytes ∷ []; encode = repeat; reconstruct = fill }

length-repeat : (shards : List (List ℕ)) → length (repeat shards) ≡ length shards
length-repeat [] = refl
length-repeat (x ∷ []) = refl
length-repeat (x ∷ y ∷ rest) = refl

take-repeat : (shards : List (List ℕ)) → take 1 (repeat shards) ≡ take 1 shards
take-repeat [] = refl
take-repeat (x ∷ []) = refl
take-repeat (x ∷ y ∷ rest) = refl

fill-Erased :
    (bytes : List ℕ) (n : ℕ) (received : List (List ℕ))
    → 1 ≤ length bytes
    → Erased n (bytes ∷ bytes ∷ []) received
    → n ≤ 1
    → fill received ≡ bytes ∷ bytes ∷ []
fill-Erased [] n received h e few = absurd (omega arith)
fill-Erased (b ∷ bs) n received h (kept (kept done)) few = refl
fill-Erased (b ∷ bs) n received h (kept (lost done)) few = refl
fill-Erased (b ∷ bs) n received h (lost (kept done)) few = refl
fill-Erased (b ∷ bs) n received h (lost (lost done)) few = absurd (omega arith)

repetition-IsCodec : IsCodec repetition one_and_one
unfolding join
repetition-IsCodec = record {
  length-split = λ bytes h. refl;
  join-split = λ bytes h. ([], refl);
  length-encode = length-repeat;
  take-encode = take-repeat;
  reconstruct-erased = fill-Erased;
}

abbrev a_packet : List ℕ
a_packet = 4 ∷ 5 ∷ []

-- The data packet is missing.
decode_all-encode_all_example :
    (packets : Packets) × (encode_all (encoder_at repetition one_and_one 6) (a_packet ∷ [])
      ≡ (encoder_at repetition one_and_one 7, at_last 0 (ok packets)))
    × (decode_all (decoder_at repetition one_and_one 2) ([] ∷ a_packet ∷ [])
        ≡ (decoder_at repetition one_and_one 3, at_last 1 (ok packets)))
    × (pad : List ℕ) × (join packets.0 ≡ join (a_packet ∷ []) ++ pad)
unfolding join
decode_all-encode_all_example =
    decode_all-encode_all repetition one_and_one repetition-IsCodec 6 2 1 [] a_packet
      ([] ∷ a_packet ∷ []) refl (omega arith) (omega arith) (lost (kept done))
