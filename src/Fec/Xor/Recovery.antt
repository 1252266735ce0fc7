-- ===== src/Fec/Xor/Recovery.antt =====
-- The decoder of fec/xor/xor.go over a block of which one data packet is lost.
use mathlib.Core.List.{Perm, Permᴰ}
use mathlib.Core.Logic.{∥∥₁_elim}
use native.Mathlib.Decide.{dec_lt}
use native.Mathlib.Nat.{ℕ_set}
use moqtransport_fec.Base.{
  ℕ, zero, suc, ◌+◌, ◌≤◌, ◌<◌, ◌≡◌, refl, ap, ◌∙◌, arith, true, false, List, [], ◌∷◌, ◌++◌, none,
  some, length, length-append, append_assoc, append-nil, ==-refl,
}
use moqtransport_fec.Base.Assoc.{lookup, insert, delete, lookup-insert, lookup-delete}
use moqtransport_fec.Fec.Xor.{
  Block, Decoder, try_decode, find_block, new_block, store, has_missing, packets_of, xor_all,
  generate_parity, max_len,
}
use moqtransport_fec.Fec.Xor.Parity.{padded, xor_all-generate_parity}

-- Data packets of a block that reach the decoder one after the other.
abbrev pub receive : Decoder → ℕ → List (ℕ × List ℕ) → Decoder
receive d id [] = d
receive d id ((seq, p) ∷ xs) = receive (try_decode d id seq p false).0 id xs

-- No sequence number comes twice, nor one of `got`.
abbrev pub IsFresh : List (ℕ × List ℕ) → List (ℕ × List ℕ) → Type 0
IsFresh got [] = Unit {0}
IsFresh got ((seq, p) ∷ xs) = (lookup seq got ≡ none) × IsFresh (got ++ ((seq, p) ∷ [])) xs

-- A block with data packets alone.
abbrev pub collected : ℕ → List (ℕ × List ℕ) → Block
collected n got = record {
  data_packets = got;
  parity_packet = [];
  received_data = length got;
  has_parity = false;
  size = n;
}

insert-append :
    (seq : ℕ) (p : List ℕ) (m : List (ℕ × List ℕ))
    → lookup seq m ≡ none
    → insert seq p m ≡ m ++ ((seq, p) ∷ [])
unfolding insert lookup
insert-append seq p [] h = refl
insert-append seq p ((j, q) ∷ m) h = ground (arith, insert-append seq p m)

store_data :
    (n seq : ℕ) (p : List ℕ) (got : List (ℕ × List ℕ))
    → lookup seq got ≡ none
    → store (collected n got) seq p false ≡ collected n (got ++ ((seq, p) ∷ []))
unfolding store
store_data n seq p got h =
    rw (h, store)
      (rw (insert-append seq p got h) (ground (arith, length-append got ((seq, p) ∷ []))))

-- A data packet that completes nothing is kept.
try_decode_keeps :
    (d : Decoder) (id n seq : ℕ) (p : List ℕ) (got : List (ℕ × List ℕ))
    → find_block d id ≡ collected n got
    → lookup seq got ≡ none
    → suc (length got) < n
    → find_block (try_decode d id seq p false).0 id ≡ collected n (got ++ ((seq, p) ∷ []))
unfolding try_decode
try_decode_keeps d id n seq p got f h k = rw f (
    rw (store_data n seq p got h) (
      ground (
        arith,
        length-append got ((seq, p) ∷ []),
        lookup-insert id id (collected n (got ++ ((seq, p) ∷ []))) d.blocks,
      )))

receive_lem :
    (d : Decoder) (id n : ℕ) (got xs : List (ℕ × List ℕ))
    → find_block d id ≡ collected n got
    → IsFresh got xs
    → length got + length xs < n
    → find_block (receive d id xs) id ≡ collected n (got ++ xs)
receive_lem d id n got [] f h k = rw append-nil f
receive_lem d id n got ((seq, p) ∷ xs) f (h, hs) k =
    receive_lem (try_decode d id seq p false).0 id n (got ++ ((seq, p) ∷ [])) xs
      (try_decode_keeps d id n seq p got f h (omega arith)) hs
      (omega (arith, length-append got ((seq, p) ∷ [])))
    ∙ ap (collected n) (append_assoc got ((seq, p) ∷ []) xs)

has_missing_lem :
    (n i m : ℕ) (xs : List (ℕ × List ℕ))
    → i ≤ m
    → m < i + n
    → lookup m xs ≡ none
    → has_missing n i xs ≡ true
unfolding has_missing
has_missing_lem zero i m xs h k e = absurd (omega arith)
has_missing_lem (suc n) i m xs h k e = elim (dec_lt i m) [
  | yes before ↦ ground (arith, has_missing_lem n (i + 1) m xs (omega arith) (omega arith) e)
  | no after ↦ let same : i ≡ m = omega arith in rw same (rw (e, has_missing))
]

abbrev completed : ℕ → List (ℕ × List ℕ) → List ℕ → Block
completed n got parity = record (collected n got) { parity_packet = parity; has_parity = true }

-- The parity packet that finds all data packets of the block but one.
try_decode_recovers :
    (d : Decoder) (id n seq : ℕ) (parity : List ℕ) (got : List (ℕ × List ℕ))
    → find_block d id ≡ collected n got
    → suc (length got) ≡ n
    → has_missing n 0 got ≡ true
    → try_decode d id seq parity true ≡ (
      record d { blocks = delete id (insert id (completed n got parity) d.blocks) },
      some (xor_all parity (packets_of got)),
      true,
    )
unfolding try_decode
try_decode_recovers d id n seq parity got f k h = rw f (ground arith)

length-packets_of : (xs : List (ℕ × List ℕ)) → length (packets_of xs) ≡ length xs
length-packets_of [] = refl
length-packets_of ((seq, p) ∷ xs) = ap suc (length-packets_of xs)

length-Permᴰ : {ps qs : List (List ℕ)} → Permᴰ ps qs → length ps ≡ length qs
length-Permᴰ Permᴰ.nil = refl
length-Permᴰ (Permᴰ.cons e d) = ap suc (length-Permᴰ d)
length-Permᴰ (Permᴰ.swap e f) = refl
length-Permᴰ (Permᴰ.trans d e) = length-Permᴰ d ∙ length-Permᴰ e

length-perm : (ps qs : List (List ℕ)) → Perm ps qs → length ps ≡ length qs
length-perm ps qs p = ∥∥₁_elim p (ℕ_set _ _) length-Permᴰ

-- `ps` are the packets of a block, and `xs` all of them but `missing`, in whatever order they reach
-- a decoder that knows nothing of the block yet, under distinct sequence numbers of which one below
-- the block size is left out. If the parity of `ps` comes next, `TryDecode` returns the missing
-- packet, filled up with zeros to the length of the longest, says that it was recovered, and forgets
-- the block.
pub try_decode-generate_parity :
    (d : Decoder) (id seq m : ℕ) (ps : List (List ℕ)) (missing parity : List ℕ)
    → (xs : List (ℕ × List ℕ)) → lookup id d.blocks ≡ none
    → d.block_size ≡ length ps
    → Perm ps (missing ∷ packets_of xs)
    → IsFresh [] xs
    → m < length ps
    → lookup m xs ≡ none
    → generate_parity ps ≡ some parity
    → let after = try_decode (receive d id xs) id seq parity true in
      (after.1 ≡ some (padded (max_len ps 0) missing))
      × (after.2 ≡ true)
      × (lookup id after.0.blocks ≡ none)
try_decode-generate_parity d id seq m ps missing parity xs fresh size perm distinct below out made =
    rw
      (try_decode_recovers (receive d id xs) id (length ps) seq parity xs found
        (omega (arith, sized)) (has_missing_lem (length ps) 0 m xs (omega arith) (omega arith) out))
      (
        ap some (xor_all-generate_parity ps (packets_of xs) missing parity perm made),
        refl,
        rw (lookup-delete id id, ==-refl id),
      )
  where
    sized : length ps ≡ suc (length xs)
    sized = length-perm ps (missing ∷ packets_of xs) perm ∙ ap suc (length-packets_of xs)

    start : find_block d id ≡ collected (length ps) []
    start = unfold find_block new_block in rw (fresh, find_block) (rw size)

    found : find_block (receive d id xs) id ≡ collected (length ps) xs
    found = receive_lem d id (length ps) [] xs start distinct (omega (arith, sized))
