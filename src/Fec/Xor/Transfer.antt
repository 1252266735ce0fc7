-- ===== src/Fec/Xor/Transfer.antt =====
-- Encoder and decoder of fec/xor/xor.go together.
use mathlib.Core.Path.{subst}
use mathlib.Core.List.{Perm, perm_middle}
use moqtransport_fec.Base.{
  ℕ, suc, ◌+◌, ◌≤◌, ◌<◌, ◌≡◌, refl, sym, ap, ◌∙◌, arith, true, List, [], ◌∷◌, ◌++◌, length,
  length-append, none, some,
}
use moqtransport_fec.Base.Assoc.{lookup}
use moqtransport_fec.Fec.Xor.{
  Encoder, Decoder, max_len, generate_parity, try_encode, packets_of, try_decode,
}
use moqtransport_fec.Fec.Xor.Parity.{padded}
use moqtransport_fec.Fec.Xor.Blocks.{feed, holding, try_encode_waits, try_encode_block}
use moqtransport_fec.Fec.Xor.Recovery.{receive, IsFresh, try_decode-generate_parity}

-- The packets that are handed to the encoder, each with the sequence number that it returns.
unfoldable pub sent : Encoder → List (List ℕ) → List (ℕ × List ℕ)
sent e [] = []
sent e (p ∷ ps) = ((try_encode e p).3, p) ∷ sent (try_encode e p).0 ps

numbered : ℕ → List (List ℕ) → List (ℕ × List ℕ)
numbered k [] = []
numbered k (p ∷ ps) = (k, p) ∷ numbered (suc k) ps

try_encode_seq :
    (e : Encoder) (ps : List (List ℕ)) (p : List ℕ)
    → (try_encode (holding e ps) p).3 ≡ suc (length ps)
unfolding try_encode
try_encode_seq e ps p = ground arith

sent_lem :
    (e : Encoder) (ps qs : List (List ℕ)) (p : List ℕ)
    → suc (length ps + length qs) ≡ e.block_size
    → sent (holding e ps) (qs ++ (p ∷ [])) ≡ numbered (suc (length ps)) (qs ++ (p ∷ []))
unfolding sent numbered
sent_lem e ps [] p h = rw (try_encode_seq e ps p) refl
sent_lem e ps (q ∷ qs) p h = rw (try_encode_waits e ps q (omega arith)) (
    ap (◌∷◌ (suc (length ps), q)) (
      sent_lem e (ps ++ (q ∷ [])) qs p (omega (arith, length-append ps (q ∷ [])))
      ∙ ap (λ n. numbered (suc n) (qs ++ (p ∷ []))) (omega (arith, length-append ps (q ∷ [])))))

-- The sequence numbers grow, from `k` on.
abbrev IsFrom : ℕ → List (ℕ × List ℕ) → Type 0
IsFrom k [] = Unit {0}
IsFrom k ((j, p) ∷ zs) = (k ≤ j) × IsFrom (suc j) zs

numbered-IsFrom : (k : ℕ) (ps : List (List ℕ)) → IsFrom k (numbered k ps)
unfolding numbered
numbered-IsFrom k [] = tt
numbered-IsFrom k (p ∷ ps) = (omega arith, numbered-IsFrom (suc k) ps)

IsFrom-le : (i k : ℕ) (zs : List (ℕ × List ℕ)) → i ≤ k → IsFrom k zs → IsFrom i zs
IsFrom-le i k [] h w = tt
IsFrom-le i k ((j, p) ∷ zs) h (g, w) = (omega arith, w)

IsFrom-remove :
    (k : ℕ) (xs ys : List (ℕ × List ℕ)) (s : ℕ) (p : List ℕ)
    → IsFrom k (xs ++ ((s, p) ∷ ys))
    → IsFrom k (xs ++ ys)
IsFrom-remove k [] ys s p (g, w) = IsFrom-le k (suc s) ys (omega arith) w
IsFrom-remove k ((j, q) ∷ xs) ys s p (g, w) = (g, IsFrom-remove (suc j) xs ys s p w)

lookup-below : (i k : ℕ) (zs : List (ℕ × List ℕ)) → i < k → IsFrom k zs → lookup i zs ≡ none
unfolding lookup
lookup-below i k [] h w = refl
lookup-below i k ((j, p) ∷ zs) h (g, w) = ground (arith, lookup-below i (suc j) zs (omega arith) w)

lookup-end :
    (j s : ℕ) (p : List ℕ) (got : List (ℕ × List ℕ))
    → s < j
    → lookup j got ≡ none
    → lookup j (got ++ ((s, p) ∷ [])) ≡ none
unfolding lookup
lookup-end j s p [] h e = ground arith
lookup-end j s p ((i, q) ∷ got) h e = ground (arith, lookup-end j s p got)

IsFrom-IsFresh :
    (k : ℕ) (got zs : List (ℕ × List ℕ))
    → ((j : ℕ) → k ≤ j → lookup j got ≡ none)
    → IsFrom k zs
    → IsFresh got zs
IsFrom-IsFresh k got [] h w = tt
IsFrom-IsFresh k got ((s, p) ∷ zs) h (g, w) = (
  h s g,
  IsFrom-IsFresh (suc s) (got ++ ((s, p) ∷ [])) zs
      (λ j above. lookup-end j s p got (omega arith) (h j (omega arith))) w,
)

packets_of-append :
    (xs ys : List (ℕ × List ℕ)) → packets_of (xs ++ ys) ≡ packets_of xs ++ packets_of ys
packets_of-append [] ys = refl
packets_of-append ((j, p) ∷ xs) ys = ap (◌∷◌ p) (packets_of-append xs ys)

packets_of-numbered : (k : ℕ) (ps : List (List ℕ)) → packets_of (numbered k ps) ≡ ps
unfolding numbered
packets_of-numbered k [] = refl
packets_of-numbered k (p ∷ ps) = ap (◌∷◌ p) (packets_of-numbered (suc k) ps)

parity_made :
    (qs : List (List ℕ)) (p : List ℕ)
    → (parity : List ℕ) × (generate_parity (qs ++ (p ∷ [])) ≡ some parity)
unfolding generate_parity
parity_made [] p = (_, refl)
parity_made (q ∷ qs) p = (_, refl)

-- A block of packets goes through an encoder at the start of a block, with the sequence numbers that
-- it gives them, and all of them but one reach, in order, a decoder with the same block size that
-- knows nothing of the block. The encoder returns a parity packet with the last packet; when that
-- reaches the decoder under the block and the number that the encoder says, the decoder returns the
-- lost packet, filled up with zeros to the length of the longest, and forgets the block.
pub try_decode-try_encode :
    (e : Encoder) (d : Decoder) (qs : List (List ℕ)) (p : List ℕ)
    → (xs ys : List (ℕ × List ℕ)) (s : ℕ) (lost : List ℕ) → suc (length qs) ≡ e.block_size
    → d.block_size ≡ e.block_size
    → lookup e.block_id d.blocks ≡ none
    → sent (holding e []) (qs ++ (p ∷ [])) ≡ xs ++ ((s, lost) ∷ ys)
    → let encoded = try_encode (feed (holding e []) qs) p in
      (parity : List ℕ) × (encoded.1 ≡ some parity)
      × (let after = try_decode (receive d encoded.2 (xs ++ ys)) encoded.2 encoded.3 parity true in
          (after.1 ≡ some (padded (max_len (qs ++ (p ∷ [])) 0) lost))
          × (after.2 ≡ true)
          × (lookup encoded.2 after.0.blocks ≡ none))
try_decode-try_encode e d qs p xs ys s lost full same fresh split =
    let (parity, made) = parity_made qs p in
    rw (try_encode_block e qs p full) (
      parity,
      made,
      try_decode-generate_parity d e.block_id e.block_size 0 ps lost parity (xs ++ ys) fresh
          (omega (arith, sized)) perm
          (IsFrom-IsFresh 1 [] (xs ++ ys) (λ j h. unfold lookup in refl) from_one)
          (omega (arith, sized)) (lookup-below 0 1 (xs ++ ys) (omega arith) from_one) made,
    )
  where
    ps : List (List ℕ)
    ps = qs ++ (p ∷ [])

    sized : length ps ≡ suc (length qs)
    sized = omega (arith, length-append qs (p ∷ []))

    parts : numbered 1 ps ≡ xs ++ ((s, lost) ∷ ys)
    parts = sym (sent_lem e [] qs p (omega arith)) ∙ split

    from_one : IsFrom 1 (xs ++ ys)
    from_one = IsFrom-remove 1 xs ys s lost (subst (λ zs. IsFrom 1 zs) parts (numbered-IsFrom 1 ps))

    whole : ps ≡ packets_of xs ++ (lost ∷ packets_of ys)
    whole =
        sym (packets_of-numbered 1 ps) ∙ ap packets_of parts ∙ packets_of-append xs ((s, lost) ∷ ys)

    perm : Perm ps (lost ∷ packets_of (xs ++ ys))
    perm = rw (whole, packets_of-append xs ys) (perm_middle (packets_of xs) (packets_of ys))
