-- ===== src/Fec/Xor/Parity.antt =====
-- The parity packet of fec/xor/xor.go, apart from the state of encoder and decoder.
use mathlib.Core.List.{Perm, Permᴰ}
use mathlib.Core.Path.{subst, ◌≡⟨◌⟩◌, ◌∎}
use mathlib.Core.Option.{some-injective}
use mathlib.Core.Logic.{∥∥₁_elim}
use moqtransport_fec.Base.{
  ℕ, zero, suc, ◌≤◌, ◌≡◌, refl, sym, ap, ◌∙◌, arith, List, [], ◌∷◌, some, length, replicate,
  length-replicate, All,
}
use moqtransport_fec.Fec.Bits.{xor_right_comm, xor_cancel, zero-xor}
use moqtransport_fec.Fec.Xor.{xor_into, xor_all, max_len, generate_parity}

-- Packets are taken in in either order.
xor_into_comm : (acc p q : List ℕ) → xor_into (xor_into acc p) q ≡ xor_into (xor_into acc q) p
unfolding xor_into
xor_into_comm [] p q = refl
xor_into_comm (a ∷ acc) [] [] = refl
xor_into_comm (a ∷ acc) [] (d ∷ q) = refl
xor_into_comm (a ∷ acc) (b ∷ p) [] = refl
xor_into_comm (a ∷ acc) (b ∷ p) (d ∷ q) = rw (xor_right_comm a b d, xor_into_comm acc p q)

xor_into_cancel : (acc p : List ℕ) → xor_into (xor_into acc p) p ≡ acc
unfolding xor_into
xor_into_cancel [] p = refl
xor_into_cancel (a ∷ acc) [] = refl
xor_into_cancel (a ∷ acc) (b ∷ p) = rw (xor_cancel a b, xor_into_cancel acc p)

pub length-xor_into : (acc p : List ℕ) → length (xor_into acc p) ≡ length acc
unfolding xor_into
length-xor_into [] p = refl
length-xor_into (a ∷ acc) [] = refl
length-xor_into (a ∷ acc) (b ∷ p) = ap suc (length-xor_into acc p)

pub length-xor_all : (ps : List (List ℕ)) (acc : List ℕ) → length (xor_all acc ps) ≡ length acc
unfolding xor_all
length-xor_all [] acc = refl
length-xor_all (p ∷ ps) acc = length-xor_all ps (xor_into acc p) ∙ length-xor_into acc p

xor_all_comm :
    (ps : List (List ℕ)) (acc q : List ℕ)
    → xor_all (xor_into acc q) ps ≡ xor_into (xor_all acc ps) q
unfolding xor_all
xor_all_comm [] acc q = refl
xor_all_comm (p ∷ ps) acc q = rw (xor_into_comm acc q p) (xor_all_comm ps (xor_into acc p) q)

xor_all_cancel : (ps : List (List ℕ)) (acc : List ℕ) → xor_all (xor_all acc ps) ps ≡ acc
unfolding xor_all
xor_all_cancel [] acc = refl
xor_all_cancel (p ∷ ps) acc =
    rw (xor_all_comm ps acc p, xor_into_cancel (xor_all acc ps) p) (xor_all_cancel ps acc)

List-set : IsSet (List ℕ)
List-set = hlevel

xor_all-Permᴰ :
    {ps qs : List (List ℕ)} → Permᴰ ps qs → (acc : List ℕ) → xor_all acc ps ≡ xor_all acc qs
unfolding xor_all
xor_all-Permᴰ Permᴰ.nil acc = refl
xor_all-Permᴰ (Permᴰ.cons {a = p} {l₂ = qs} e d) acc =
    xor_all-Permᴰ d (xor_into acc p) ∙ ap (λ x. xor_all (xor_into acc x) qs) e
xor_all-Permᴰ (Permᴰ.swap {a = p} {b = q} {l = ps} e f) acc = rw (← e, ← f, xor_into_comm acc p q)
xor_all-Permᴰ (Permᴰ.trans d e) acc = xor_all-Permᴰ d acc ∙ xor_all-Permᴰ e acc

-- Taking in packets gives the same bytes in whatever order the packets come.
pub xor_all-perm :
    (ps qs : List (List ℕ)) (acc : List ℕ) → Perm ps qs → xor_all acc ps ≡ xor_all acc qs
xor_all-perm ps qs acc p = ∥∥₁_elim p (List-set _ _) (λ d. xor_all-Permᴰ d acc)

-- The packet with zeros behind it, to the length `n`.
unfoldable pub padded : ℕ → List ℕ → List ℕ
padded zero p = []
padded (suc n) [] = 0 ∷ padded n []
padded (suc n) (b ∷ p) = b ∷ padded n p

zeros-xor_into : (n : ℕ) (p : List ℕ) → xor_into (replicate n 0) p ≡ padded n p
unfolding xor_into padded
zeros-xor_into zero p = refl
zeros-xor_into (suc n) [] = ap (◌∷◌ 0) (zeros n)
  where
    zeros : (k : ℕ) → replicate k 0 ≡ padded k []
    zeros zero = refl
    zeros (suc k) = ap (◌∷◌ 0) (zeros k)
zeros-xor_into (suc n) (b ∷ p) = rw (zero-xor b, zeros-xor_into n p)

xor_all_undo :
    (missing : List ℕ) (others : List (List ℕ)) (acc : List ℕ)
    → xor_all (xor_all acc (missing ∷ others)) others ≡ xor_into acc missing
unfolding xor_all
xor_all_undo missing others acc = xor_all_cancel others (xor_into acc missing)

-- The parity of some packets, taken with all of them but one, in whatever order, is that one, filled
-- up with zeros to the length of the longest packet.
pub xor_all-generate_parity :
    (ps others : List (List ℕ)) (missing parity : List ℕ)
    → Perm ps (missing ∷ others)
    → generate_parity ps ≡ some parity
    → xor_all parity others ≡ padded (max_len ps 0) missing
unfolding generate_parity
xor_all-generate_parity [] others missing parity p e = cc
xor_all-generate_parity (q ∷ qs) others missing parity p e =
    xor_all parity others
    ≡⟨ ap (λ x. xor_all x others) (sym (some-injective _ _ e)) ⟩
      xor_all (xor_all zeros (q ∷ qs)) others
    ≡⟨ ap (λ x. xor_all x others) (xor_all-perm (q ∷ qs) (missing ∷ others) zeros p) ⟩
      xor_all (xor_all zeros (missing ∷ others)) others
    ≡⟨ xor_all_undo missing others zeros ⟩ xor_into zeros missing
    ≡⟨ zeros-xor_into (max_len (q ∷ qs) 0) missing ⟩ padded (max_len (q ∷ qs) 0) missing ∎
  where
    zeros : List ℕ
    zeros = replicate (max_len (q ∷ qs) 0) 0

max_len-ge : (ps : List (List ℕ)) (m : ℕ) → m ≤ max_len ps m
unfolding max_len
max_len-ge [] m = omega arith
max_len-ge (p ∷ ps) m = ground (arith, max_len-ge ps m, max_len-ge ps (length p))

All-le-max_len : (ps : List (List ℕ)) (m : ℕ) → All (λ p. length p ≤ max_len ps m) ps
unfolding max_len
All-le-max_len [] m = tt
All-le-max_len (p ∷ ps) m =
    (ground (arith, max_len-ge ps m, max_len-ge ps (length p)), All-le-max_len ps _)

-- The parity is as long as the longest packet, so that no index of a packet is out of its range.
pub generate_parity_covers :
    (ps : List (List ℕ)) (parity : List ℕ)
    → generate_parity ps ≡ some parity
    → (length parity ≡ max_len ps 0) × All (λ p. length p ≤ length parity) ps
unfolding generate_parity
generate_parity_covers [] parity e = cc
generate_parity_covers (q ∷ qs) parity e =
    let long : length parity ≡ max_len (q ∷ qs) 0 =
      ap length (sym (some-injective _ _ e))
      ∙ length-xor_all (q ∷ qs) (replicate (max_len (q ∷ qs) 0) 0)
      ∙ length-replicate (max_len (q ∷ qs) 0) 0 in
    (long, subst (λ n. All (λ p. length p ≤ n) (q ∷ qs)) (sym long) (All-le-max_len (q ∷ qs) 0))

padded-length : (p : List ℕ) → padded (length p) p ≡ p
unfolding padded
padded-length [] = refl
padded-length (b ∷ p) = ap (◌∷◌ b) (padded-length p)

-- A packet of the greatest length is recovered as it was.
pub padded_longest :
    (ps : List (List ℕ)) (p : List ℕ) → length p ≡ max_len ps 0 → padded (max_len ps 0) p ≡ p
padded_longest ps p e = rw (← e) (padded-length p)
