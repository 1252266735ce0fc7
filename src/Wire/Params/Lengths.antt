-- ===== src/Wire/Params/Lengths.antt =====
-- The lengths of key_value_pair.go and kvp_list.go, and what appendLength writes.
use moqtransport_fec.Base.{
  ℕ, ◌≡◌, refl, ap, ◌∙◌, Bool, true, false, List, [], ◌∷◌, ◌++◌, arith, length, All, append_assoc,
  length-append,
}
use moqtransport_fec.Wire.Env.{Env, encode, append-encode, len-encode}
use moqtransport_fec.Wire.Params.{
  KeyValuePair, has_bytes, length_pair, length_list, append_length, IsPair, IsValue,
}
use moqtransport_fec.Wire.Params.RoundTrip.{value, pair, pairs, append_list_lem}

module _ (env : Env) where
  length_pair_lem : (p : KeyValuePair) → IsPair env p → length_pair env p ≡ length (pair env p)
  unfolding length_pair pair value
  length_pair_lem p (h, v) = by_kind (has_bytes p.typ) refl v
    where
      by_kind :
          (b : Bool)
          → has_bytes p.typ ≡ b
          → IsValue env b p
          → length_pair env p ≡ length (encode env p.typ ++ value env (has_bytes p.typ) p)
      by_kind true e (l, _, _) = rw e (
          omega (
            arith,
            len-encode env p.typ h,
            len-encode env (length p.value_bytes) l,
            length-append (encode env p.typ) (encode env (length p.value_bytes) ++ p.value_bytes),
            length-append (encode env (length p.value_bytes)) p.value_bytes,
          ))
      by_kind false e (l, _) = rw e (
          omega (
            arith,
            len-encode env p.typ h,
            len-encode env p.value_var_int l,
            length-append (encode env p.typ) (encode env p.value_var_int),
          ))

  pub length_list_lem :
      (pp : List KeyValuePair) → All (IsPair env) pp → length_list env pp ≡ length (pairs env pp)
  unfolding length_list pairs
  length_list_lem [] h = refl
  length_list_lem (p ∷ pp) (h, hs) =
      omega (
        arith,
        length_pair_lem p h,
        length_list_lem pp hs,
        length-append (pair env p) (pairs env pp),
      )

  -- `appendLength` announces exactly the length of the bytes that it then writes, for parameters that
  -- have an encoding.
  pub append_length_lem :
      (buf : List ℕ) (pp : List KeyValuePair)
      → All (IsPair env) pp
      → append_length env buf pp ≡ buf ++ (encode env (length (pairs env pp)) ++ pairs env pp)
  unfolding append_length
  append_length_lem buf pp h =
      append_list_lem env (env.append buf (length_list env pp)) pp
      ∙ rw (length_list_lem pp h) (simp (append-encode, append_assoc))

  pub append_length-rest :
      (pp : List KeyValuePair) (rest : List ℕ)
      → All (IsPair env) pp
      → append_length env [] pp ++ rest
        ≡ encode env (length (pairs env pp)) ++ (pairs env pp ++ rest)
  append_length-rest pp rest h =
      ap (λ b. b ++ rest) (append_length_lem [] pp h)
      ∙ append_assoc (encode env (length (pairs env pp))) (pairs env pp) rest
