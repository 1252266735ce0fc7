-- ===== src/Wire/Token/RoundTrip.antt =====
-- `Append` and `Parse` of token.go together.
use moqtransport_fec.Base.{
  ℕ, ◌+◌, ◌≡◌, ap, ◌∙◌, sym, arith, List, [], ◌++◌, ◌==◌, ◌||◌, length, length-append, drop-length,
  append_assoc, append-nil, ok, if◌then◌else◌, Bool,
}
use moqtransport_fec.Wire.Env.{Env, IsVarint, encode, append-encode, parse-encode}
use moqtransport_fec.Wire.Token.{
  Token, IsToken, append_token, parse_token, parse_value, parse_register, parse_alias,
  token_type_delete, token_type_register, token_type_use_alias, token_type_use_value,
}

-- The fields that a token of this kind carries; the others are those that the parser found.
abbrev pub has_alias : ℕ → Bool
has_alias k = k == token_type_delete || (k == token_type_use_alias || k == token_type_register)

abbrev pub has_value : ℕ → Bool
has_value k = k == token_type_register || k == token_type_use_value

abbrev pub carried : Token → Token → Token
carried old t = record {
  alias_type = t.alias_type;
  alias = if has_alias t.alias_type then t.alias else old.alias;
  typ = if has_value t.alias_type then t.typ else old.typ;
  value = if has_value t.alias_type then t.value else old.value;
}

module _ (env : Env) where
  unfoldable pub token_bytes : Token → List ℕ
  token_bytes t =
      encode env t.alias_type
      ++ ((if has_alias t.alias_type then encode env t.alias else [])
          ++ (if has_value t.alias_type then encode env t.typ ++ t.value else []))

  append_token_lem : (buf : List ℕ) (t : Token) → append_token env buf t ≡ buf ++ token_bytes t
  unfolding append_token token_bytes
  append_token_lem buf t = simp append-encode (
      ground (
        arith,
        append-nil (encode env t.alias),
        append-nil (encode env t.alias_type),
        append_assoc buf (encode env t.alias_type) (encode env t.alias),
        append_assoc (buf ++ encode env t.alias_type) (encode env t.alias) (encode env t.typ),
        append_assoc (buf ++ encode env t.alias_type ++ encode env t.alias) (encode env t.typ)
            t.value,
        append_assoc (buf ++ encode env t.alias_type) (encode env t.typ) t.value,
        append_assoc (buf ++ encode env t.alias_type) (encode env t.alias)
            (encode env t.typ ++ t.value),
        append_assoc buf (encode env t.alias_type) (encode env t.typ ++ t.value),
        append_assoc buf (encode env t.alias_type)
            (encode env t.alias ++ (encode env t.typ ++ t.value)),
      ))

  parse_value_lem :
      (u : Token) (typ : ℕ) (value : List ℕ) (parsed : ℕ)
      → IsVarint typ
      → parse_value env u (encode env typ ++ value) parsed
        ≡ ok (record u { typ = typ; value = value }, parsed + length (encode env typ ++ value))
  unfolding parse_value
  parse_value_lem u typ value parsed h =
      rw (parse-encode env typ value h, drop-length (encode env typ))
        (ap (λ n. ok (record u { typ = typ; value = value }, n)) (simp length-append (omega arith)))

  parse_alias_lem :
      (u : Token) (alias : ℕ) (rest : List ℕ) (parsed : ℕ)
      → IsVarint alias
      → parse_alias env u (encode env alias ++ rest) parsed
        ≡ ok (record u { alias = alias }, parsed + length (encode env alias))
  unfolding parse_alias
  parse_alias_lem u alias rest parsed h = rw (parse-encode env alias rest h)

  parse_register_lem :
      (u : Token) (alias : ℕ) (rest : List ℕ) (parsed : ℕ)
      → IsVarint alias
      → parse_register env u (encode env alias ++ rest) parsed
        ≡ parse_value env (record u { alias = alias }) rest (parsed + length (encode env alias))
  unfolding parse_register
  parse_register_lem u alias rest parsed h =
      rw (parse-encode env alias rest h, drop-length (encode env alias))

  -- The kind decides what is read behind it.
  parse_token_lem :
      (old t : Token) (rest : List ℕ)
      → IsToken t
      → parse_token env old (encode env t.alias_type ++ rest) ≡ (
          let u = record old { alias_type = t.alias_type } in
          let n = length (encode env t.alias_type) in
          if t.alias_type == token_type_delete || t.alias_type == token_type_use_alias
          then parse_alias env u rest n
          else if t.alias_type == token_type_register
          then parse_register env u rest n
          else if t.alias_type == token_type_use_value
          then parse_value env u rest n
          else ok (u, n))
  unfolding parse_token
  parse_token_lem old t rest w =
      rw (parse-encode env t.alias_type rest w.alias_type, drop-length (encode env t.alias_type))

  -- A token is parsed, to its last byte, as what it was: the fields that its kind carries are the
  -- token's, the others stay as the parser found them.
  pub parse_token-append :
      (old t : Token)
      → IsToken t
      → parse_token env old (append_token env [] t)
        ≡ ok (carried old t, length (append_token env [] t))
  unfolding token_bytes
  parse_token-append old t w =
      ap (parse_token env old) (append_token_lem [] t)
      ∙ (parsed ∙ ap (λ (bs : List ℕ). ok (carried old t, length bs)) (sym (append_token_lem [] t)))
    where
      u : Token
      u = record old { alias_type = t.alias_type }

      parsed : parse_token env old (token_bytes t) ≡ ok (carried old t, length (token_bytes t))
      parsed =
          parse_token_lem old t _ w
          ∙ ground (
            arith,
            append-nil (encode env t.alias),
            append-nil (encode env t.alias_type),
            parse_alias_lem u t.alias [] (length (encode env t.alias_type)) w.alias,
            parse_register_lem u t.alias (encode env t.typ ++ t.value)
                (length (encode env t.alias_type)) w.alias,
            parse_value_lem u t.typ t.value (length (encode env t.alias_type)) w.typ,
            parse_value_lem (record u { alias = t.alias }) t.typ t.value
                (length (encode env t.alias_type) + length (encode env t.alias)) w.typ,
            length-append (encode env t.alias) (encode env t.typ ++ t.value),
            length-append (encode env t.alias_type) (encode env t.alias),
            length-append (encode env t.alias_type) (encode env t.typ ++ t.value),
            length-append (encode env t.alias_type)
                (encode env t.alias ++ (encode env t.typ ++ t.value)),
          )
