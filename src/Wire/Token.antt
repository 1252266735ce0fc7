-- ===== src/Wire/Token.antt =====
-- Authorization tokens: token.go of internal/wire.
pub mod RoundTrip
use moqtransport_fec.Base.{
  ℕ, ◌+◌, List, ◌++◌, ◌==◌, ◌||◌, length, drop, Result, ok, ◌>>=◌, if◌then◌else◌,
}
use moqtransport_fec.Wire.Env.{Env, IsVarint}

abbrev pub token_type_delete : ℕ
token_type_delete = 0x00

abbrev pub token_type_register : ℕ
token_type_register = 0x01

abbrev pub token_type_use_alias : ℕ
token_type_use_alias = 0x02

abbrev pub token_type_use_value : ℕ
token_type_use_value = 0x03

pub record Token : Type 0 where
  pub alias_type : ℕ
  pub alias : ℕ
  pub typ : ℕ
  pub value : List ℕ

module _ (env : Env) where
  unfoldable pub append_token : List ℕ → Token → List ℕ
  append_token buf t =
      let head = env.append buf t.alias_type in
      if t.alias_type == token_type_delete || t.alias_type == token_type_use_alias
      then env.append head t.alias
      else if t.alias_type == token_type_register
      then env.append (env.append head t.alias) t.typ ++ t.value
      else if t.alias_type == token_type_use_value
      then env.append head t.typ ++ t.value
      else head

  -- The two cases with one and with two numbers before the value, into the token `t`; the value is a
  -- copy of all that is left, so its length is always right.
  unfoldable pub parse_value : Token → List ℕ → ℕ → Result (Token × ℕ)
  parse_value t input parsed = do
    (typ, n) ← env.parse input
    ok (record t { typ = typ; value = drop n input }, parsed + n + length (drop n input))

  unfoldable pub parse_register : Token → List ℕ → ℕ → Result (Token × ℕ)
  parse_register t input parsed = do
    (alias, n) ← env.parse input
    parse_value (record t { alias = alias }) (drop n input) (parsed + n)

  unfoldable pub parse_alias : Token → List ℕ → ℕ → Result (Token × ℕ)
  parse_alias t input parsed = do
    (alias, n) ← env.parse input
    ok (record t { alias = alias }, parsed + n)

  -- With the number of bytes that it took; an unknown kind of token takes its kind alone.
  unfoldable pub parse_token : Token → List ℕ → Result (Token × ℕ)
  parse_token t input = do
    (alias_type, n) ← env.parse input
    let u = record t { alias_type = alias_type }
    if alias_type == token_type_delete || alias_type == token_type_use_alias
        then parse_alias u (drop n input) n
        else if alias_type == token_type_register
        then parse_register u (drop n input) n
        else if alias_type == token_type_use_value
        then parse_value u (drop n input) n
        else ok (u, n)

-- The fields that each kind has.
pub record IsToken (t : Token) : Type 0 where
  pub alias_type : IsVarint t.alias_type
  pub alias : IsVarint t.alias
  pub typ : IsVarint t.typ
