-- ===== src/Wire/Env.antt =====
-- What internal/wire takes from outside the repository: quic-go's package quicvarint, and the
-- limit of Go's run time on the length of a new slice.
use moqtransport_fec.Base.{
  ℕ, ◌^◌, ◌≤◌, ◌<◌, ◌≡◌, ◌≢◌, ap, List, [], ◌++◌, arith, ltb, length, drop, drop-length,
  length-drop, Result, ok, err, panic, hang, eof, ◌>>=◌, >>=-eq-ok, if◌then◌else◌,
}

-- `maxVarInt8` of quicvarint: larger numbers have no encoding.
abbrev pub IsVarint : ℕ → Type 0
IsVarint v = v < 2 ^ 62

-- A slice of bytes is a list. The laws are quicvarint's documentation: `Append` appends the
-- encoding, whose length is `Len`; `Parse` reads one number and says how many bytes it took; and
-- `Read` takes one from a reader, or returns an error. They ask nothing of numbers without an encoding, on which
-- `Append` and `Len` panic.
pub record Env : Type 0 where
  pub append : List ℕ → ℕ → List ℕ
  pub len : ℕ → ℕ
  pub parse : List ℕ → Result (ℕ × ℕ)
  pub read : List ℕ → Result (ℕ × List ℕ)
  pub make_limit : ℕ
  pub append_buf : (buf : List ℕ) (v : ℕ) → append buf v ≡ buf ++ append [] v
  pub len-append : (v : ℕ) → IsVarint v → len v ≡ length (append [] v)
  pub parse-append :
      (v : ℕ) (rest : List ℕ)
      → IsVarint v
      → parse (append [] v ++ rest) ≡ ok (v, length (append [] v))
  pub parse_bounds :
      (input : List ℕ) (v n : ℕ)
      → parse input ≡ ok (v, n)
      → IsVarint v × (1 ≤ n) × (n ≤ length input)
  pub read-append : (v : ℕ) (rest : List ℕ) → IsVarint v → read (append [] v ++ rest) ≡ ok (v, rest)
  pub read_empty : read [] ≡ err eof
  pub read_bounds :
      (input : List ℕ) (v : ℕ) (rest : List ℕ)
      → read input ≡ ok (v, rest)
      → IsVarint v × (length rest < length input)
  pub read_ends : (input : List ℕ) → read input ≢ hang

module _ (env : Env) where
  -- The bytes of one number.
  unfoldable pub encode : ℕ → List ℕ
  encode v = env.append [] v

  pub append-encode : (buf : List ℕ) (v : ℕ) → env.append buf v ≡ buf ++ encode v
  unfolding encode
  append-encode buf v = env.append_buf buf v

  pub len-encode : (v : ℕ) → IsVarint v → env.len v ≡ length (encode v)
  unfolding encode
  len-encode v h = env.len-append v h

  pub parse-encode :
      (v : ℕ) (rest : List ℕ)
      → IsVarint v
      → env.parse (encode v ++ rest) ≡ ok (v, length (encode v))
  unfolding encode
  parse-encode v rest h = env.parse-append v rest h

  pub encode-pos : (v : ℕ) → IsVarint v → 1 ≤ length (encode v)
  unfolding encode
  encode-pos v h = (env.parse_bounds (env.append [] v ++ []) v _ (env.parse-append v [] h)).1

  pub read-encode :
      (v : ℕ) (rest : List ℕ) → IsVarint v → env.read (encode v ++ rest) ≡ ok (v, rest)
  unfolding encode
  read-encode v rest h = env.read-append v rest h

  -- x, n, err = quicvarint.Parse(data); if err != nil { return err }; data = data[n:]
  unfoldable pub take_varint : List ℕ → Result (ℕ × List ℕ)
  take_varint input = do (v, n) ← env.parse input; ok (v, drop n input)

  pub take_varint-encode :
      (v : ℕ) (rest : List ℕ) → IsVarint v → take_varint (encode v ++ rest) ≡ ok (v, rest)
  unfolding take_varint encode
  take_varint-encode v rest h =
      rw (env.parse-append v rest h) (ap (λ r. ok (v, r)) (drop-length (env.append [] v) rest))

  -- A number takes up at least one byte.
  pub take_varint_shrinks :
      (input : List ℕ) (v : ℕ) (rest : List ℕ)
      → take_varint input ≡ ok (v, rest)
      → IsVarint v × (length rest < length input)
  unfolding take_varint
  take_varint_shrinks input v rest e =
      let ((w, n), p, q) = >>=-eq-ok (env.parse input) _ e in
      ground (arith, env.parse_bounds input w n, length-drop n input)

  -- make([]T, n), which panics beyond the limit
  unfoldable pub make : ℕ → Result (Unit {0})
  make n = if ltb env.make_limit n then panic else ok tt

  pub make_lem : (n : ℕ) → n ≤ env.make_limit → make n ≡ ok tt
  unfolding make
  make_lem n h = ground arith
