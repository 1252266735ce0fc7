-- ===== src/Wire/Quic.antt =====
-- The variable-length integers of QUIC (RFC 9000, section 16), as an example of what the wire code
-- takes from outside. The theorems hold for every `Env`; the tests and witnesses run on this one.
use moqtransport_fec.Base.{
  ℕ, zero, suc, ◌+◌, ◌*◌, ◌/◌, ◌%◌, ◌^◌, ◌≤◌, ◌<◌, ◌≡◌, refl, ap, List, [], ◌∷◌, ◌++◌, arith, ltb,
  ◌==◌, length, drop, drop-length, length-drop, length-append, Result, ok, err, eof, unexpected_eof,
  ◌>>=◌, >>=-eq-ok, >>=-neq-hang, hang, ◌≢◌, if◌then◌else◌, append_assoc, Bool-cases, inl, inr,
  ltb→lt,
}
use moqtransport_fec.Wire.Env.{Env, IsVarint}

-- The first byte has the two bits of the length and the top of the number; `low` are the others.
top : ℕ → ℕ → ℕ
top zero v = v
top (suc k) v = top k (v / 256)

low : ℕ → ℕ → List ℕ
low zero v = []
low (suc k) v = low k (v / 256) ++ (v % 256 ∷ [])

tagged : ℕ → ℕ → ℕ → List ℕ
tagged t k v = (t * 64 + top k v) ∷ low k v

pub bytes_of : ℕ → List ℕ
unfolding top low tagged
bytes_of v =
    if ltb v 0x40
    then tagged 0 0 v
    else if ltb v 0x4000
    then tagged 1 1 v
    else if ltb v 0x4000_0000
    then tagged 2 3 v
    else tagged 3 7 v

rest_of : ℕ → ℕ → List ℕ → Result ℕ
rest_of acc zero input = ok acc
rest_of acc (suc k) [] = err unexpected_eof
rest_of acc (suc k) (b ∷ input) = rest_of (acc * 256 + b % 256) k input

extra : ℕ → ℕ
extra t = if t == 0 then 0 else if t == 1 then 1 else if t == 2 then 3 else 7

pub parse_number : List ℕ → Result (ℕ × ℕ)
unfolding rest_of extra
parse_number [] = err eof
parse_number (b ∷ input) = do
  v ← rest_of (b % 64) (extra (b / 64)) input
  ok (v, suc (extra (b / 64)))

pub read_number : List ℕ → Result (ℕ × List ℕ)
unfolding parse_number
read_number input = do (v, n) ← parse_number input; ok (v, drop n input)

rest_of-low :
    (k j v : ℕ) (rest : List ℕ) → rest_of (top k v) (k + j) (low k v ++ rest) ≡ rest_of v j rest
unfolding top low rest_of
rest_of-low zero j v rest = rw zero_plus
  where
    zero_plus : 0 + j ≡ j
    zero_plus = omega arith
rest_of-low (suc k) j v rest =
    rw (append_assoc, plus_suc, rest_of-low k (suc j) (v / 256) (v % 256 ∷ rest), whole)
  where
    plus_suc : suc k + j ≡ k + suc j
    plus_suc = omega arith

    whole : v / 256 * 256 + v % 256 % 256 ≡ v
    whole = omega arith

length-low : (k v : ℕ) → length (low k v) ≡ k
unfolding low
length-low zero v = refl
length-low (suc k) v =
    omega (arith, length-append (low k (v / 256)) (v % 256 ∷ []), length-low k (v / 256))

-- A tagged number is read back.
parse-tagged :
    (t k v : ℕ) (rest : List ℕ)
    → top k v < 64
    → extra t ≡ k
    → parse_number (tagged t k v ++ rest) ≡ ok (v, length (tagged t k v))
unfolding parse_number tagged
parse-tagged t k v rest small e = rw (tag, bits, e, read, length-low k v)
  where
    tag : (t * 64 + top k v) / 64 ≡ t
    tag = omega arith

    bits : (t * 64 + top k v) % 64 ≡ top k v
    bits = omega arith

    plus_zero : k + 0 ≡ k
    plus_zero = omega arith

    read : rest_of (top k v) k (low k v ++ rest) ≡ ok v
    read = rw plus_zero at (rest_of-low k 0 v rest)

-- The tops of numbers that fit.
small_tops :
    (v : ℕ)
    → (v < 0x40 → top 0 v < 64)
      × (v < 0x4000 → top 1 v < 64)
      × (v < 0x4000_0000 → top 3 v < 64)
      × (v < 2 ^ 62 → top 7 v < 64)
unfolding top
small_tops v = (λ h. h, λ h. omega arith, λ h. omega arith, λ h. omega arith)

pub parse-bytes_of :
    (v : ℕ) (rest : List ℕ)
    → IsVarint v
    → parse_number (bytes_of v ++ rest) ≡ ok (v, length (bytes_of v))
unfolding bytes_of extra
parse-bytes_of v rest h =
    let (s0, s1, s3, s7) = small_tops v in
    elim (Bool-cases (ltb v 0x40)) [
      | inl a ↦ rw a (parse-tagged 0 0 v rest (s0 (ltb→lt _ _ a)) refl)
      | inr a ↦ rw a (elim (Bool-cases (ltb v 0x4000)) [
        | inl b ↦ rw b (parse-tagged 1 1 v rest (s1 (ltb→lt _ _ b)) refl)
        | inr b ↦ rw b (elim (Bool-cases (ltb v 0x4000_0000)) [
          | inl d ↦ rw d (parse-tagged 2 3 v rest (s3 (ltb→lt _ _ d)) refl)
          | inr d ↦ rw d (parse-tagged 3 7 v rest (s7 h) refl)
        ])
      ])
    ]

-- A bound on what `k` more bytes make of `acc`.
up : ℕ → ℕ → ℕ
up zero acc = suc acc
up (suc k) acc = up k (acc * 256 + 255)

rest_of_bounds :
    (k acc most : ℕ) (input : List ℕ) (v : ℕ)
    → acc ≤ most
    → rest_of acc k input ≡ ok v
    → (v < up k most) × (k ≤ length input)
unfolding up rest_of
rest_of_bounds zero acc most input v h e = ground arith
rest_of_bounds (suc k) acc most [] v h e = cc
rest_of_bounds (suc k) acc most (b ∷ input) v h e =
    let (lt, le) =
      rest_of_bounds k (acc * 256 + b % 256) (most * 256 + 255) input v (omega arith) e in
    (lt, omega arith)

up_small : (t : ℕ) → up (extra t) 63 ≤ 2 ^ 62
unfolding up extra
up_small t = ground arith

pub parse_number_bounds :
    (input : List ℕ) (v n : ℕ)
    → parse_number input ≡ ok (v, n)
    → IsVarint v × (1 ≤ n) × (n ≤ length input)
unfolding parse_number
parse_number_bounds [] v n e = cc
parse_number_bounds (b ∷ input) v n e =
    let (w, p, q) = >>=-eq-ok (rest_of (b % 64) (extra (b / 64)) input) _ e in
    ground (
      arith,
      up_small (b / 64),
      rest_of_bounds (extra (b / 64)) (b % 64) 63 input w (omega arith) p,
    )

pub read-bytes_of :
    (v : ℕ) (rest : List ℕ) → IsVarint v → read_number (bytes_of v ++ rest) ≡ ok (v, rest)
unfolding read_number
read-bytes_of v rest h =
    rw (parse-bytes_of v rest h) (ap (λ r. ok (v, r)) (drop-length (bytes_of v) rest))

pub read_empty : read_number [] ≡ err eof
unfolding read_number parse_number
read_empty = refl

pub read_number_bounds :
    (input : List ℕ) (v : ℕ) (rest : List ℕ)
    → read_number input ≡ ok (v, rest)
    → IsVarint v × (length rest < length input)
unfolding read_number
read_number_bounds input v rest e =
    let ((w, n), p, q) = >>=-eq-ok (parse_number input) _ e in
    ground (arith, parse_number_bounds input w n, length-drop n input)

rest_of_ends : (acc k : ℕ) (input : List ℕ) → rest_of acc k input ≢ hang
unfolding rest_of
rest_of_ends acc zero input e = cc
rest_of_ends acc (suc k) [] e = cc
rest_of_ends acc (suc k) (b ∷ input) e = rest_of_ends (acc * 256 + b % 256) k input e

parse_number_ends : (input : List ℕ) → parse_number input ≢ hang
unfolding parse_number
parse_number_ends [] e = cc
parse_number_ends (b ∷ input) e =
    >>=-neq-hang (rest_of (b % 64) (extra (b / 64)) input) _
      (rest_of_ends (b % 64) (extra (b / 64)) input) (λ v e e'. cc) e

pub read_number_ends : (input : List ℕ) → read_number input ≢ hang
unfolding read_number
read_number_ends input =
    >>=-neq-hang (parse_number input) _ (parse_number_ends input) (λ x e e'. cc)

unfoldable pub quic : Env
unfolding bytes_of parse_number read_number
quic = record {
  append = λ buf v. buf ++ bytes_of v;
  len = λ v. length (bytes_of v);
  parse = parse_number;
  read = read_number;
  make_limit = 2 ^ 47;
  append_buf = λ buf v. refl;
  len-append = λ v h. refl;
  parse-append = parse-bytes_of;
  parse_bounds = parse_number_bounds;
  read-append = read-bytes_of;
  read_empty = read_empty;
  read_bounds = read_number_bounds;
  read_ends = read_number_ends;
}
