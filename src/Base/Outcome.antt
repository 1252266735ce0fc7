-- ===== src/Base/Outcome.antt =====
-- Go's `(value, error)` results, with the two ways in which a call does not return.
use Prim.Native.Nat.{ℕ}
use mathlib.Core.Path.{◌≡◌, refl}
use mathlib.Core.Logic.{◌⊎◌, inl, inr, ◌≢◌}
use mathlib.Core.Bool.{Bool, true, false}

-- The errors by which the code tells its callers what went wrong. `invalid_message_type` and
-- `invalid_stream_type` carry the number that the code formats into the message.
pub data Error : Type 0 where
  eof unexpected_eof : Error
  invalid_filter_type invalid_content_exists_byte invalid_group_order : Error
  invalid_forward_flag length_mismatch invalid_fetch_type : Error
  invalid_message_type invalid_stream_type : ℕ → Error
  control_message_too_large : Error

-- `panic` is a run-time panic; `hang` says that a loop has used up the rounds that the model
-- grants it.
pub data Result {ℓ} (A : Type ℓ) : Type ℓ where
  ok : A → Result A
  err : Error → Result A
  panic : Result A
  hang : Result A

infixl 5 ◌>>=◌
abbrev pub ◌>>=◌ {ℓ κ} : {X : Type ℓ} {Y : Type κ} → Result X → (X → Result Y) → Result Y
panic >>= next = panic
hang >>= next = hang
err e >>= next = err e
ok x >>= next = next x

-- `if b { return e }`
abbrev pub refuse : Bool → Error → Result (Unit {0})
refuse true e = err e
refuse false e = ok tt

infixl 5 ◌>>◌
abbrev pub ◌>>◌ {ℓ} : {Y : Type ℓ} → Result (Unit {0}) → Result Y → Result Y
first >> second = first >>= λ _. second

-- A call that returns has had its first part return.
pub >>=-eq-ok {ℓ κ} :
    {X : Type ℓ} {Y : Type κ} (r : Result X) (next : X → Result Y) {y : Y}
    → (r >>= next) ≡ ok y
    → (x : X) × (r ≡ ok x) × (next x ≡ ok y)
>>=-eq-ok panic next e = cc
>>=-eq-ok hang next e = cc
>>=-eq-ok (err _) next e = cc
>>=-eq-ok (ok x) next e = (x, refl, e)

pub >>=-neq-hang {ℓ κ} :
    {X : Type ℓ} {Y : Type κ} (r : Result X) (next : X → Result Y)
    → r ≢ hang
    → ((x : X) → r ≡ ok x → next x ≢ hang)
    → (r >>= next) ≢ hang
>>=-neq-hang panic next h k e = cc
>>=-neq-hang hang next h k e = absurd (h refl)
>>=-neq-hang (err _) next h k e = cc
>>=-neq-hang (ok x) next h k e = k x refl e

-- To split on a computed result and keep the equation.
pub Result-cases {ℓ} :
    {X : Type ℓ} (r : Result X)
    → ((x : X) × (r ≡ ok x)) ⊎ (((e : Error) × (r ≡ err e)) ⊎ ((r ≡ panic) ⊎ (r ≡ hang)))
Result-cases (ok x) = inl (x, refl)
Result-cases (err e) = inr (inl (e, refl))
Result-cases panic = inr (inr (inl refl))
Result-cases hang = inr (inr (inr refl))
