-- ===== src/Session/Ids.antt =====
-- request_id.go and sequence.go. The locks and the atomic addition make each call atomic.
pub mod Fresh
use moqtransport_fec.Base.{ℕ, ◌+◌, ◌-◌, ◌%◌, ◌^◌, Option, none, some, ltb, leb, if◌then◌else◌}
use moqtransport_fec.Session.Errors.{SessionError, request_id_blocked, max_request_id_decreased}

abbrev pub u64_mod : ℕ
u64_mod = 2 ^ 64

pub record RequestIdGenerator : Type 0 where
  pub id : ℕ
  pub max : ℕ
  pub interval : ℕ

unfoldable pub new_request_id_generator : ℕ → ℕ → ℕ → RequestIdGenerator
new_request_id_generator initial_id max_id interval = record {
  id = initial_id;
  max = max_id;
  interval = interval;
}

-- The generator after the call, the number that it returns, and the error.
unfoldable pub next : RequestIdGenerator → RequestIdGenerator × ℕ × Option SessionError
next g =
    if leb g.max g.id
    then (g, g.max, some request_id_blocked)
    else (record g { id = (g.id + g.interval) % u64_mod }, g.id, none)

unfoldable pub set_max : RequestIdGenerator → ℕ → RequestIdGenerator × Option SessionError
set_max g v =
    if ltb v g.max then (g, some max_request_id_decreased) else (record g { max = v }, none)

pub record Sequence : Type 0 where
  pub last : ℕ
  pub interval : ℕ

-- s.last.Add(s.interval) - s.interval
unfoldable pub next_in_sequence : Sequence → Sequence × ℕ
next_in_sequence s =
    let last = (s.last + s.interval) % u64_mod in
    (record s { last = last }, (last + u64_mod - s.interval) % u64_mod)
