-- ===== src/Session/Ids/Fresh.antt =====
-- The generators of request_id.go and sequence.go over histories of calls.
use moqtransport_fec.Base.{
  ℕ, ◌+◌, ◌%◌, ◌^◌, ◌≤◌, ◌<◌, ◌≡◌, refl, arith, List, [], ◌∷◌, ◌++◌, sym, none, some, leb, All,
  Bool-cases, Option-cases, inl, inr, ◌⊎◌,
}
use mathlib.Core.Path.{subst}
use moqtransport_fec.Session.Errors.{request_id_blocked}
use moqtransport_fec.Session.Ids.{
  RequestIdGenerator, next, set_max, Sequence, next_in_sequence, u64_mod,
}

-- What a session does with its generator: it takes a number, or the peer announces a new maximum.
pub data Call : Type 0 where
  take_next : Call
  announce_max : ℕ → Call

-- The numbers that are issued, in order.
unfoldable pub issued : RequestIdGenerator → List Call → List ℕ
issued g [] = []
issued g (take_next ∷ cs) =
    let rest = issued (next g).0 cs in elim (next g).2 [ none ↦ (next g).1 ∷ rest | some _ ↦ rest ]
issued g (announce_max v ∷ cs) = issued (set_max g v).0 cs

-- A maximum that the peer sends is a variable-length integer.
abbrev pub IsCall : Call → Type 0
IsCall take_next = Unit {0}
IsCall (announce_max v) = v < 2 ^ 62

-- Every number is at least `lo`, larger than the one before it, and of the same parity as `lo`.
abbrev pub IsSpread : ℕ → List ℕ → Type 0
IsSpread lo [] = Unit {0}
IsSpread lo (x ∷ xs) = (lo ≤ x) × (x % 2 ≡ lo % 2) × IsSpread (x + 2) xs

pub record IsGenerator (g : RequestIdGenerator) : Type 0 where
  pub interval : g.interval ≡ 2
  pub id : g.id < 2 ^ 62 + 2
  pub max : g.max < 2 ^ 62

next-IsGenerator : {g : RequestIdGenerator} → IsGenerator g → IsGenerator (next g).0
unfolding next
next-IsGenerator v = ground arith

set_max-IsGenerator :
    {g : RequestIdGenerator} (v : ℕ) → v < 2 ^ 62 → IsGenerator g → IsGenerator (set_max g v).0
unfolding set_max
set_max-IsGenerator v h w = ground arith

set_max_id : (g : RequestIdGenerator) (v : ℕ) → (set_max g v).0.id ≡ g.id
unfolding set_max
set_max_id g v = ground arith

next_cases :
    (g : RequestIdGenerator)
    → IsGenerator g
    → (((next g).2 ≡ some request_id_blocked) × ((next g).0.id ≡ g.id))
      ⊎ (((next g).2 ≡ none) × ((next g).1 ≡ g.id) × ((next g).0.id ≡ g.id + 2))
unfolding next
next_cases g w = elim (Bool-cases (leb g.max g.id)) [
  | inl full ↦ inl (ground arith)
  | inr free ↦ inr (ground arith)
]

-- In any history of calls with maxima below 2^62, a generator with interval 2 issues numbers that
-- grow, by two at least, from its first one on, and all have the parity of that one: so none is issued
-- twice.
pub issued-IsSpread :
    (g : RequestIdGenerator) (cs : List Call)
    → IsGenerator g
    → All IsCall cs
    → IsSpread g.id (issued g cs)
unfolding issued
issued-IsSpread g [] w h = tt
issued-IsSpread g (take_next ∷ cs) w (_, hs) =
    let more = issued-IsSpread (next g).0 cs (next-IsGenerator w) hs in
    elim (next_cases g w) [
      | inl (blocked, same) ↦
          rw (blocked, issued) (subst (λ n. IsSpread n (issued (next g).0 cs)) same more)
      | inr (free, taken, moved) ↦
          rw (free, issued, taken)
            (omega arith, refl, subst (λ n. IsSpread n (issued (next g).0 cs)) moved more)
    ]
issued-IsSpread g (announce_max v ∷ cs) w (h, hs) =
    subst (λ n. IsSpread n (issued (set_max g v).0 cs)) (set_max_id g v)
      (issued-IsSpread (set_max g v).0 cs (set_max-IsGenerator v h w) hs)

-- The generator after a history of calls.
pub run : RequestIdGenerator → List Call → RequestIdGenerator
run g [] = g
run g (take_next ∷ cs) = run (next g).0 cs
run g (announce_max v ∷ cs) = run (set_max g v).0 cs

max_grows : (g : RequestIdGenerator) (cs : List Call) → g.max ≤ (run g cs).max
unfolding run next set_max
max_grows g [] = omega arith
max_grows g (take_next ∷ cs) = ground (arith, max_grows (next g).0 cs)
max_grows g (announce_max v ∷ cs) = ground (arith, max_grows (set_max g v).0 cs)

run-append : (g : RequestIdGenerator) (cs ds : List Call) → run g (cs ++ ds) ≡ run (run g cs) ds
unfolding run
run-append g [] ds = refl
run-append g (take_next ∷ cs) ds = run-append (next g).0 cs ds
run-append g (announce_max v ∷ cs) ds = run-append (set_max g v).0 cs ds

next-lt-max :
    (g : RequestIdGenerator) → ((next g).2 ≡ none) → ((next g).1 < g.max) × ((next g).0.max ≡ g.max)
unfolding next
next-lt-max g h = ground arith

issued-below :
    (g : RequestIdGenerator) (cs : List Call) → All (λ n. n < (run g cs).max) (issued g cs)
unfolding issued run
issued-below g [] = tt
issued-below g (take_next ∷ cs) =
    let more = issued-below (next g).0 cs in
    elim (Option-cases (next g).2) [
      | inl e ↦
          let grows = max_grows (next g).0 cs in
          let below = next-lt-max g e in rw (e, issued) (ground arith, more)
      | inr (w, e) ↦ rw (e, issued) more
    ]
issued-below g (announce_max v ∷ cs) = issued-below (set_max g v).0 cs

-- In any history of calls, also one in which the peer tries to lower the maximum, the maximum never
-- falls: it is at most the one at the end of any longer history. Every number that is issued is below
-- the maximum at the end.
pub issued-lt-max :
    (g : RequestIdGenerator) (cs ds : List Call)
    → ((run g cs).max ≤ (run g (cs ++ ds)).max) × All (λ n. n < (run g cs).max) (issued g cs)
issued-lt-max g cs ds = (
  subst (λ h. (run g cs).max ≤ h.max) (sym (run-append g cs ds)) (max_grows (run g cs) ds),
  issued-below g cs,
)

-- `sequence.next` returns the number that it stood at, and moves on by the interval, modulo 2^64.
pub next_in_sequence_lem :
    (s : Sequence)
    → s.last < u64_mod
    → s.interval < u64_mod
    → next_in_sequence s ≡ (record s { last = (s.last + s.interval) % u64_mod }, s.last)
unfolding next_in_sequence
next_in_sequence_lem s h k = ground arith
