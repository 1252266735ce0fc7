-- ===== src/Session/Streams/Reading.antt =====
-- What an application reads from a remote track: ReadObject of remote_track.go, call after call.
use moqtransport_fec.Base.{
  ℕ, zero, suc, ◌≡◌, refl, ap, ◌∙◌, arith, true, false, List, [], ◌∷◌, ◌++◌, Option, none, some,
  length, Option-cases, inl, inr,
}
use moqtransport_fec.Session.Streams.Delivery.{delivered}
use moqtransport_fec.Session.Streams.{
  Object, Reception, Selection, context_done, track_done, object_arrived, ReadResult, context_error,
  subscribe_done_error, read, read_object,
}

-- Calls, given by the cases that their selects take. A case that is not ready is not taken: such a call
-- is left out.
unfoldable pub read_calls :
    Option (ℕ × List ℕ) → List Selection → Reception → Reception × List ReadResult
read_calls finished [] t = (t, [])
read_calls finished (c ∷ cs) t = elim (read_object c t finished) [
  | none ↦ read_calls finished cs t
  | some (t', r) ↦ let (t'', rs) = read_calls finished cs t' in (t'', r ∷ rs)
]

-- The objects among the results.
unfoldable pub objects_of : List ReadResult → List Object
objects_of [] = []
objects_of (read o late ∷ rs) = o ∷ objects_of rs
objects_of (_ ∷ rs) = objects_of rs

-- So many calls whose select takes the case of the object.
abbrev pub arrivals : ℕ → List Selection
arrivals zero = []
arrivals (suc n) = object_arrived ∷ arrivals n

-- The objects as ReadObject returns them, with an error if the track is done.
abbrev pub results : Option (ℕ × List ℕ) → List Object → List ReadResult
results finished [] = []
results finished (o ∷ os) =
    read o (elim finished [ none ↦ false | some _ ↦ true ]) ∷ results finished os

-- A call takes at most the first object, and returns it.
read_object_lem :
    (c : Selection) (finished : Option (ℕ × List ℕ)) (t t' : Reception) (r : ReadResult)
    → read_object c t finished ≡ some (t', r)
    → t.buffer ≡ objects_of (r ∷ []) ++ t'.buffer
unfolding read_object objects_of
read_object_lem context_done finished t t' r e = ground arith
read_object_lem track_done none t t' r e = ground arith
read_object_lem track_done (some (status, reason)) t t' r e = ground arith
read_object_lem object_arrived finished t t' r e = ground arith

objects_of-step :
    (r : ReadResult) (rs : List ReadResult) (left : List Object)
    → objects_of (r ∷ []) ++ (objects_of rs ++ left) ≡ objects_of (r ∷ rs) ++ left
unfolding objects_of
objects_of-step context_error rs left = refl
objects_of-step (subscribe_done_error status reason) rs left = refl
objects_of-step (read o late) rs left = refl

-- Calls of any cases take the buffer in order: what they return, and then what is left.
pub read_calls-buffer :
    (finished : Option (ℕ × List ℕ)) (cs : List Selection) (t : Reception)
    → t.buffer ≡ objects_of (read_calls finished cs t).1 ++ (read_calls finished cs t).0.buffer
unfolding read_calls objects_of
read_calls-buffer finished [] t = refl
read_calls-buffer finished (c ∷ cs) t = elim (Option-cases (read_object c t finished)) [
  | inl f ↦ rw (read_calls, f) (read_calls-buffer finished cs t)
  | inr ((t', r), f) ↦
      rw (read_calls, f)
        (read_object_lem c finished t t' r f
          ∙ ap (λ b. objects_of (r ∷ []) ++ b) (read_calls-buffer finished cs t')
          ∙ objects_of-step r (read_calls finished cs t').1 (read_calls finished cs t').0.buffer)
]

-- Calls that each find an object return the buffer in order, and leave what stands behind.
pub read_calls-arrivals :
    (finished : Option (ℕ × List ℕ)) (os rest : List Object) (t : Reception)
    → t.buffer ≡ os ++ rest
    → read_calls finished (arrivals (length os)) t
      ≡ (record t { buffer = rest }, results finished os)
unfolding read_calls read_object
read_calls-arrivals finished [] rest t e = ap (λ b. (record t { buffer = b }, [])) e
read_calls-arrivals finished (o ∷ os) rest t e =
    rw (read_calls, read_object, e)
      (rw (read_calls-arrivals finished os rest (record t { buffer = os ++ rest }) refl) refl)

pub length-delivered :
    (group subgroup : ℕ) (os : List (ℕ × List ℕ)) → length (delivered group subgroup os) ≡ length os
length-delivered group subgroup [] = refl
length-delivered group subgroup ((id, payload) ∷ os) = ap suc (length-delivered group subgroup os)
