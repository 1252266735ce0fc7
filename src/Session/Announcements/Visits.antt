-- ===== src/Session/Announcements/Visits.antt =====
-- One order in which Go may visit the entries of a map: the latest first, each key once.
use moqtransport_fec.Base.{
  ℕ, ◌≡◌, ◌≢◌, sym, ap, ◌∙◌, arith, true, false, List, [], ◌∷◌, some, ◌==◌, ==-refl, Bool-cases,
  inl, inr,
}
use mathlib.Core.List.{Memᴰ}
use moqtransport_fec.Base.Assoc.{lookup, delete}
use moqtransport_fec.Session.Announcements.{Ranging}

differ : (i j : ℕ) → i ≢ j → (i == j) ≡ false
differ i j n = ground arith

same : (j k : ℕ) → (j == k) ≡ true → k ≡ j
same j k e = ground arith

module _ {A : Type 0} where
  unfoldable pub visited : List (ℕ × A) → List (ℕ × A)
  visited [] = []
  visited ((k, a) ∷ m) = (k, a) ∷ delete k (visited m)

  mem-delete :
      (j k : ℕ) (a : A) (m : List (ℕ × A)) → Memᴰ (k, a) (delete j m) → (j ≢ k) × Memᴰ (k, a) m
  unfolding delete
  mem-delete j k a [] h = elim h [ ]
  mem-delete j k a ((i, b) ∷ m) h = elim (Bool-cases (i == j)) [
    | inl e ↦ let (n, h') = mem-delete j k a m (rw (delete, e) at h) in (n, Memᴰ.tail h')
    | inr e ↦ elim (rw (delete, e) at h) [
      | Memᴰ.head p ↦ (λ q. ground (arith, ap (λ (x : ℕ × A). x.0) p), Memᴰ.head p)
      | Memᴰ.tail t ↦ let (n, t') = mem-delete j k a m t in (n, Memᴰ.tail t')
    ]
  ]

  delete-mem :
      (j k : ℕ) (a : A) (m : List (ℕ × A)) → j ≢ k → Memᴰ (k, a) m → Memᴰ (k, a) (delete j m)
  unfolding delete
  delete-mem j k a [] n h = elim h [ ]
  delete-mem j k a ((i, b) ∷ m) n (Memᴰ.head p) =
      rw (differ i j (λ q. n (sym (ap (λ (x : ℕ × A). x.0) p ∙ q)))) (Memᴰ.head p)
  delete-mem j k a ((i, b) ∷ m) n (Memᴰ.tail h) = elim (Bool-cases (i == j)) [
    | inl e ↦ rw e (delete-mem j k a m n h)
    | inr e ↦ rw e (Memᴰ.tail (delete-mem j k a m n h))
  ]

  visited-only : (m : List (ℕ × A)) (k : ℕ) (a : A) → Memᴰ (k, a) (visited m) → lookup k m ≡ some a
  unfolding visited lookup
  visited-only [] k a h = elim h [ ]
  visited-only ((j, b) ∷ m) k a (Memᴰ.head p) =
      rw (sym (ap (λ (x : ℕ × A). x.0) p), ==-refl k) (ap (λ (x : ℕ × A). some (x.1)) (sym p))
  visited-only ((j, b) ∷ m) k a (Memᴰ.tail h) =
      let (n, h') = mem-delete j k a (visited m) h in ground (arith, visited-only m k a h')

  visited-all : (m : List (ℕ × A)) (k : ℕ) (a : A) → lookup k m ≡ some a → Memᴰ (k, a) (visited m)
  unfolding visited lookup
  visited-all [] k a e = cc
  visited-all ((j, b) ∷ m) k a e = elim (Bool-cases (j == k)) [
    | inl e' ↦ let own : a ≡ b = ground arith in Memᴰ.head (λ i. (same j k e' i, own i))
    | inr e' ↦
        Memᴰ.tail
          (delete-mem j k a (visited m) (λ q. ground arith) (visited-all m k a (ground arith)))
  ]

  pub latest_first : Ranging A
  latest_first = record { range = visited; visits_only = visited-only; visits_all = visited-all }
