-- ===== src/Session/Announcements/Removal.antt =====
-- Removal of an announcement by its namespace: `delete` of announcement_map.go, on the maps that its
-- operations make.
use moqtransport_fec.Base.{
  ℕ, ◌≡◌, ◌≢◌, sym, ap, ◌∙◌, arith, Bool, true, false, List, [], ◌∷◌, none, some, inl, inr,
  Option-cases,
}
use mathlib.Core.List.{List-discrete, Memᴰ}
use native.Mathlib.Decide.{ℕ_discrete}
use moqtransport_fec.Base.Assoc.{lookup, insert, delete, lookup-delete, lookup-insert}
use moqtransport_fec.Session.Announcements.{
  Announcement, AnnouncementMap, Ranging, find_namespace, new_announcement_map, add,
  confirm_and_get, reject, delete_namespace,
}

module _ {A : Type 0} (namespace_of : A → List (List ℕ)) (namespace : List (List ℕ)) where
  -- What the search finds is there, and has the namespace.
  find_namespace-some :
      (xs : List (ℕ × A)) (a : A)
      → find_namespace namespace_of namespace xs ≡ some a
      → (j : ℕ) × Memᴰ (j, a) xs × (namespace ≡ namespace_of a)
  unfolding find_namespace
  find_namespace-some [] a e = cc
  find_namespace-some ((k, b) ∷ xs) a e =
      elim (List-discrete (List-discrete ℕ_discrete) namespace (namespace_of b))
          as (λ d.
            elim d [ yes _ ↦ some b | no _ ↦ find_namespace namespace_of namespace xs ] ≡ some a
            → (j : ℕ) × Memᴰ (j, a) ((k, b) ∷ xs) × (namespace ≡ namespace_of a)) [
              | yes p ↦ λ found.
                  let same : b ≡ a = cc in
                  (k, Memᴰ.head (λ i. (k, sym same i)), p ∙ ap namespace_of same)
              | no q ↦
                  λ found. let (j, h, p) = find_namespace-some xs a found in (j, Memᴰ.tail h, p)
            ]
        e

  -- What it does not find is not there.
  find_namespace-none :
      (xs : List (ℕ × A))
      → find_namespace namespace_of namespace xs ≡ none
      → (k : ℕ) (a : A) → Memᴰ (k, a) xs
      → namespace ≢ namespace_of a
  unfolding find_namespace
  find_namespace-none [] e k a h = elim h [ ]
  find_namespace-none ((j, b) ∷ xs) e k a h =
      elim (List-discrete (List-discrete ℕ_discrete) namespace (namespace_of b))
          as (λ d.
            elim d [ yes _ ↦ some b | no _ ↦ find_namespace namespace_of namespace xs ] ≡ none
            → namespace ≢ namespace_of a) [
              | yes p ↦ λ found. cc
              | no q ↦ λ found. elim h [
                | Memᴰ.head same ↦ λ p. q (p ∙ ap (λ (x : ℕ × A). namespace_of (x.1)) same)
                | Memᴰ.tail h' ↦ find_namespace-none xs found k a h'
              ]
            ]
        e

-- Every entry stands under its own request ID.
abbrev pub IsKeyed : List (ℕ × Announcement) → Type 0
IsKeyed m = (id : ℕ) (a : Announcement) → lookup id m ≡ some a → a.request_id ≡ id

-- No entry has the namespace.
abbrev pub Lacks : List (List ℕ) → List (ℕ × Announcement) → Type 0
Lacks namespace m = (id : ℕ) (a : Announcement) → lookup id m ≡ some a → namespace ≢ a.namespace

-- The map and the flag after the removal of a namespace: nothing changes where no entry has it; one
-- entry that has it goes; and a pending one goes before one that is confirmed.
pub data IsRemoval (m : AnnouncementMap) (namespace : List (List ℕ))
    : AnnouncementMap → Bool → Type 0 where
  unknown :
      Lacks namespace m.pending → Lacks namespace m.announcements → IsRemoval m namespace m false
  from_pending :
      (id : ℕ) (a : Announcement)
      → lookup id m.pending ≡ some a
      → namespace ≡ a.namespace
      → IsRemoval m namespace (record m { pending = delete id m.pending }) true
  from_announcements :
      (id : ℕ) (a : Announcement)
      → Lacks namespace m.pending
      → lookup id m.announcements ≡ some a
      → namespace ≡ a.namespace
      → IsRemoval m namespace (record m { announcements = delete id m.announcements }) true

pub data Op : Type 0 where
  added : Announcement → Op
  confirmed rejected : ℕ → Op
  removed : List (List ℕ) → Op

insert-IsKeyed :
    (a : Announcement) (m : List (ℕ × Announcement)) → IsKeyed m → IsKeyed (insert a.request_id a m)
insert-IsKeyed a m h id b e = ground (arith, lookup-insert a.request_id id a m, h id b)

insert_at-IsKeyed :
    (k : ℕ) (a : Announcement) (m : List (ℕ × Announcement))
    → a.request_id ≡ k
    → IsKeyed m
    → IsKeyed (insert k a m)
insert_at-IsKeyed k a m own h id b e = ground (arith, own, lookup-insert k id a m, h id b)

delete-IsKeyed : (k : ℕ) (m : List (ℕ × Announcement)) → IsKeyed m → IsKeyed (delete k m)
delete-IsKeyed k m h id b e = ground (arith, lookup-delete k id m, h id b)

-- In both maps.
pub record IsMap (m : AnnouncementMap) : Type 0 where
  pub pending : IsKeyed m.pending
  pub announcements : IsKeyed m.announcements

add-IsMap : (a : Announcement) (m : AnnouncementMap) → IsMap m → IsMap (add m a)
unfolding add
add-IsMap a m w = record {
  pending = insert-IsKeyed a m.pending w.pending;
  announcements = w.announcements;
}

confirm_and_get-IsMap : (m : AnnouncementMap) (id : ℕ) → IsMap m → IsMap ((confirm_and_get m id).0)
unfolding confirm_and_get
confirm_and_get-IsMap m id w = elim (Option-cases (lookup id m.pending)) [
  | inl e ↦ rw (confirm_and_get, e) w
  | inr (a, e) ↦
      rw (confirm_and_get, e)
        (record {
          pending = delete-IsKeyed id m.pending w.pending;
          announcements = insert_at-IsKeyed id a m.announcements (w.pending id a e) w.announcements;
        })
]

reject-IsMap : (m : AnnouncementMap) (id : ℕ) → IsMap m → IsMap ((reject m id).0)
unfolding reject
reject-IsMap m id w = elim (Option-cases (lookup id m.pending)) [
  | inl e ↦ rw (reject, e) w
  | inr (a, e) ↦
      rw (reject, e)
        (record {
          pending = delete-IsKeyed id m.pending w.pending;
          announcements = w.announcements;
        })
]

new_announcement_map-IsMap : IsMap new_announcement_map
unfolding new_announcement_map lookup
new_announcement_map-IsMap = record { pending = λ id a e. cc; announcements = λ id a e. cc }

module _ (r : Ranging Announcement) where
  unfoldable pub apply : List Op → AnnouncementMap → AnnouncementMap
  apply [] m = m
  apply (added a ∷ ops) m = apply ops (add m a)
  apply (confirmed id ∷ ops) m = apply ops ((confirm_and_get m id).0)
  apply (rejected id ∷ ops) m = apply ops ((reject m id).0)
  apply (removed namespace ∷ ops) m = apply ops ((delete_namespace r m namespace).0)

  -- The search, on a map.
  found :
      (m : List (ℕ × Announcement)) (namespace : List (List ℕ)) (a : Announcement)
      → IsKeyed m
      → find_namespace (λ (b : Announcement). b.namespace) namespace (r.range m) ≡ some a
      → (lookup a.request_id m ≡ some a) × (namespace ≡ a.namespace)
  found m namespace a h e =
      let (j, visited, same) =
        find_namespace-some (λ (b : Announcement). b.namespace) namespace (r.range m) a e in
      let there = r.visits_only m j a visited in (ap (λ k. lookup k m) (h j a there) ∙ there, same)

  not_found :
      (m : List (ℕ × Announcement)) (namespace : List (List ℕ))
      → find_namespace (λ (b : Announcement). b.namespace) namespace (r.range m) ≡ none
      → Lacks namespace m
  not_found m namespace e id a there =
      find_namespace-none (λ (b : Announcement). b.namespace) namespace (r.range m) e id a
        (r.visits_all m id a there)

  delete_namespace_lem :
      (m : AnnouncementMap) (namespace : List (List ℕ))
      → IsMap m
      → IsRemoval m namespace
          ((delete_namespace r m namespace).0)
          ((delete_namespace r m namespace).1)
  unfolding delete_namespace
  delete_namespace_lem m namespace w =
      elim (Option-cases
        (find_namespace (λ (b : Announcement). b.namespace) namespace (r.range m.pending))) [
          | inr (a, e) ↦
              rw (delete_namespace, e)
                (let (there, same) = found m.pending namespace a w.pending e in
                  from_pending a.request_id a there same)
          | inl e ↦
              elim (Option-cases (
                find_namespace (λ (b : Announcement). b.namespace) namespace
                  (r.range m.announcements))) [
                    | inr (a, e') ↦
                        rw (delete_namespace, e, e')
                          (let (there, same) =
                              found m.announcements namespace a w.announcements e' in
                            from_announcements a.request_id a (not_found m.pending namespace e)
                              there same)
                    | inl e' ↦
                        rw (delete_namespace, e, e')
                          (unknown (not_found m.pending namespace e)
                            (not_found m.announcements namespace e'))
                  ]
        ]

  removal-IsMap :
      {m m' : AnnouncementMap} {namespace : List (List ℕ)} {b : Bool}
      → IsRemoval m namespace m' b
      → IsMap m
      → IsMap m'
  removal-IsMap (unknown _ _) w = w
  removal-IsMap {m} (from_pending id a _ _) w = record {
    pending = delete-IsKeyed id m.pending w.pending;
    announcements = w.announcements;
  }
  removal-IsMap {m} (from_announcements id a _ _ _) w = record {
    pending = w.pending;
    announcements = delete-IsKeyed id m.announcements w.announcements;
  }

  apply-IsMap : (ops : List Op) (m : AnnouncementMap) → IsMap m → IsMap (apply ops m)
  unfolding apply
  apply-IsMap [] m w = w
  apply-IsMap (added a ∷ ops) m w = apply-IsMap ops (add m a) (add-IsMap a m w)
  apply-IsMap (confirmed id ∷ ops) m w = apply-IsMap ops _ (confirm_and_get-IsMap m id w)
  apply-IsMap (rejected id ∷ ops) m w = apply-IsMap ops _ (reject-IsMap m id w)
  apply-IsMap (removed namespace ∷ ops) m w =
      apply-IsMap ops _ (removal-IsMap (delete_namespace_lem m namespace w) w)

  -- After any calls on a new map, whatever the order in which Go visits a map's entries: `delete`
  -- returns false, and leaves the map as it is, if no announcement has the namespace; otherwise it
  -- returns true and removes one announcement with that namespace and nothing else, a confirmed one
  -- only if no pending one has the namespace.
  pub delete_namespace-apply :
      (ops : List Op) (namespace : List (List ℕ))
      → IsRemoval
          (apply ops new_announcement_map)
          namespace
          ((delete_namespace r (apply ops new_announcement_map) namespace).0)
          ((delete_namespace r (apply ops new_announcement_map) namespace).1)
  delete_namespace-apply ops namespace =
      delete_namespace_lem (apply ops new_announcement_map) namespace
        (apply-IsMap ops new_announcement_map new_announcement_map-IsMap)
