-- ===== src/Session/Announcements.antt =====
-- announcement_map.go, announcement_subscription_map.go and track_status_request_map.go, with the
-- entries of announcement.go, announcement_subscription.go and track_status_request.go. The locks
-- make each call atomic. The channel of an entry stands with the session, not here.
pub mod Removal
pub mod Visits
use moqtransport_fec.Base.{
  ℕ, ◌≡◌, Bool, true, false, List, [], ◌∷◌, Option, none, some, ◌⊎◌, inl, inr,
}
use mathlib.Core.List.{List-discrete, Memᴰ}
use native.Mathlib.Decide.{ℕ_discrete}
use moqtransport_fec.Base.Assoc.{lookup, insert, delete}
use moqtransport_fec.Wire.Params.{KeyValuePair}
use moqtransport_fec.Session.Errors.{SessionError, unknown_announcement}

pub record Announcement : Type 0 where
  pub request_id : ℕ
  pub namespace : List (List ℕ)
  pub parameters : List KeyValuePair

pub record AnnouncementSubscription : Type 0 where
  pub request_id : ℕ
  pub namespace : List (List ℕ)

pub record TrackStatusRequest : Type 0 where
  pub request_id : ℕ
  pub namespace : List (List ℕ)
  pub trackname : List ℕ

pub record AnnouncementMap : Type 0 where
  pub pending : List (ℕ × Announcement)
  pub announcements : List (ℕ × Announcement)

abbrev pub AnnouncementSubscriptionMap : Type 0
AnnouncementSubscriptionMap = List (ℕ × AnnouncementSubscription)

abbrev pub TrackStatusRequestMap : Type 0
TrackStatusRequestMap = List (ℕ × TrackStatusRequest)

-- Go's `range` over a map: each entry is visited, in an order that is not specified.
pub record Ranging (A : Type 0) : Type 0 where
  pub range : List (ℕ × A) → List (ℕ × A)
  pub visits_only : (m : List (ℕ × A)) (k : ℕ) (a : A) → Memᴰ (k, a) (range m) → lookup k m ≡ some a
  pub visits_all : (m : List (ℕ × A)) (k : ℕ) (a : A) → lookup k m ≡ some a → Memᴰ (k, a) (range m)

-- The loop of findAnnouncement and of findAnnouncementSubscription over the entries in the order of
-- the visit; `slices.Equal` compares the namespaces.
unfoldable pub find_namespace :
    {A : Type 0} → (A → List (List ℕ)) → List (List ℕ) → List (ℕ × A) → Option A
find_namespace namespace_of namespace [] = none
find_namespace namespace_of namespace ((k, a) ∷ rest) =
    elim (List-discrete (List-discrete ℕ_discrete) namespace (namespace_of a)) [
      | yes _ ↦ some a
      | no _ ↦ find_namespace namespace_of namespace rest
    ]

unfoldable pub new_announcement_map : AnnouncementMap
new_announcement_map = record { pending = []; announcements = [] }

unfoldable pub add : AnnouncementMap → Announcement → AnnouncementMap
add m a = record m { pending = insert a.request_id a m.pending }

unfoldable pub confirm_and_get :
    AnnouncementMap → ℕ → AnnouncementMap × (SessionError ⊎ Announcement)
confirm_and_get m id = elim (lookup id m.pending) [
  | none ↦ (m, inl unknown_announcement)
  | some a ↦
      (record { pending = delete id m.pending; announcements = insert id a m.announcements }, inr a)
]

unfoldable pub reject : AnnouncementMap → ℕ → AnnouncementMap × Option Announcement
reject m id = elim (lookup id m.pending) [
  | none ↦ (m, none)
  | some a ↦ (record m { pending = delete id m.pending }, some a)
]

unfoldable pub delete_namespace :
    Ranging Announcement → AnnouncementMap → List (List ℕ) → AnnouncementMap × Bool
delete_namespace r m namespace =
    elim (find_namespace (λ (a : Announcement). a.namespace) namespace (r.range m.pending)) [
      | some a ↦ (record m { pending = delete a.request_id m.pending }, true)
      | none ↦
          elim (find_namespace (λ (a : Announcement). a.namespace) namespace
            (r.range m.announcements)) [
              | some a ↦ (record m { announcements = delete a.request_id m.announcements }, true)
              | none ↦ (m, false)
            ]
    ]

unfoldable pub new_announcement_subscription_map : AnnouncementSubscriptionMap
new_announcement_subscription_map = []

unfoldable pub add_subscription :
    AnnouncementSubscriptionMap → AnnouncementSubscription → AnnouncementSubscriptionMap
add_subscription m a = insert a.request_id a m

unfoldable pub delete_subscription :
    Ranging AnnouncementSubscription
    → AnnouncementSubscriptionMap
    → List (List ℕ)
    → AnnouncementSubscriptionMap × Option AnnouncementSubscription
delete_subscription r m namespace =
    elim (find_namespace (λ (a : AnnouncementSubscription). a.namespace) namespace (r.range m)) [
      | some a ↦ (delete a.request_id m, some a)
      | none ↦ (m, none)
    ]

unfoldable pub delete_by_id :
    AnnouncementSubscriptionMap → ℕ → AnnouncementSubscriptionMap × Option AnnouncementSubscription
delete_by_id m id = (delete id m, lookup id m)

unfoldable pub new_track_status_request_map : TrackStatusRequestMap
new_track_status_request_map = []

unfoldable pub add_request : TrackStatusRequestMap → TrackStatusRequest → TrackStatusRequestMap
add_request m tsr = insert tsr.request_id tsr m

-- What is deleted stays in the map.
unfoldable pub delete_request :
    TrackStatusRequestMap → ℕ → TrackStatusRequestMap × Option TrackStatusRequest
delete_request m id = (m, lookup id m)
