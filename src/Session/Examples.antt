-- ===== src/Session/Examples.antt =====
-- The theorems on announcements, requests and answers at examples.
use moqtransport_fec.Base.{
  ℕ, suc, ◌+◌, ◌≤◌, false, ◌≡◌, refl, arith, Bool, true, List, [], ◌∷◌, ◌++◌, none, some, ◌⊎◌, inr,
}
use moqtransport_fec.Base.Assoc.{lookup}
use moqtransport_fec.Wire.Quic.{quic}
use moqtransport_fec.Wire.Fields.{append_tuple, append_strings}
use moqtransport_fec.Wire.Params.{append_num, append_list}
use moqtransport_fec.Wire.Announce.{append_announce, append_announce_ok}
use moqtransport_fec.Wire.Control.{compile_message, append_message}
use moqtransport_fec.Session.Window.{get_request_id}
use moqtransport_fec.Session.Requests.{take_request_id}
use moqtransport_fec.Wire.Message.{ControlMessage, message_type}
use moqtransport_fec.Wire.Subscribe.{SubscribeMessage}
use moqtransport_fec.Wire.SubscribeOk.{SubscribeOkMessage}
use moqtransport_fec.Session.Errors.{duplicate_track_alias_bug}
use moqtransport_fec.Wire.Encodable.{
  can_compile, numbers, all_have_encoding, string_numbers, pair_numbers,
}
use moqtransport_fec.Session.State.{write_compiled, server, Session, write}
use moqtransport_fec.Session.Ids.{next}
use moqtransport_fec.Session.RemoteTracks.{RemoteTrack, find_by_track_alias}
use moqtransport_fec.Session.Announcements.{new_announcement_map, delete_namespace}
use moqtransport_fec.Session.Announcements.Removal.{
  Op, added, confirmed, removed, apply, IsRemoval, delete_namespace-apply,
}
use moqtransport_fec.Session.Announcements.Visits.{latest_first}
use moqtransport_fec.Session.Peer.{Peer, send, accepted, remote_state, new_remote_track}
use moqtransport_fec.Session.Replies.{
  SubscribeOkOptions, subscribe_ok_of, accept_subscription_with_options,
}
use moqtransport_fec.Session.Writers.{accept, accept_with, reject_with}
use moqtransport_fec.Session.Handlers.{Application, on_subscribe, on_announce}
use moqtransport_fec.Session.Handlers.Budget.{answers}
use moqtransport_fec.Session.Handlers.Once.{on_subscribe-answers}
use moqtransport_fec.Session.Answers.{on_subscribe_ok, on_announce_ok}
use moqtransport_fec.Session.Answers.Aliases.{on_subscribe_ok_lem, second_subscribe_ok}
use moqtransport_fec.Session.Announcing.{announce}
use moqtransport_fec.Session.Announcing.Agreement.{
  announcement_accepted, announce_of, announcement_of, LastSent, Writes,
}

abbrev takes_all : List ControlMessage → ControlMessage → Bool
takes_all sent msg = true

abbrev a_remote_track : ℕ → RemoteTrack
a_remote_track id = record { address = 100 + id; request_id = id }

abbrev a_name : List (List ℕ)
a_name = (1 ∷ 2 ∷ []) ∷ (3 ∷ []) ∷ []

abbrev some_ops : List Op
some_ops =
    added (announcement_of 1 a_name)
    ∷ confirmed 1
    ∷ added (announcement_of 3 a_name)
    ∷ removed a_name
    ∷ []

delete_namespace-apply_example :
    IsRemoval
      (apply latest_first some_ops new_announcement_map)
      a_name
      ((delete_namespace latest_first (apply latest_first some_ops new_announcement_map) a_name).0)
      ((delete_namespace latest_first (apply latest_first some_ops new_announcement_map) a_name).1)
delete_namespace-apply_example = delete_namespace-apply latest_first some_ops a_name

-- An application that accepts everything, and refuses a subscription after it has accepted it.
abbrev no_options : SubscribeOkOptions
no_options = record {
  expires = 0;
  group_order = 1;
  content_exists = false;
  largest_location = none;
  parameters = [];
}

abbrev an_application : Application
an_application = record {
  handle = λ m. accept ∷ [];
  handle_subscribe = some (λ m auth. accept_with no_options ∷ reject_with 1 [] ∷ []);
}

abbrev a_subscribe : SubscribeMessage
a_subscribe = record {
  request_id = 2;
  track_namespace = a_name;
  track_name = 9 ∷ [];
  subscriber_priority = 128;
  group_order = 1;
  forward = 1;
  filter = record {
    filter_type = 2;
    start_location = record { group = 0; object = 0 };
    end_group = 0;
  };
  parameters = [];
}

abbrev a_session : Session
a_session = record {
  perspective = server;
  is_quic = true;
  version = 0;
  path = [];
  local_max_request_id = 64;
  request_ids = record { id = 1; max = 64; interval = 2 };
  local_tracks = record { pending = []; opened = [] };
  handshake_done = true;
  sent = [];
  panicked = false;
}

abbrev a_peer : Peer
a_peer = record {
  session = a_session;
  outgoing_announcements = record { pending = []; announcements = [] };
  incoming_announcements = record { pending = []; announcements = [] };
  pending_outgoing_announcement_subscriptions = [];
  pending_incoming_announcement_subscriptions = [];
  track_aliases = record { last = 0; interval = 1 };
  remote_tracks = record {
    next_track_alias = 0;
    pending = (1, a_remote_track 1) ∷ (3, a_remote_track 3) ∷ [];
    opened = [];
    track_alias_to_request_id = [];
  };
  outgoing_track_status_requests = [];
  local_states = [];
  remote_states = [];
  responses = [];
  notified = [];
}

nothing_pending : lookup 2 a_peer.session.local_tracks.pending ≡ none
unfolding lookup
nothing_pending = refl

on_subscribe-answers_example :
    (lookup 2
        (on_subscribe quic takes_all an_application a_peer
          a_subscribe).0.session.local_tracks.pending
      ≡ none)
    × (answers 2 (on_subscribe quic takes_all an_application a_peer a_subscribe).0.session.sent
        ≤ suc (answers 2 a_peer.session.sent))
on_subscribe-answers_example =
    on_subscribe-answers quic takes_all an_application a_peer a_subscribe nothing_pending

abbrev an_ok : SubscribeOkMessage
an_ok = record {
  request_id = 1;
  track_alias = 5;
  expires = 0;
  group_order = 1;
  content_exists = false;
  largest_location = record { group = 0; object = 0 };
  parameters = [];
}

first_pending : lookup 1 a_peer.remote_tracks.pending ≡ some (a_remote_track 1)
unfolding lookup
first_pending = refl

second_pending : lookup 3 a_peer.remote_tracks.pending ≡ some (a_remote_track 3)
unfolding lookup
second_pending = refl

alias_free : lookup 5 a_peer.remote_tracks.track_alias_to_request_id ≡ none
unfolding lookup
alias_free = refl

still_waiting : (remote_state a_peer 101).response_chan ≡ none
unfolding remote_state lookup new_remote_track
still_waiting = refl

on_subscribe_ok_lem_example :
    ((on_subscribe_ok quic takes_all a_peer an_ok).1 ≡ none)
    × (find_by_track_alias (on_subscribe_ok quic takes_all a_peer an_ok).0.remote_tracks 5
        ≡ some (a_remote_track 1))
    × ((remote_state (on_subscribe_ok quic takes_all a_peer an_ok).0 101).response_chan
        ≡ some accepted)
on_subscribe_ok_lem_example =
    on_subscribe_ok_lem quic takes_all a_peer an_ok (a_remote_track 1) first_pending alias_free
      still_waiting

second_subscribe_ok_example :
    ((subscribe_ok_of 1 no_options).track_alias ≡ 0)
    × (((accept_subscription_with_options quic takes_all a_peer 1 no_options).0.session.sent
          ≡ a_peer.session.sent)
        ⊎ ((accept_subscription_with_options quic takes_all a_peer 1 no_options).0.session.sent
            ≡ a_peer.session.sent
              ++ (ControlMessage.subscribe_ok (subscribe_ok_of 1 no_options) ∷ [])))
    × ((on_subscribe_ok quic takes_all
          (on_subscribe_ok quic takes_all a_peer (subscribe_ok_of 1 no_options)).0
          (subscribe_ok_of 3 no_options)).1
        ≡ some duplicate_track_alias_bug)
second_subscribe_ok_example =
    second_subscribe_ok quic takes_all a_peer a_peer 1 3 (a_remote_track 1) (a_remote_track 3)
      no_options no_options first_pending second_pending (omega arith)

announced_1 : (announce quic takes_all a_peer a_name).1 ≡ inr 1
unfolding announce take_request_id get_request_id next send write write_compiled quic
    compile_message can_compile numbers all_have_encoding string_numbers pair_numbers append_message
    append_announce append_tuple append_strings append_num append_list message_type
announced_1 = refl

answer_written :
    Writes quic takes_all a_session (ControlMessage.announce_ok (record { request_id = 1 }))
unfolding write write_compiled quic compile_message append_message append_announce_ok message_type
    can_compile numbers all_have_encoding
answer_written = refl

no_response : lookup 1 a_peer.responses ≡ none
unfolding lookup
no_response = refl

announcement_accepted_example :
    (LastSent
      (announce quic takes_all a_peer a_name).0
      (ControlMessage.announce (announce_of 1 a_name)))
    × ((on_announce quic takes_all an_application a_peer (announce_of 1 a_name)).1 ≡ none)
    × (lookup 1
          (on_announce quic takes_all an_application a_peer (announce_of 1 a_name)
            ).0.incoming_announcements.announcements
        ≡ some (announcement_of 1 a_name))
    × (LastSent
        (on_announce quic takes_all an_application a_peer (announce_of 1 a_name)).0
        (ControlMessage.announce_ok (record { request_id = 1 })))
    × ((on_announce_ok (announce quic takes_all a_peer a_name).0 (record { request_id = 1 })).1
        ≡ none)
    × (lookup 1
          (on_announce_ok (announce quic takes_all a_peer a_name).0 (record { request_id = 1 })
            ).0.outgoing_announcements.announcements
        ≡ some (announcement_of 1 a_name))
    × (lookup 1
          (on_announce_ok
            (announce quic takes_all a_peer a_name).0
            (record { request_id = 1 })).0.responses
        ≡ some accepted)
announcement_accepted_example =
    announcement_accepted quic takes_all an_application a_peer a_peer a_name 1 announced_1
      no_response refl refl answer_written
