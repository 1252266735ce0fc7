-- ===== src/Session/Requests.antt =====
-- Subscribe, UpdateSubscription and Fetch of session.go. A request that waits for an answer is two functions, since the peer's
-- messages are handled in between: the first sends the message, and the second goes on with what the
-- channel brings, or with the end of the caller's context.
use moqtransport_fec.Base.{ℕ, Bool, true, false, List, [], Option, none, some, ◌⊎◌, inl, inr}
use moqtransport_fec.Wire.Env.{Env}
use moqtransport_fec.Wire.Fields.{Location, filter_type_latest_object}
use moqtransport_fec.Wire.Params.{KeyValuePair}
use moqtransport_fec.Wire.Filter.{no_location}
use moqtransport_fec.Wire.Fetch.{fetch_type_standalone}
use moqtransport_fec.Wire.Message.{ControlMessage}
use moqtransport_fec.Session.Errors.{SessionError, unknown_request_id}
use moqtransport_fec.Session.RemoteTracks.{
  RemoteTrack, find_by_request_id, add_pending, add_pending_with_alias, reject,
}
use moqtransport_fec.Session.Window.{get_request_id}
use moqtransport_fec.Session.Peer.{
  Answer, protocol_error, Peer, send, new_remote_track, change_remote, remote_state,
}
use moqtransport_fec.Session.Replies.{close_remote}

pub record SubscribeOptions : Type 0 where
  pub subscriber_priority : ℕ
  pub group_order : ℕ
  pub forward : Bool
  pub filter_type : ℕ
  pub start_location : Location
  pub end_group : ℕ
  pub parameters : List KeyValuePair

abbrev pub default_subscribe_options : SubscribeOptions
default_subscribe_options = record {
  subscriber_priority = 128;
  group_order = 1;
  forward = true;
  filter_type = filter_type_latest_object;
  start_location = no_location;
  end_group = 0;
  parameters = [];
}

pub record SubscribeUpdateOptions : Type 0 where
  pub start_location : Location
  pub end_group : ℕ
  pub subscriber_priority : ℕ
  pub forward : Bool
  pub parameters : List KeyValuePair

abbrev pub default_subscribe_update_options : SubscribeUpdateOptions
default_subscribe_update_options = record {
  start_location = no_location;
  end_group = 0;
  subscriber_priority = 128;
  forward = true;
  parameters = [];
}

abbrev pub bool_to_uint8 : Bool → ℕ
bool_to_uint8 true = 1
bool_to_uint8 false = 0

-- Why a waiting call comes back with an error.
pub data Failure : Type 0 where
  cancelled : Failure
  refused : ℕ → List ℕ → Failure
  failed : SessionError → Failure

-- What a wait ends with: the end of the context, or what the channel brings.
pub data Wakeup : Type 0 where
  context_done : Wakeup
  response : Answer → Wakeup

abbrev pub failure_of : Wakeup → Option Failure
failure_of context_done = some cancelled
failure_of (response (protocol_error code reason)) = some (refused code reason)
failure_of (response _) = none

module _ (env : Env) (accepts : List ControlMessage → ControlMessage → Bool) where
  -- requestID, err := s.getRequestID()
  unfoldable pub take_request_id : Peer → Peer × (SessionError ⊎ ℕ)
  take_request_id p =
      let (s, id, e) = get_request_id env accepts p.session in
      (record p { session = s }, elim e [ some e ↦ inl e | none ↦ inr id ])

  -- `address` is the new track's, and `opts` what the options make of the default ones.
  unfoldable pub subscribe :
      Peer → ℕ → List (List ℕ) → List ℕ → SubscribeOptions → Peer × (SessionError ⊎ RemoteTrack)
  subscribe p address namespace name opts =
      let (p', taken) = take_request_id p in
      elim taken [
        | inl e ↦ (p', inl e)
        | inr id ↦
            let rt : RemoteTrack = record { address = address; request_id = id } in
            let (tracks, e) = add_pending_with_alias p'.remote_tracks id rt in
            elim e [
              | some e ↦ (p', inl e)
              | none ↦
                  let added =
                    change_remote (record p' { remote_tracks = tracks }) address
                      (λ _. new_remote_track false) in
                  let (p'', e) = send env accepts added (
                    ControlMessage.subscribe (record {
                      request_id = id;
                      track_namespace = namespace;
                      track_name = name;
                      subscriber_priority = opts.subscriber_priority;
                      group_order = opts.group_order;
                      forward = bool_to_uint8 opts.forward;
                      filter = record {
                        filter_type = opts.filter_type;
                        start_location = opts.start_location;
                        end_group = opts.end_group;
                      };
                      parameters = opts.parameters;
                    })) in
                  (p'', elim e [ some e ↦ inl e | none ↦ inr rt ])
            ]
      ]

  -- The end of Subscribe; the channel is empty after it.
  abbrev pub read_response : Peer → ℕ → Peer
  read_response p address = change_remote p address (λ t. record t { response_chan = none })

  unfoldable pub subscribe_end : Peer → RemoteTrack → Wakeup → Peer × (Failure ⊎ RemoteTrack)
  subscribe_end p rt w =
      let p' : Peer = elim w [ context_done ↦ p | response _ ↦ read_response p rt.address ] in
      elim (failure_of w) [
        | none ↦ (p', inr rt)
        | some f ↦ (record p' { remote_tracks = (reject p'.remote_tracks rt.request_id).0 }, inl f)
      ]

  unfoldable pub update_subscription :
      Peer → ℕ → SubscribeUpdateOptions → Peer × Option SessionError
  update_subscription p id opts = elim (find_by_request_id p.remote_tracks id) [
    | none ↦ (p, some unknown_request_id)
    | some _ ↦ send env accepts p (
        ControlMessage.subscribe_update (record {
          request_id = id;
          start_location = opts.start_location;
          end_group = opts.end_group;
          subscriber_priority = opts.subscriber_priority;
          forward = bool_to_uint8 opts.forward;
          parameters = opts.parameters;
        }))
  ]

  -- The branch of Fetch for errRequestsBlocked is left out, since addPending never returns it.
  unfoldable pub fetch : Peer → ℕ → List (List ℕ) → List ℕ → Peer × (SessionError ⊎ RemoteTrack)
  fetch p address namespace track =
      let (p', taken) = take_request_id p in
      elim taken [
        | inl e ↦ (p', inl e)
        | inr id ↦
            let rt : RemoteTrack = record { address = address; request_id = id } in
            let (tracks, e) = add_pending p'.remote_tracks id rt in
            elim e [
              | some e ↦ (p', inl e)
              | none ↦
                  let added =
                    change_remote (record p' { remote_tracks = tracks }) address
                      (λ _. new_remote_track true) in
                  let (p'', e) = send env accepts added (
                    ControlMessage.fetch (record {
                      request_id = id;
                      subscriber_priority = 0;
                      group_order = 0;
                      fetch_type = fetch_type_standalone;
                      standalone = record {
                        track_namespace = namespace;
                        track_name = track;
                        start_group = 0;
                        start_object = 0;
                        end_group = 0;
                        end_object = 0;
                      };
                      joining = record { joining_subscribe_id = 0; joining_start = 0 };
                      parameters = [];
                    })) in
                  elim e [
                    | some e ↦
                        (record p'' { remote_tracks = (reject p''.remote_tracks id).0 }, inl e)
                    | none ↦ (p'', inr rt)
                  ]
            ]
      ]

  -- An error of Close, which is joined to the other, is left out.
  unfoldable pub fetch_end : Peer → RemoteTrack → Wakeup → Peer × (Failure ⊎ RemoteTrack)
  fetch_end p rt w =
      let p' : Peer = elim w [ context_done ↦ p | response _ ↦ read_response p rt.address ] in
      elim (failure_of w) [
        | none ↦ (p', inr rt)
        | some f ↦
            let rejected = record p' {
              remote_tracks = (reject p'.remote_tracks rt.request_id).0;
            } in
            (
              (close_remote env accepts rejected rt.request_id
                  (remote_state rejected rt.address)).0,
              inl f,
            )
      ]
