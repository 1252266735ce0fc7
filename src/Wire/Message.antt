-- ===== src/Wire/Message.antt =====
-- The messages of the control stream: control_message_type.go of internal/wire, the methods `Type`
-- of the messages, and what an encoder accepts.
use moqtransport_fec.Base.{ℕ, Bool, true, false, ◌*◌, ◌%◌, ◌^◌}
use moqtransport_fec.Wire.Env.{Env}
use moqtransport_fec.Wire.Setup.{
  ClientSetupMessage, IsClientSetupMessage, ServerSetupMessage, IsServerSetupMessage, GoAwayMessage,
  IsGoAwayMessage, MaxRequestIdMessage, IsMaxRequestIdMessage, RequestsBlockedMessage,
  IsRequestsBlockedMessage,
}
use moqtransport_fec.Wire.Subscribe.{
  SubscribeMessage, IsSubscribeMessage, SubscribeErrorMessage, IsSubscribeErrorMessage,
  UnsubscribeMessage, IsUnsubscribeMessage, SubscribeUpdateMessage, IsSubscribeUpdateMessage,
  SubscribeDoneMessage, IsSubscribeDoneMessage,
}
use moqtransport_fec.Wire.SubscribeOk.{SubscribeOkMessage, IsSubscribeOkMessage}
use moqtransport_fec.Wire.Fetch.{FetchMessage, IsFetchMessage}
use moqtransport_fec.Wire.FetchReply.{
  FetchOkMessage, IsFetchOkMessage, FetchErrorMessage, IsFetchErrorMessage, FetchCancelMessage,
  IsFetchCancelMessage,
}
use moqtransport_fec.Wire.Status.{
  TrackStatusRequestMessage, IsTrackStatusRequestMessage, TrackStatusMessage, IsTrackStatusMessage,
}
use moqtransport_fec.Wire.Announce.{
  AnnounceMessage, IsAnnounceMessage, AnnounceOkMessage, IsAnnounceOkMessage, AnnounceErrorMessage,
  IsAnnounceErrorMessage, UnannounceMessage, IsUnannounceMessage, AnnounceCancelMessage,
  IsAnnounceCancelMessage,
}
use moqtransport_fec.Wire.Announces.{
  SubscribeAnnouncesMessage, IsSubscribeAnnouncesMessage, SubscribeAnnouncesOkMessage,
  IsSubscribeAnnouncesOkMessage, SubscribeAnnouncesErrorMessage, IsSubscribeAnnouncesErrorMessage,
  UnsubscribeAnnouncesMessage, IsUnsubscribeAnnouncesMessage,
}
use moqtransport_fec.Wire.SubscribeOk.{millisecond}

pub data ControlMessage : Type 0 where
  client_setup : ClientSetupMessage → ControlMessage
  server_setup : ServerSetupMessage → ControlMessage
  go_away : GoAwayMessage → ControlMessage
  max_request_id : MaxRequestIdMessage → ControlMessage
  requests_blocked : RequestsBlockedMessage → ControlMessage
  subscribe : SubscribeMessage → ControlMessage
  subscribe_ok : SubscribeOkMessage → ControlMessage
  subscribe_error : SubscribeErrorMessage → ControlMessage
  unsubscribe : UnsubscribeMessage → ControlMessage
  subscribe_update : SubscribeUpdateMessage → ControlMessage
  subscribe_done : SubscribeDoneMessage → ControlMessage
  fetch : FetchMessage → ControlMessage
  fetch_ok : FetchOkMessage → ControlMessage
  fetch_error : FetchErrorMessage → ControlMessage
  fetch_cancel : FetchCancelMessage → ControlMessage
  track_status_request : TrackStatusRequestMessage → ControlMessage
  track_status : TrackStatusMessage → ControlMessage
  announce : AnnounceMessage → ControlMessage
  announce_ok : AnnounceOkMessage → ControlMessage
  announce_error : AnnounceErrorMessage → ControlMessage
  unannounce : UnannounceMessage → ControlMessage
  announce_cancel : AnnounceCancelMessage → ControlMessage
  subscribe_announces : SubscribeAnnouncesMessage → ControlMessage
  subscribe_announces_ok : SubscribeAnnouncesOkMessage → ControlMessage
  subscribe_announces_error : SubscribeAnnouncesErrorMessage → ControlMessage
  unsubscribe_announces : UnsubscribeAnnouncesMessage → ControlMessage

-- `Type`. An ANNOUNCE_CANCEL gives itself the type of an ANNOUNCE.
unfoldable pub message_type : ControlMessage → ℕ
message_type (client_setup m) = 0x20
message_type (server_setup m) = 0x21
message_type (go_away m) = 0x10
message_type (max_request_id m) = 0x15
message_type (requests_blocked m) = 0x1a
message_type (subscribe m) = 0x03
message_type (subscribe_ok m) = 0x04
message_type (subscribe_error m) = 0x05
message_type (unsubscribe m) = 0x0a
message_type (subscribe_update m) = 0x02
message_type (subscribe_done m) = 0x0b
message_type (fetch m) = 0x16
message_type (fetch_ok m) = 0x18
message_type (fetch_error m) = 0x19
message_type (fetch_cancel m) = 0x17
message_type (track_status_request m) = 0x0d
message_type (track_status m) = 0x0e
message_type (announce m) = 0x06
message_type (announce_ok m) = 0x07
message_type (announce_error m) = 0x08
message_type (unannounce m) = 0x09
message_type (announce_cancel m) = 0x06
message_type (subscribe_announces m) = 0x11
message_type (subscribe_announces_ok m) = 0x12
message_type (subscribe_announces_error m) = 0x13
message_type (unsubscribe_announces m) = 0x14

abbrev pub IsWellFormed : Env → ControlMessage → Type 0
IsWellFormed env (client_setup m) = IsClientSetupMessage env m
IsWellFormed env (server_setup m) = IsServerSetupMessage env m
IsWellFormed env (go_away m) = IsGoAwayMessage env m
IsWellFormed env (max_request_id m) = IsMaxRequestIdMessage env m
IsWellFormed env (requests_blocked m) = IsRequestsBlockedMessage env m
IsWellFormed env (subscribe m) = IsSubscribeMessage env m
IsWellFormed env (subscribe_ok m) = IsSubscribeOkMessage env m
IsWellFormed env (subscribe_error m) = IsSubscribeErrorMessage env m
IsWellFormed env (unsubscribe m) = IsUnsubscribeMessage env m
IsWellFormed env (subscribe_update m) = IsSubscribeUpdateMessage env m
IsWellFormed env (subscribe_done m) = IsSubscribeDoneMessage env m
IsWellFormed env (fetch m) = IsFetchMessage env m
IsWellFormed env (fetch_ok m) = IsFetchOkMessage env m
IsWellFormed env (fetch_error m) = IsFetchErrorMessage env m
IsWellFormed env (fetch_cancel m) = IsFetchCancelMessage env m
IsWellFormed env (track_status_request m) = IsTrackStatusRequestMessage env m
IsWellFormed env (track_status m) = IsTrackStatusMessage env m
IsWellFormed env (announce m) = IsAnnounceMessage env m
IsWellFormed env (announce_ok m) = IsAnnounceOkMessage env m
IsWellFormed env (announce_error m) = IsAnnounceErrorMessage env m
IsWellFormed env (unannounce m) = IsUnannounceMessage env m
IsWellFormed env (announce_cancel m) = IsAnnounceCancelMessage env m
IsWellFormed env (subscribe_announces m) = IsSubscribeAnnouncesMessage env m
IsWellFormed env (subscribe_announces_ok m) = IsSubscribeAnnouncesOkMessage env m
IsWellFormed env (subscribe_announces_error m) = IsSubscribeAnnouncesErrorMessage env m
IsWellFormed env (unsubscribe_announces m) = IsUnsubscribeAnnouncesMessage env m

abbrev pub is_announce_cancel : ControlMessage → Bool
is_announce_cancel (announce_cancel m) = true
is_announce_cancel _ = false

-- What arrives: the expiry of a SUBSCRIBE_OK is read in another unit than it is sent in.
abbrev pub received : ControlMessage → ControlMessage
received (subscribe_ok m) = subscribe_ok (record m { expires = m.expires * millisecond % 2 ^ 64 })
received m = m
