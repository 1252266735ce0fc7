-- ===== src/Session/Errors.antt =====
-- The errors of a session: the variables of session.go, remote_track_map.go, request_id.go and
-- errors.go.
pub data SessionError : Type 0 where
  request_id_blocked max_request_id_decreased max_request_id_violated : SessionError
  unknown_request_id duplicate_request_id : SessionError
  duplicate_request_id_bug duplicate_track_alias_bug : SessionError
  unknown_announcement unknown_announcement_namespace invalid_namespace_length : SessionError
  client_received_client_setup server_received_server_setup incompatible_versions : SessionError
  missing_path_parameter unexpected_path_parameter : SessionError
  unexpected_message_type unexpected_message_type_before_setup : SessionError
  unknown_track_alias unknown_subscribe_announces_prefix unknown_track_status_request : SessionError
  write_failed : SessionError
