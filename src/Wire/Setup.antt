-- ===== src/Wire/Setup.antt =====
-- client_setup_message.go, server_setup_message.go, go_away_message.go, max_request_id_message.go
-- and requests_blocked_message.go of internal/wire.
pub mod RoundTrip
use moqtransport_fec.Base.{ℕ, List, Result, ok, ◌>>=◌, ◌>>◌}
use moqtransport_fec.Wire.Env.{Env, IsVarint, take_varint}
use moqtransport_fec.Wire.Fields.{
  IsText, IsVersions, append_var_int_bytes, parse_var_int_bytes, append_versions, parse_versions,
}
use moqtransport_fec.Wire.Params.{KeyValuePair, full, append_num, parse_num, IsList}

pub record ClientSetupMessage : Type 0 where
  pub supported_versions : List ℕ
  pub setup_parameters : List KeyValuePair

pub record ServerSetupMessage : Type 0 where
  pub selected_version : ℕ
  pub setup_parameters : List KeyValuePair

pub record GoAwayMessage : Type 0 where
  pub new_session_uri : List ℕ

pub record MaxRequestIdMessage : Type 0 where
  pub request_id : ℕ

pub record RequestsBlockedMessage : Type 0 where
  pub maximum_request_id : ℕ

module _ (env : Env) where
  unfoldable pub append_client_setup : List ℕ → ClientSetupMessage → List ℕ
  append_client_setup buf m =
      append_num env (append_versions env buf m.supported_versions) m.setup_parameters

  unfoldable pub parse_client_setup : List ℕ → Result ClientSetupMessage
  parse_client_setup input = do
    (supported_versions, rest) ← parse_versions env input
    setup_parameters ← parse_num env (full rest)
    ok (record { supported_versions = supported_versions; setup_parameters = setup_parameters })

  unfoldable pub append_server_setup : List ℕ → ServerSetupMessage → List ℕ
  append_server_setup buf m = append_num env (env.append buf m.selected_version) m.setup_parameters

  unfoldable pub parse_server_setup : List ℕ → Result ServerSetupMessage
  parse_server_setup input = do
    (selected_version, rest) ← take_varint env input
    setup_parameters ← parse_num env (full rest)
    ok (record { selected_version = selected_version; setup_parameters = setup_parameters })

  unfoldable pub append_go_away : List ℕ → GoAwayMessage → List ℕ
  append_go_away buf m = append_var_int_bytes env buf m.new_session_uri

  unfoldable pub parse_go_away : List ℕ → Result GoAwayMessage
  parse_go_away input = do
    (new_session_uri, _) ← parse_var_int_bytes env input
    ok (record { new_session_uri = new_session_uri })

  unfoldable pub append_max_request_id : List ℕ → MaxRequestIdMessage → List ℕ
  append_max_request_id buf m = env.append buf m.request_id

  unfoldable pub parse_max_request_id : List ℕ → Result MaxRequestIdMessage
  parse_max_request_id input = do
    (request_id, _) ← take_varint env input
    ok (record { request_id = request_id })

  unfoldable pub append_requests_blocked : List ℕ → RequestsBlockedMessage → List ℕ
  append_requests_blocked buf m = env.append buf m.maximum_request_id

  unfoldable pub parse_requests_blocked : List ℕ → Result RequestsBlockedMessage
  parse_requests_blocked input = do
    (maximum_request_id, _) ← take_varint env input
    ok (record { maximum_request_id = maximum_request_id })

-- What an encoder accepts, field by field.
pub record IsClientSetupMessage (env : Env) (m : ClientSetupMessage) : Type 0 where
  pub supported_versions : IsVersions m.supported_versions
  pub setup_parameters : IsList env m.setup_parameters

pub record IsServerSetupMessage (env : Env) (m : ServerSetupMessage) : Type 0 where
  pub selected_version : IsVarint m.selected_version
  pub setup_parameters : IsList env m.setup_parameters

pub record IsGoAwayMessage (env : Env) (m : GoAwayMessage) : Type 0 where
  pub new_session_uri : IsText m.new_session_uri

pub record IsMaxRequestIdMessage (env : Env) (m : MaxRequestIdMessage) : Type 0 where
  pub request_id : IsVarint m.request_id

pub record IsRequestsBlockedMessage (env : Env) (m : RequestsBlockedMessage) : Type 0 where
  pub maximum_request_id : IsVarint m.maximum_request_id
