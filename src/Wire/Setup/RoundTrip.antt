-- ===== src/Wire/Setup/RoundTrip.antt =====
-- `Append` and `parse` of internal/wire together, for the setup messages and those on the whole session.
use moqtransport_fec.Base.{ℕ, ◌≡◌, List, [], ◌++◌, ok}
use moqtransport_fec.Wire.Env.{Env, take_varint-encode}
use moqtransport_fec.Wire.Fields.RoundTrip.{parse_var_int_bytes_lem, parse_versions_lem}
use moqtransport_fec.Wire.Params.RoundTrip.{parse_num_lem}
use moqtransport_fec.Wire.Rules.{field_laws}
use moqtransport_fec.Wire.Setup.{
  ClientSetupMessage, IsClientSetupMessage, append_client_setup, parse_client_setup,
  ServerSetupMessage, IsServerSetupMessage, append_server_setup, parse_server_setup, GoAwayMessage,
  IsGoAwayMessage, append_go_away, parse_go_away, MaxRequestIdMessage, IsMaxRequestIdMessage,
  append_max_request_id, parse_max_request_id, RequestsBlockedMessage, IsRequestsBlockedMessage,
  append_requests_blocked, parse_requests_blocked,
}

module _ (env : Env) where
  pub append_client_setup-buf :
      (buf : List ℕ) (m : ClientSetupMessage)
      → append_client_setup env buf m ≡ buf ++ append_client_setup env [] m
  unfolding append_client_setup
  append_client_setup-buf buf m = simp field_laws

  pub parse_client_setup-append :
      (m : ClientSetupMessage) (rest : List ℕ)
      → IsClientSetupMessage env m
      → parse_client_setup env (append_client_setup env [] m ++ rest) ≡ ok m
  unfolding append_client_setup parse_client_setup
  parse_client_setup-append m rest w = simp field_laws (
      rw (
        parse_versions_lem env _ _ w.supported_versions,
        parse_num_lem env _ _ [] w.setup_parameters,
      ))

  pub append_server_setup-buf :
      (buf : List ℕ) (m : ServerSetupMessage)
      → append_server_setup env buf m ≡ buf ++ append_server_setup env [] m
  unfolding append_server_setup
  append_server_setup-buf buf m = simp field_laws

  pub parse_server_setup-append :
      (m : ServerSetupMessage) (rest : List ℕ)
      → IsServerSetupMessage env m
      → parse_server_setup env (append_server_setup env [] m ++ rest) ≡ ok m
  unfolding append_server_setup parse_server_setup
  parse_server_setup-append m rest w = simp field_laws (
      rw (
        take_varint-encode env _ _ w.selected_version,
        parse_num_lem env _ _ [] w.setup_parameters,
      ))

  pub append_go_away-buf :
      (buf : List ℕ) (m : GoAwayMessage) → append_go_away env buf m ≡ buf ++ append_go_away env [] m
  unfolding append_go_away
  append_go_away-buf buf m = simp field_laws

  pub parse_go_away-append :
      (m : GoAwayMessage) (rest : List ℕ)
      → IsGoAwayMessage env m
      → parse_go_away env (append_go_away env [] m ++ rest) ≡ ok m
  unfolding append_go_away parse_go_away
  parse_go_away-append m rest w =
      simp field_laws (rw (parse_var_int_bytes_lem env _ _ w.new_session_uri))

  pub append_max_request_id-buf :
      (buf : List ℕ) (m : MaxRequestIdMessage)
      → append_max_request_id env buf m ≡ buf ++ append_max_request_id env [] m
  unfolding append_max_request_id
  append_max_request_id-buf buf m = simp field_laws

  pub parse_max_request_id-append :
      (m : MaxRequestIdMessage) (rest : List ℕ)
      → IsMaxRequestIdMessage env m
      → parse_max_request_id env (append_max_request_id env [] m ++ rest) ≡ ok m
  unfolding append_max_request_id parse_max_request_id
  parse_max_request_id-append m rest w =
      simp field_laws (rw (take_varint-encode env _ _ w.request_id))

  pub append_requests_blocked-buf :
      (buf : List ℕ) (m : RequestsBlockedMessage)
      → append_requests_blocked env buf m ≡ buf ++ append_requests_blocked env [] m
  unfolding append_requests_blocked
  append_requests_blocked-buf buf m = simp field_laws

  pub parse_requests_blocked-append :
      (m : RequestsBlockedMessage) (rest : List ℕ)
      → IsRequestsBlockedMessage env m
      → parse_requests_blocked env (append_requests_blocked env [] m ++ rest) ≡ ok m
  unfolding append_requests_blocked parse_requests_blocked
  parse_requests_blocked-append m rest w =
      simp field_laws (rw (take_varint-encode env _ _ w.maximum_request_id))
