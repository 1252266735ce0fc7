-- ===== src/Session/Handshake.antt =====
-- The handshake of session.go (sendClientSetup, onClientSetup, onServerSetup, onMaxRequestID and
-- what `receive` does before the handshake) and the parameters that session_helpers.go reads. The
-- channel that `Run` waits on is closed where `handshake_done` is set.
pub mod Agreement
use moqtransport_fec.Base.{
  ℕ, suc, Bool, true, false, not, ◌&&◌, List, [], ◌∷◌, Option, none, some, ltb, ◌==◌, if◌then◌else◌,
  ◌⊎◌, inl, inr,
}
use moqtransport_fec.Wire.Env.{Env}
use moqtransport_fec.Wire.Fields.{supported_versions}
use moqtransport_fec.Wire.Params.{KeyValuePair, path_parameter_key, max_request_id_parameter_key}
use moqtransport_fec.Wire.Setup.{ClientSetupMessage, ServerSetupMessage, MaxRequestIdMessage}
use moqtransport_fec.Wire.Message.{ControlMessage, client_setup, server_setup}
use moqtransport_fec.Session.Errors.{
  SessionError, missing_path_parameter, unexpected_path_parameter, client_received_client_setup,
  server_received_server_setup, incompatible_versions, unexpected_message_type_before_setup,
  write_failed,
}
use moqtransport_fec.Session.Ids.{set_max}
use moqtransport_fec.Session.State.{client, server, Session, write}

-- slices.IndexFunc on the type, with the pair at the index.
unfoldable pub find_parameter : ℕ → List KeyValuePair → Option (ℕ × KeyValuePair)
find_parameter key [] = none
find_parameter key (p ∷ pp) =
    let rest = find_parameter key pp in
    if p.typ == key then some (0, p) else elim rest [ some (i, q) ↦ some (suc i, q) | none ↦ none ]

unfoldable pub validate_path_parameter : List KeyValuePair → Bool → SessionError ⊎ List ℕ
validate_path_parameter pp is_quic = elim (find_parameter path_parameter_key pp) [
  | none ↦ if is_quic then inl missing_path_parameter else inr []
  | some (index, p) ↦
      if ltb 0 index && not is_quic then inl unexpected_path_parameter else inr p.value_bytes
]

unfoldable pub get_max_request_id_parameter : List KeyValuePair → ℕ
get_max_request_id_parameter pp = elim (find_parameter max_request_id_parameter_key pp) [
  | none ↦ 0
  | some (_, p) ↦ p.value_var_int
]

-- slices.Contains
unfoldable pub contains : List ℕ → ℕ → Bool
contains [] v = false
contains (w ∷ ws) v = if w == v then true else contains ws v

-- The loop of onClientSetup over the supported versions, last one first.
unfoldable pub select_version : List ℕ → List ℕ → Option ℕ
select_version [] offered = none
select_version (v ∷ vs) offered = elim (select_version vs offered) [
  | some w ↦ some w
  | none ↦ if contains offered v then some v else none
]

abbrev pub max_request_id_pair : ℕ → KeyValuePair
max_request_id_pair n = record {
  typ = max_request_id_parameter_key;
  value_bytes = [];
  value_var_int = n;
}

abbrev pub path_pair : List ℕ → KeyValuePair
path_pair path = record { typ = path_parameter_key; value_bytes = path; value_var_int = 0 }

unfoldable pub client_setup_of : Session → ClientSetupMessage
client_setup_of s = record {
  supported_versions = supported_versions;
  setup_parameters =
      max_request_id_pair s.local_max_request_id
      ∷ (if s.is_quic then path_pair s.path ∷ [] else []);
}

unfoldable pub server_setup_of : ℕ → ServerSetupMessage
server_setup_of version = record {
  selected_version = version;
  setup_parameters = max_request_id_pair 100 ∷ [];
}

abbrev pub error_of : Bool → Option SessionError
error_of true = none
error_of false = some write_failed

module _ (env : Env) (accepts : List ControlMessage → ControlMessage → Bool) where
  unfoldable pub send_client_setup : Session → Session × Option SessionError
  send_client_setup s =
      let (s', sent) = write env accepts s (ControlMessage.client_setup (client_setup_of s)) in
      (s', error_of sent)

  -- The end of onClientSetup: the answer is sent and the handshake is over.
  unfoldable pub answer_setup : Session → ℕ → Session × Option SessionError
  answer_setup s version =
      let (s', sent) =
        write env accepts s (ControlMessage.server_setup (server_setup_of version)) in
      if sent then (record s' { handshake_done = true }, none) else (s', some write_failed)

  -- The middle of it: the peer's maximum is taken over, if it is positive.
  unfoldable pub take_max : Session → ℕ → Session × Option SessionError
  take_max s n =
      if ltb 0 n
      then (let (ids, e) = set_max s.request_ids n in (record s { request_ids = ids }, e))
      else (s, none)

  unfoldable pub on_client_setup : Session → ClientSetupMessage → Session × Option SessionError
  on_client_setup s m = elim s.perspective [
    | client ↦ (s, some client_received_client_setup)
    | server ↦ elim (select_version supported_versions m.supported_versions) [
      | none ↦ (s, some incompatible_versions)
      | some v ↦
          let s = record s { version = v } in
          elim (validate_path_parameter m.setup_parameters s.is_quic) [
            | inl e ↦ (s, some e)
            | inr path ↦
                let (s', e) =
                  take_max (record s { path = path })
                    (get_max_request_id_parameter m.setup_parameters) in
                elim e [ some e ↦ (s', some e) | none ↦ answer_setup s' v ]
          ]
    ]
  ]

  unfoldable pub on_server_setup : Session → ServerSetupMessage → Session × Option SessionError
  on_server_setup s m = elim s.perspective [
    | server ↦ (s, some server_received_server_setup)
    | client ↦
        if contains supported_versions m.selected_version
        then (let (ids, e) =
              set_max s.request_ids (get_max_request_id_parameter m.setup_parameters) in
            let s' = record s { version = m.selected_version; request_ids = ids } in
            elim e [ some e ↦ (s', some e) | none ↦ (record s' { handshake_done = true }, none) ])
        else (s, some incompatible_versions)
  ]

  -- `receive` while the handshake is not done.
  unfoldable pub receive_before_setup : Session → ControlMessage → Session × Option SessionError
  receive_before_setup s msg = elim msg [
    | client_setup m ↦ on_client_setup s m
    | server_setup m ↦ on_server_setup s m
    | _ ↦ (s, some unexpected_message_type_before_setup)
  ]

unfoldable pub on_max_request_id : Session → MaxRequestIdMessage → Session × Option SessionError
on_max_request_id s m =
    let (ids, e) = set_max s.request_ids m.request_id in (record s { request_ids = ids }, e)
