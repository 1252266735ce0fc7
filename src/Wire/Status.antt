-- ===== src/Wire/Status.antt =====
-- track_status_request_message.go and track_status_message.go of internal/wire.
pub mod RoundTrip
use moqtransport_fec.Base.{ℕ, List, Result, ok, ◌>>=◌, ◌>>◌}
use moqtransport_fec.Wire.Env.{Env, IsVarint, take_varint}
use moqtransport_fec.Wire.Fields.{
  Location, IsText, IsTuple, IsLocation, append_var_int_bytes, parse_var_int_bytes, append_tuple,
  parse_tuple, append_location, parse_location,
}
use moqtransport_fec.Wire.Params.{KeyValuePair, full, append_num, parse_num, IsList}

pub record TrackStatusRequestMessage : Type 0 where
  pub request_id : ℕ
  pub track_namespace : List (List ℕ)
  pub track_name : List ℕ
  pub parameters : List KeyValuePair

pub record TrackStatusMessage : Type 0 where
  pub request_id : ℕ
  pub status_code : ℕ
  pub largest_location : Location
  pub parameters : List KeyValuePair

module _ (env : Env) where
  unfoldable pub append_track_status_request : List ℕ → TrackStatusRequestMessage → List ℕ
  append_track_status_request buf m =
      append_num env
        (append_var_int_bytes env (append_tuple env (env.append buf m.request_id) m.track_namespace)
          m.track_name)
        m.parameters

  unfoldable pub parse_track_status_request : List ℕ → Result TrackStatusRequestMessage
  parse_track_status_request input = do
    (request_id, rest) ← take_varint env input
    (track_namespace, rest') ← parse_tuple env rest
    (track_name, rest'') ← parse_var_int_bytes env rest'
    parameters ← parse_num env (full rest'')
    ok (record {
      request_id = request_id;
      track_namespace = track_namespace;
      track_name = track_name;
      parameters = parameters;
    })

  unfoldable pub append_track_status : List ℕ → TrackStatusMessage → List ℕ
  append_track_status buf m =
      append_num env
        (append_location env (env.append (env.append buf m.request_id) m.status_code)
          m.largest_location)
        m.parameters

  unfoldable pub parse_track_status : List ℕ → Result TrackStatusMessage
  parse_track_status input = do
    (request_id, rest) ← take_varint env input
    (status_code, rest') ← take_varint env rest
    (largest_location, rest'') ← parse_location env rest'
    parameters ← parse_num env (full rest'')
    ok (record {
      request_id = request_id;
      status_code = status_code;
      largest_location = largest_location;
      parameters = parameters;
    })

-- What an encoder accepts, field by field.
pub record IsTrackStatusRequestMessage (env : Env) (m : TrackStatusRequestMessage) : Type 0 where
  pub request_id : IsVarint m.request_id
  pub track_namespace : IsTuple env m.track_namespace
  pub track_name : IsText m.track_name
  pub parameters : IsList env m.parameters

pub record IsTrackStatusMessage (env : Env) (m : TrackStatusMessage) : Type 0 where
  pub request_id : IsVarint m.request_id
  pub status_code : IsVarint m.status_code
  pub largest_location : IsLocation m.largest_location
  pub parameters : IsList env m.parameters
