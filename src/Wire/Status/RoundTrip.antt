-- ===== src/Wire/Status/RoundTrip.antt =====
-- `Append` and `parse` together, for track_status_request_message.go and track_status_message.go of internal/wire.
use moqtransport_fec.Base.{ℕ, ◌≡◌, List, [], ◌++◌, ok}
use moqtransport_fec.Wire.Env.{Env, take_varint-encode}
use moqtransport_fec.Wire.Fields.RoundTrip.{
  parse_var_int_bytes_lem, parse_tuple_lem, parse_location_lem,
}
use moqtransport_fec.Wire.Params.RoundTrip.{parse_num_lem}
use moqtransport_fec.Wire.Rules.{field_laws}
use moqtransport_fec.Wire.Status.{
  TrackStatusRequestMessage, IsTrackStatusRequestMessage, append_track_status_request,
  parse_track_status_request, TrackStatusMessage, IsTrackStatusMessage, append_track_status,
  parse_track_status,
}

module _ (env : Env) where
  pub append_track_status_request-buf :
      (buf : List ℕ) (m : TrackStatusRequestMessage)
      → append_track_status_request env buf m ≡ buf ++ append_track_status_request env [] m
  unfolding append_track_status_request
  append_track_status_request-buf buf m = simp field_laws

  pub parse_track_status_request-append :
      (m : TrackStatusRequestMessage) (rest : List ℕ)
      → IsTrackStatusRequestMessage env m
      → parse_track_status_request env (append_track_status_request env [] m ++ rest) ≡ ok m
  unfolding append_track_status_request parse_track_status_request
  parse_track_status_request-append m rest w = simp field_laws (
      rw (
        take_varint-encode env _ _ w.request_id,
        parse_tuple_lem env _ _ w.track_namespace,
        parse_var_int_bytes_lem env _ _ w.track_name,
        parse_num_lem env _ _ [] w.parameters,
      ))

  pub append_track_status-buf :
      (buf : List ℕ) (m : TrackStatusMessage)
      → append_track_status env buf m ≡ buf ++ append_track_status env [] m
  unfolding append_track_status
  append_track_status-buf buf m = simp field_laws

  pub parse_track_status-append :
      (m : TrackStatusMessage) (rest : List ℕ)
      → IsTrackStatusMessage env m
      → parse_track_status env (append_track_status env [] m ++ rest) ≡ ok m
  unfolding append_track_status parse_track_status
  parse_track_status-append m rest w = simp field_laws (
      rw (
        take_varint-encode env _ _ w.request_id,
        take_varint-encode env _ _ w.status_code,
        parse_location_lem env _ _ w.largest_location,
        parse_num_lem env _ _ [] w.parameters,
      ))
