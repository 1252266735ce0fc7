-- ===== src/Wire/FetchReply/RoundTrip.antt =====
-- `Append` and `parse` together, for fetch_ok_message.go, fetch_error_message.go and fetch_cancel_message.go of internal/wire.
use moqtransport_fec.Base.{ℕ, ◌≡◌, List, [], ◌++◌, ok, le→ltb}
use moqtransport_fec.Wire.Env.{Env, take_varint-encode}
use moqtransport_fec.Wire.Fields.RoundTrip.{parse_var_int_bytes_lem, parse_location_lem}
use moqtransport_fec.Wire.Params.RoundTrip.{parse_num_lem}
use moqtransport_fec.Wire.Rules.{field_laws}
use moqtransport_fec.Wire.FetchReply.{
  FetchOkMessage, IsFetchOkMessage, append_fetch_ok, parse_fetch_ok, FetchErrorMessage,
  IsFetchErrorMessage, append_fetch_error, parse_fetch_error, FetchCancelMessage,
  IsFetchCancelMessage, append_fetch_cancel, parse_fetch_cancel,
}

module _ (env : Env) where
  pub append_fetch_ok-buf :
      (buf : List ℕ) (m : FetchOkMessage)
      → append_fetch_ok env buf m ≡ buf ++ append_fetch_ok env [] m
  unfolding append_fetch_ok
  append_fetch_ok-buf buf m = simp field_laws

  pub parse_fetch_ok-append :
      (m : FetchOkMessage) (rest : List ℕ)
      → IsFetchOkMessage env m
      → parse_fetch_ok env (append_fetch_ok env [] m ++ rest) ≡ ok m
  unfolding append_fetch_ok parse_fetch_ok
  parse_fetch_ok-append m rest w = simp field_laws (
      rw (
        take_varint-encode env _ _ w.request_id,
        le→ltb 2 m.group_order w.group_order,
        parse_location_lem env _ _ w.end_location,
        parse_num_lem env _ _ [] w.subscribe_parameters,
      ))

  pub append_fetch_error-buf :
      (buf : List ℕ) (m : FetchErrorMessage)
      → append_fetch_error env buf m ≡ buf ++ append_fetch_error env [] m
  unfolding append_fetch_error
  append_fetch_error-buf buf m = simp field_laws

  pub parse_fetch_error-append :
      (m : FetchErrorMessage) (rest : List ℕ)
      → IsFetchErrorMessage env m
      → parse_fetch_error env (append_fetch_error env [] m ++ rest) ≡ ok m
  unfolding append_fetch_error parse_fetch_error
  parse_fetch_error-append m rest w = simp field_laws (
      rw (
        take_varint-encode env _ _ w.request_id,
        take_varint-encode env _ _ w.error_code,
        parse_var_int_bytes_lem env _ _ w.reason_phrase,
      ))

  pub append_fetch_cancel-buf :
      (buf : List ℕ) (m : FetchCancelMessage)
      → append_fetch_cancel env buf m ≡ buf ++ append_fetch_cancel env [] m
  unfolding append_fetch_cancel
  append_fetch_cancel-buf buf m = simp field_laws

  pub parse_fetch_cancel-append :
      (m : FetchCancelMessage) (rest : List ℕ)
      → IsFetchCancelMessage env m
      → parse_fetch_cancel env (append_fetch_cancel env [] m ++ rest) ≡ ok m
  unfolding append_fetch_cancel parse_fetch_cancel
  parse_fetch_cancel-append m rest w =
      simp field_laws (rw (take_varint-encode env _ _ w.request_id))
