-- ===== src/Wire/Subscribe/RoundTrip.antt =====
-- `Append` and `parse` of internal/wire together, for the messages on subscriptions.
use moqtransport_fec.Base.{ℕ, ◌≡◌, List, [], ◌++◌, ok, le→ltb}
use moqtransport_fec.Wire.Env.{Env, take_varint-encode}
use moqtransport_fec.Wire.Fields.RoundTrip.{
  parse_var_int_bytes_lem, parse_tuple_lem, parse_location_lem,
}
use moqtransport_fec.Wire.Params.RoundTrip.{parse_num_lem}
use moqtransport_fec.Wire.Rules.{field_laws}
use moqtransport_fec.Wire.Filter.RoundTrip.{append_filter_lem, parse_filter_lem}
use moqtransport_fec.Wire.Subscribe.{
  SubscribeMessage, IsSubscribeMessage, append_subscribe, parse_subscribe, SubscribeUpdateMessage,
  IsSubscribeUpdateMessage, append_subscribe_update, parse_subscribe_update, SubscribeErrorMessage,
  IsSubscribeErrorMessage, append_subscribe_error, parse_subscribe_error, SubscribeDoneMessage,
  IsSubscribeDoneMessage, append_subscribe_done, parse_subscribe_done, UnsubscribeMessage,
  IsUnsubscribeMessage, append_unsubscribe, parse_unsubscribe,
}

module _ (env : Env) where
  pub append_subscribe-buf :
      (buf : List ℕ) (m : SubscribeMessage)
      → IsSubscribeMessage env m
      → append_subscribe env buf m ≡ buf ++ append_subscribe env [] m
  unfolding append_subscribe
  append_subscribe-buf buf m w =
      rw (append_filter_lem env _ m.filter w.filter)
        (rw (append_filter_lem env _ m.filter w.filter) (simp field_laws))

  -- A well-formed SUBSCRIBE that `Append` wrote, followed by any bytes, is parsed into the same
  -- message, whichever filter it has.
  pub parse_subscribe-append :
      (m : SubscribeMessage) (rest : List ℕ)
      → IsSubscribeMessage env m
      → parse_subscribe env (append_subscribe env [] m ++ rest) ≡ ok m
  unfolding append_subscribe parse_subscribe
  parse_subscribe-append m rest w = rw (append_filter_lem env _ m.filter w.filter) (
      simp field_laws (
        rw (
          take_varint-encode env _ _ w.request_id,
          parse_tuple_lem env _ _ w.track_namespace,
          parse_var_int_bytes_lem env _ _ w.track_name,
          le→ltb 2 m.group_order w.group_order,
          le→ltb 1 m.forward w.forward,
          parse_filter_lem env _ _ w.filter,
          parse_num_lem env _ _ [] w.parameters,
        )))

  pub append_subscribe_update-buf :
      (buf : List ℕ) (m : SubscribeUpdateMessage)
      → append_subscribe_update env buf m ≡ buf ++ append_subscribe_update env [] m
  unfolding append_subscribe_update
  append_subscribe_update-buf buf m = simp field_laws

  pub parse_subscribe_update-append :
      (m : SubscribeUpdateMessage) (rest : List ℕ)
      → IsSubscribeUpdateMessage env m
      → parse_subscribe_update env (append_subscribe_update env [] m ++ rest) ≡ ok m
  unfolding append_subscribe_update parse_subscribe_update
  parse_subscribe_update-append m rest w = simp field_laws (
      rw (
        take_varint-encode env _ _ w.request_id,
        parse_location_lem env _ _ w.start_location,
        take_varint-encode env _ _ w.end_group,
        le→ltb 2 m.forward w.forward,
        parse_num_lem env _ _ [] w.parameters,
      ))

  pub append_subscribe_error-buf :
      (buf : List ℕ) (m : SubscribeErrorMessage)
      → append_subscribe_error env buf m ≡ buf ++ append_subscribe_error env [] m
  unfolding append_subscribe_error
  append_subscribe_error-buf buf m = simp field_laws

  pub parse_subscribe_error-append :
      (m : SubscribeErrorMessage) (rest : List ℕ)
      → IsSubscribeErrorMessage env m
      → parse_subscribe_error env (append_subscribe_error env [] m ++ rest) ≡ ok m
  unfolding append_subscribe_error parse_subscribe_error
  parse_subscribe_error-append m rest w = simp field_laws (
      rw (
        take_varint-encode env _ _ w.request_id,
        take_varint-encode env _ _ w.error_code,
        parse_var_int_bytes_lem env _ _ w.reason_phrase,
      ))

  pub append_subscribe_done-buf :
      (buf : List ℕ) (m : SubscribeDoneMessage)
      → append_subscribe_done env buf m ≡ buf ++ append_subscribe_done env [] m
  unfolding append_subscribe_done
  append_subscribe_done-buf buf m = simp field_laws

  pub parse_subscribe_done-append :
      (m : SubscribeDoneMessage) (rest : List ℕ)
      → IsSubscribeDoneMessage env m
      → parse_subscribe_done env (append_subscribe_done env [] m ++ rest) ≡ ok m
  unfolding append_subscribe_done parse_subscribe_done
  parse_subscribe_done-append m rest w = simp field_laws (
      rw (
        take_varint-encode env _ _ w.request_id,
        take_varint-encode env _ _ w.status_code,
        take_varint-encode env _ _ w.stream_count,
        parse_var_int_bytes_lem env _ _ w.reason_phrase,
      ))

  pub append_unsubscribe-buf :
      (buf : List ℕ) (m : UnsubscribeMessage)
      → append_unsubscribe env buf m ≡ buf ++ append_unsubscribe env [] m
  unfolding append_unsubscribe
  append_unsubscribe-buf buf m = simp field_laws

  pub parse_unsubscribe-append :
      (m : UnsubscribeMessage) (rest : List ℕ)
      → IsUnsubscribeMessage env m
      → parse_unsubscribe env (append_unsubscribe env [] m ++ rest) ≡ ok m
  unfolding append_unsubscribe parse_unsubscribe
  parse_unsubscribe-append m rest w = simp field_laws (rw (take_varint-encode env _ _ w.request_id))
