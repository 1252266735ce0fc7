-- ===== src/Wire/Announces/RoundTrip.antt =====
-- `Append` and `parse` of internal/wire together, for the messages on subscriptions to announcements.
use moqtransport_fec.Base.{ℕ, ◌≡◌, List, [], ◌++◌, ok}
use moqtransport_fec.Wire.Env.{Env, take_varint-encode}
use moqtransport_fec.Wire.Fields.RoundTrip.{parse_var_int_bytes_lem, parse_tuple_lem}
use moqtransport_fec.Wire.Params.RoundTrip.{parse_num_lem}
use moqtransport_fec.Wire.Rules.{field_laws}
use moqtransport_fec.Wire.Announces.{
  SubscribeAnnouncesMessage, IsSubscribeAnnouncesMessage, append_subscribe_announces,
  parse_subscribe_announces, SubscribeAnnouncesOkMessage, IsSubscribeAnnouncesOkMessage,
  append_subscribe_announces_ok, parse_subscribe_announces_ok, SubscribeAnnouncesErrorMessage,
  IsSubscribeAnnouncesErrorMessage, append_subscribe_announces_error,
  parse_subscribe_announces_error, UnsubscribeAnnouncesMessage, IsUnsubscribeAnnouncesMessage,
  append_unsubscribe_announces, parse_unsubscribe_announces,
}

module _ (env : Env) where
  pub append_subscribe_announces-buf :
      (buf : List ℕ) (m : SubscribeAnnouncesMessage)
      → append_subscribe_announces env buf m ≡ buf ++ append_subscribe_announces env [] m
  unfolding append_subscribe_announces
  append_subscribe_announces-buf buf m = simp field_laws

  pub parse_subscribe_announces-append :
      (m : SubscribeAnnouncesMessage) (rest : List ℕ)
      → IsSubscribeAnnouncesMessage env m
      → parse_subscribe_announces env (append_subscribe_announces env [] m ++ rest) ≡ ok m
  unfolding append_subscribe_announces parse_subscribe_announces
  parse_subscribe_announces-append m rest w = simp field_laws (
      rw (
        take_varint-encode env _ _ w.request_id,
        parse_tuple_lem env _ _ w.track_namespace_prefix,
        parse_num_lem env _ _ [] w.parameters,
      ))

  pub append_subscribe_announces_ok-buf :
      (buf : List ℕ) (m : SubscribeAnnouncesOkMessage)
      → append_subscribe_announces_ok env buf m ≡ buf ++ append_subscribe_announces_ok env [] m
  unfolding append_subscribe_announces_ok
  append_subscribe_announces_ok-buf buf m = simp field_laws

  pub parse_subscribe_announces_ok-append :
      (m : SubscribeAnnouncesOkMessage) (rest : List ℕ)
      → IsSubscribeAnnouncesOkMessage env m
      → parse_subscribe_announces_ok env (append_subscribe_announces_ok env [] m ++ rest) ≡ ok m
  unfolding append_subscribe_announces_ok parse_subscribe_announces_ok
  parse_subscribe_announces_ok-append m rest w =
      simp field_laws (rw (take_varint-encode env _ _ w.request_id))

  pub append_subscribe_announces_error-buf :
      (buf : List ℕ) (m : SubscribeAnnouncesErrorMessage)
      → append_subscribe_announces_error env buf m
        ≡ buf ++ append_subscribe_announces_error env [] m
  unfolding append_subscribe_announces_error
  append_subscribe_announces_error-buf buf m = simp field_laws

  pub parse_subscribe_announces_error-append :
      (m : SubscribeAnnouncesErrorMessage) (rest : List ℕ)
      → IsSubscribeAnnouncesErrorMessage env m
      → parse_subscribe_announces_error env (append_subscribe_announces_error env [] m ++ rest)
        ≡ ok m
  unfolding append_subscribe_announces_error parse_subscribe_announces_error
  parse_subscribe_announces_error-append m rest w = simp field_laws (
      rw (
        take_varint-encode env _ _ w.request_id,
        take_varint-encode env _ _ w.error_code,
        parse_var_int_bytes_lem env _ _ w.reason_phrase,
      ))

  pub append_unsubscribe_announces-buf :
      (buf : List ℕ) (m : UnsubscribeAnnouncesMessage)
      → append_unsubscribe_announces env buf m ≡ buf ++ append_unsubscribe_announces env [] m
  unfolding append_unsubscribe_announces
  append_unsubscribe_announces-buf buf m = simp field_laws

  pub parse_unsubscribe_announces-append :
      (m : UnsubscribeAnnouncesMessage) (rest : List ℕ)
      → IsUnsubscribeAnnouncesMessage env m
      → parse_unsubscribe_announces env (append_unsubscribe_announces env [] m ++ rest) ≡ ok m
  unfolding append_unsubscribe_announces parse_unsubscribe_announces
  parse_unsubscribe_announces-append m rest w =
      simp field_laws (rw (parse_tuple_lem env _ _ w.track_namespace_prefix))
