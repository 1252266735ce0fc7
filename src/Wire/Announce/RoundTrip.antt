-- ===== src/Wire/Announce/RoundTrip.antt =====
-- `Append` and `parse` of internal/wire together, for the messages on announcements.
use moqtransport_fec.Base.{ℕ, ◌≡◌, List, [], ◌++◌, ok}
use moqtransport_fec.Wire.Env.{Env, take_varint-encode}
use moqtransport_fec.Wire.Fields.RoundTrip.{parse_var_int_bytes_lem, parse_tuple_lem}
use moqtransport_fec.Wire.Params.RoundTrip.{parse_num_lem}
use moqtransport_fec.Wire.Rules.{field_laws}
use moqtransport_fec.Wire.Announce.{
  AnnounceMessage, IsAnnounceMessage, append_announce, parse_announce, AnnounceOkMessage,
  IsAnnounceOkMessage, append_announce_ok, parse_announce_ok, AnnounceErrorMessage,
  IsAnnounceErrorMessage, append_announce_error, parse_announce_error, AnnounceCancelMessage,
  IsAnnounceCancelMessage, append_announce_cancel, parse_announce_cancel, UnannounceMessage,
  IsUnannounceMessage, append_unannounce, parse_unannounce,
}

module _ (env : Env) where
  pub append_announce-buf :
      (buf : List ℕ) (m : AnnounceMessage)
      → append_announce env buf m ≡ buf ++ append_announce env [] m
  unfolding append_announce
  append_announce-buf buf m = simp field_laws

  pub parse_announce-append :
      (m : AnnounceMessage) (rest : List ℕ)
      → IsAnnounceMessage env m
      → parse_announce env (append_announce env [] m ++ rest) ≡ ok m
  unfolding append_announce parse_announce
  parse_announce-append m rest w = simp field_laws (
      rw (
        take_varint-encode env _ _ w.request_id,
        parse_tuple_lem env _ _ w.track_namespace,
        parse_num_lem env _ _ [] w.parameters,
      ))

  pub append_announce_ok-buf :
      (buf : List ℕ) (m : AnnounceOkMessage)
      → append_announce_ok env buf m ≡ buf ++ append_announce_ok env [] m
  unfolding append_announce_ok
  append_announce_ok-buf buf m = simp field_laws

  pub parse_announce_ok-append :
      (m : AnnounceOkMessage) (rest : List ℕ)
      → IsAnnounceOkMessage env m
      → parse_announce_ok env (append_announce_ok env [] m ++ rest) ≡ ok m
  unfolding append_announce_ok parse_announce_ok
  parse_announce_ok-append m rest w = simp field_laws (rw (take_varint-encode env _ _ w.request_id))

  pub append_announce_error-buf :
      (buf : List ℕ) (m : AnnounceErrorMessage)
      → append_announce_error env buf m ≡ buf ++ append_announce_error env [] m
  unfolding append_announce_error
  append_announce_error-buf buf m = simp field_laws

  pub parse_announce_error-append :
      (m : AnnounceErrorMessage) (rest : List ℕ)
      → IsAnnounceErrorMessage env m
      → parse_announce_error env (append_announce_error env [] m ++ rest) ≡ ok m
  unfolding append_announce_error parse_announce_error
  parse_announce_error-append m rest w = simp field_laws (
      rw (
        take_varint-encode env _ _ w.request_id,
        take_varint-encode env _ _ w.error_code,
        parse_var_int_bytes_lem env _ _ w.reason_phrase,
      ))

  pub append_announce_cancel-buf :
      (buf : List ℕ) (m : AnnounceCancelMessage)
      → append_announce_cancel env buf m ≡ buf ++ append_announce_cancel env [] m
  unfolding append_announce_cancel
  append_announce_cancel-buf buf m = simp field_laws

  pub parse_announce_cancel-append :
      (m : AnnounceCancelMessage) (rest : List ℕ)
      → IsAnnounceCancelMessage env m
      → parse_announce_cancel env (append_announce_cancel env [] m ++ rest) ≡ ok m
  unfolding append_announce_cancel parse_announce_cancel
  parse_announce_cancel-append m rest w = simp field_laws (
      rw (
        parse_tuple_lem env _ _ w.track_namespace,
        take_varint-encode env _ _ w.error_code,
        parse_var_int_bytes_lem env _ _ w.reason_phrase,
      ))

  pub append_unannounce-buf :
      (buf : List ℕ) (m : UnannounceMessage)
      → append_unannounce env buf m ≡ buf ++ append_unannounce env [] m
  unfolding append_unannounce
  append_unannounce-buf buf m = simp field_laws

  pub parse_unannounce-append :
      (m : UnannounceMessage) (rest : List ℕ)
      → IsUnannounceMessage env m
      → parse_unannounce env (append_unannounce env [] m ++ rest) ≡ ok m
  unfolding append_unannounce parse_unannounce
  parse_unannounce-append m rest w =
      simp field_laws (rw (parse_tuple_lem env _ _ w.track_namespace))
