-- ===== src/Wire/Rules.antt =====
-- The laws by which what the encoders append becomes one concatenation, bracketed to the right.
use moqtransport_fec.Base.{append_assoc}
use moqtransport_fec.Wire.Env.{append-encode}
use moqtransport_fec.Wire.Fields.RoundTrip.{
  append_var_int_bytes_lem, append_tuple_lem, append_location_lem, append_versions_lem,
}
use moqtransport_fec.Wire.Params.RoundTrip.{append_num_lem}

pub ruleset field_laws = (
  append-encode, append_var_int_bytes_lem, append_tuple_lem, append_location_lem,
  append_versions_lem, append_num_lem, append_assoc,
)
