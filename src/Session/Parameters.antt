-- ===== src/Session/Parameters.antt =====
-- KVPList of messages.go, and the option WithAuthorizationToken of session.go. ToWire and FromWire copy
-- the list, which a list here needs no copy of. A duration counts nanoseconds in 64 bits.
pub mod Token
use moqtransport_fec.Base.{
  ℕ, ◌*◌, ◌%◌, List, [], ◌∷◌, Option, none, some, ltb, ◌==◌, length, if◌then◌else◌,
}
use moqtransport_fec.Wire.Params.{KeyValuePair, authorization_token_parameter_key}
use moqtransport_fec.Wire.SubscribeOk.{millisecond}
use moqtransport_fec.Session.Ids.{u64_mod}

abbrev pub delivery_timeout_parameter_key : ℕ
delivery_timeout_parameter_key = 0x02

abbrev pub max_cache_duration_parameter_key : ℕ
max_cache_duration_parameter_key = 0x04

unfoldable pub get_parameter : List KeyValuePair → ℕ → Option KeyValuePair
get_parameter [] key = none
get_parameter (p ∷ pp) key = if p.typ == key then some p else get_parameter pp key

-- time.Duration(n) * time.Millisecond
abbrev pub milliseconds : ℕ → ℕ
milliseconds n = n * millisecond % u64_mod

unfoldable pub get_delivery_timeout : List KeyValuePair → Option ℕ
get_delivery_timeout [] = none
get_delivery_timeout (p ∷ pp) =
    if p.typ == delivery_timeout_parameter_key
    then some (milliseconds p.value_var_int)
    else get_delivery_timeout pp

unfoldable pub get_max_cache_duration : List KeyValuePair → Option ℕ
get_max_cache_duration [] = none
get_max_cache_duration (p ∷ pp) =
    if p.typ == max_cache_duration_parameter_key
    then (if ltb 0 (length p.value_bytes) then some 0 else some (milliseconds p.value_var_int))
    else get_max_cache_duration pp

-- An empty token is passed over.
unfoldable pub get_authorization_token : List KeyValuePair → Option (List ℕ)
get_authorization_token [] = none
get_authorization_token (p ∷ pp) =
    let rest = get_authorization_token pp in
    if p.typ == authorization_token_parameter_key
    then (if ltb 0 (length p.value_bytes) then some p.value_bytes else rest)
    else rest

-- The first token of the parameters is replaced, or one is added at the end.
unfoldable pub replace_token : List ℕ → List KeyValuePair → List KeyValuePair
replace_token token [] =
    record { typ = authorization_token_parameter_key; value_bytes = token; value_var_int = 0 } ∷ []
replace_token token (p ∷ pp) =
    let rest = replace_token token pp in
    if p.typ == authorization_token_parameter_key
    then record p { value_bytes = token } ∷ pp
    else p ∷ rest

unfoldable pub with_authorization_token : List ℕ → List KeyValuePair → List KeyValuePair
with_authorization_token token pp = if ltb 0 (length token) then replace_token token pp else pp
