-- ===== src/Wire/Encodable.antt =====
-- The numbers that the methods `Append` of the control messages hand to quicvarint. Its `Append`
-- panics on a number from 2^62 on, so this decides whether compileMessage panics.
use moqtransport_fec.Base.{
  ℕ, ◌^◌, Bool, true, ◌&&◌, List, [], ◌∷◌, ◌++◌, ltb, length, if◌then◌else◌,
}
use moqtransport_fec.Wire.Fields.{Location}
use moqtransport_fec.Wire.Params.{KeyValuePair, has_bytes}
use moqtransport_fec.Wire.Filter.{Filter, has_start, has_end}
use moqtransport_fec.Wire.Fetch.{FetchMessage, is_standalone}
use moqtransport_fec.Wire.Message.{ControlMessage}

-- A number that quicvarint encodes.
abbrev pub has_encoding : ℕ → Bool
has_encoding v = ltb v (2 ^ 62)

unfoldable pub all_have_encoding : List ℕ → Bool
all_have_encoding [] = true
all_have_encoding (v ∷ vs) = has_encoding v && all_have_encoding vs

-- Every string goes with its length, and a list with its own.
unfoldable pub string_numbers : List (List ℕ) → List ℕ
string_numbers [] = []
string_numbers (t ∷ ts) = length t ∷ string_numbers ts

abbrev pub tuple_numbers : List (List ℕ) → List ℕ
tuple_numbers t = length t ∷ string_numbers t

unfoldable pub pair_numbers : List KeyValuePair → List ℕ
pair_numbers [] = []
pair_numbers (p ∷ pp) =
    p.typ ∷ (if has_bytes p.typ then length p.value_bytes else p.value_var_int) ∷ pair_numbers pp

abbrev pub num_numbers : List KeyValuePair → List ℕ
num_numbers pp = length pp ∷ pair_numbers pp

abbrev pub location_numbers : Location → List ℕ
location_numbers l = l.group ∷ l.object ∷ []

-- The number of the filter's type is one of four.
unfoldable pub filter_numbers : Filter → List ℕ
filter_numbers f =
    (if has_start f.filter_type then location_numbers f.start_location else [])
    ++ (if has_end f.filter_type then f.end_group ∷ [] else [])

unfoldable pub range_numbers : FetchMessage → List ℕ
range_numbers m =
    if is_standalone m.fetch_type
    then tuple_numbers m.track_namespace
      ++ (length m.track_name ∷ m.start_group ∷ m.start_object ∷ m.end_group ∷ m.end_object ∷ [])
    else m.joining_subscribe_id ∷ m.joining_start ∷ []

unfoldable pub numbers : ControlMessage → List ℕ
numbers (ControlMessage.client_setup m) =
    (length m.supported_versions ∷ m.supported_versions) ++ num_numbers m.setup_parameters
numbers (ControlMessage.server_setup m) = m.selected_version ∷ num_numbers m.setup_parameters
numbers (ControlMessage.go_away m) = length m.new_session_uri ∷ []
numbers (ControlMessage.max_request_id m) = m.request_id ∷ []
numbers (ControlMessage.requests_blocked m) = m.maximum_request_id ∷ []
numbers (ControlMessage.subscribe m) =
    m.request_id
    ∷ (tuple_numbers m.track_namespace
        ++ (length m.track_name ∷ (filter_numbers m.filter ++ num_numbers m.parameters)))
numbers (ControlMessage.subscribe_ok m) =
    m.request_id
    ∷ m.track_alias
    ∷ m.expires
    ∷ ((if m.content_exists then location_numbers m.largest_location else [])
        ++ num_numbers m.parameters)
numbers (ControlMessage.subscribe_error m) =
    m.request_id ∷ m.error_code ∷ length m.reason_phrase ∷ []
numbers (ControlMessage.unsubscribe m) = m.request_id ∷ []
numbers (ControlMessage.subscribe_update m) =
    m.request_id ∷ (location_numbers m.start_location ++ (m.end_group ∷ num_numbers m.parameters))
numbers (ControlMessage.subscribe_done m) =
    m.request_id ∷ m.status_code ∷ m.stream_count ∷ length m.reason_phrase ∷ []
numbers (ControlMessage.fetch m) =
    m.request_id ∷ m.fetch_type ∷ (range_numbers m ++ num_numbers m.parameters)
numbers (ControlMessage.fetch_ok m) =
    m.request_id ∷ (location_numbers m.end_location ++ num_numbers m.subscribe_parameters)
numbers (ControlMessage.fetch_error m) = m.request_id ∷ m.error_code ∷ length m.reason_phrase ∷ []
numbers (ControlMessage.fetch_cancel m) = m.request_id ∷ []
numbers (ControlMessage.track_status_request m) =
    m.request_id
    ∷ (tuple_numbers m.track_namespace ++ (length m.track_name ∷ num_numbers m.parameters))
numbers (ControlMessage.track_status m) =
    m.request_id ∷ m.status_code ∷ (location_numbers m.largest_location ++ num_numbers m.parameters)
numbers (ControlMessage.announce m) =
    m.request_id ∷ (tuple_numbers m.track_namespace ++ num_numbers m.parameters)
numbers (ControlMessage.announce_ok m) = m.request_id ∷ []
numbers (ControlMessage.announce_error m) =
    m.request_id ∷ m.error_code ∷ length m.reason_phrase ∷ []
numbers (ControlMessage.unannounce m) = tuple_numbers m.track_namespace
numbers (ControlMessage.announce_cancel m) =
    tuple_numbers m.track_namespace ++ (m.error_code ∷ length m.reason_phrase ∷ [])
numbers (ControlMessage.subscribe_announces m) =
    m.request_id ∷ (tuple_numbers m.track_namespace_prefix ++ num_numbers m.parameters)
numbers (ControlMessage.subscribe_announces_ok m) = m.request_id ∷ []
numbers (ControlMessage.subscribe_announces_error m) =
    m.request_id ∷ m.error_code ∷ length m.reason_phrase ∷ []
numbers (ControlMessage.unsubscribe_announces m) = tuple_numbers m.track_namespace_prefix

-- Whether compileMessage returns, and does not panic.
unfoldable pub can_compile : ControlMessage → Bool
can_compile msg = all_have_encoding (numbers msg)
