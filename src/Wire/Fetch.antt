-- ===== src/Wire/Fetch.antt =====
-- fetch_message.go of internal/wire.
pub mod RoundTrip
use moqtransport_fec.Base.{
  ℕ, ◌+◌, ◌*◌, ◌≤◌, ◌≡◌, Bool, true, false, List, [], ◌∷◌, ◌++◌, ltb, ◌==◌, ◌||◌, Result, ok,
  invalid_group_order, invalid_fetch_type, ◌>>=◌, ◌>>◌, refuse,
}
use moqtransport_fec.Wire.Env.{Env, IsVarint, take_varint}
use moqtransport_fec.Wire.Fields.{
  IsText, IsTuple, append_var_int_bytes, parse_var_int_bytes, append_tuple, parse_tuple, two_bytes,
}
use moqtransport_fec.Wire.Params.{KeyValuePair, full, append_num, parse_num, IsList}

-- The fields of a standalone fetch, and those of a joining one; the others are not on the wire, and
-- have their zero values.
pub record Standalone : Type 0 where
  pub track_namespace : List (List ℕ)
  pub track_name : List ℕ
  pub start_group : ℕ
  pub start_object : ℕ
  pub end_group : ℕ
  pub end_object : ℕ

pub record Joining : Type 0 where
  pub joining_subscribe_id : ℕ
  pub joining_start : ℕ

abbrev pub no_standalone : Standalone
no_standalone = record {
  track_namespace = [];
  track_name = [];
  start_group = 0;
  start_object = 0;
  end_group = 0;
  end_object = 0;
}

abbrev pub no_joining : Joining
no_joining = record { joining_subscribe_id = 0; joining_start = 0 }

pub record FetchMessage : Type 0 where
  pub request_id : ℕ
  pub subscriber_priority : ℕ
  pub group_order : ℕ
  pub fetch_type : ℕ
  pub standalone : Standalone
  pub open standalone use *
  pub joining : Joining
  pub open joining use *
  pub parameters : List KeyValuePair

abbrev pub fetch_type_standalone : ℕ
fetch_type_standalone = 0x01

abbrev pub fetch_type_absolute_joining : ℕ
fetch_type_absolute_joining = 0x03

abbrev pub is_standalone : ℕ → Bool
is_standalone t = t == fetch_type_standalone

module _ (env : Env) where
  append_range : Bool → List ℕ → Standalone → Joining → List ℕ
  append_range true buf s j =
      env.append
        (env.append
          (env.append
            (env.append
              (append_var_int_bytes env (append_tuple env buf s.track_namespace) s.track_name)
              s.start_group)
            s.start_object)
          s.end_group)
        s.end_object
  append_range false buf s j = env.append (env.append buf j.joining_subscribe_id) j.joining_start

  pub append_fetch : List ℕ → FetchMessage → List ℕ
  append_fetch buf m =
      append_num env
        (append_range (is_standalone m.fetch_type)
          (env.append (env.append buf m.request_id ++ (m.subscriber_priority ∷ m.group_order ∷ []))
            m.fetch_type)
          m.standalone m.joining)
        m.parameters

  parse_standalone : List ℕ → Result (Standalone × Joining × List ℕ)
  parse_standalone input = do
    (track_namespace, rest) ← parse_tuple env input
    (track_name, rest') ← parse_var_int_bytes env rest
    (start_group, rest'') ← take_varint env rest'
    (start_object, tail) ← take_varint env rest''
    (end_group, tail') ← take_varint env tail
    (end_object, tail'') ← take_varint env tail'
    ok (
      record {
        track_namespace = track_namespace;
        track_name = track_name;
        start_group = start_group;
        start_object = start_object;
        end_group = end_group;
        end_object = end_object;
      },
      no_joining,
      tail'',
    )

  parse_joining : List ℕ → Result (Standalone × Joining × List ℕ)
  parse_joining input = do
    (joining_subscribe_id, rest) ← take_varint env input
    (joining_start, rest') ← take_varint env rest
    ok (
      no_standalone,
      record { joining_subscribe_id = joining_subscribe_id; joining_start = joining_start },
      rest',
    )

  parse_range : Bool → List ℕ → Result (Standalone × Joining × List ℕ)
  parse_range true input = parse_standalone input
  parse_range false input = parse_joining input

  pub parse_fetch : List ℕ → Result FetchMessage
  parse_fetch input = do
    (request_id, rest) ← take_varint env input
    (subscriber_priority, group_order, rest') ← two_bytes rest
    refuse (ltb 2 group_order) invalid_group_order
    (fetch_type, rest'') ← take_varint env rest'
    refuse (ltb fetch_type fetch_type_standalone || ltb fetch_type_absolute_joining fetch_type)
        invalid_fetch_type
    (standalone, joining, tail) ← parse_range (is_standalone fetch_type) rest''
    parameters ← parse_num env (full tail)
    ok (record {
      request_id = request_id;
      subscriber_priority = subscriber_priority;
      group_order = group_order;
      fetch_type = fetch_type;
      standalone = standalone;
      joining = joining;
      parameters = parameters;
    })

-- What an encoder accepts, field by field.
pub record IsStandalone (env : Env) (s : Standalone) : Type 0 where
  pub track_namespace : IsTuple env s.track_namespace
  pub track_name : IsText s.track_name
  pub start_group : IsVarint s.start_group
  pub start_object : IsVarint s.start_object
  pub end_group : IsVarint s.end_group
  pub end_object : IsVarint s.end_object

pub record IsJoining (j : Joining) : Type 0 where
  pub joining_subscribe_id : IsVarint j.joining_subscribe_id
  pub joining_start : IsVarint j.joining_start

abbrev pub IsRange : Env → Bool → Standalone → Joining → Type 0
IsRange env true s j = IsStandalone env s × (j ≡ no_joining)
IsRange env false s j = IsJoining j × (s ≡ no_standalone)

pub record IsFetchMessage (env : Env) (m : FetchMessage) : Type 0 where
  pub request_id : IsVarint m.request_id
  pub group_order : m.group_order ≤ 2
  pub at_least : 1 ≤ m.fetch_type
  pub at_most : m.fetch_type ≤ 3
  pub range : IsRange env (is_standalone m.fetch_type) m.standalone m.joining
  pub parameters : IsList env m.parameters
