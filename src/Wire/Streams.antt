-- ===== src/Wire/Streams.antt =====
-- object_stream_parser.go of internal/wire, less what it writes to the log. The reader is the bytes
-- that it has still to give, which each call returns with its result.
pub mod Consumption
pub mod Ending
use moqtransport_fec.Base.{
  ℕ, ◌%◌, Bool, true, false, not, List, [], none, some, leb, ◌==◌, ◌&&◌, ◌||◌, Result, ok, err,
  invalid_stream_type, ◌>>=◌, if◌then◌else◌,
}
use moqtransport_fec.Wire.Env.{Env}
use moqtransport_fec.Wire.Objects.{
  ObjectMessage, stream_type_fetch, read_subgroup, read_fetch, parse_subgroup_header,
  parse_fetch_header,
}

pub record ObjectStreamParser : Type 0 where
  pub typ : ℕ
  pub identifier : ℕ
  pub has_subgroup_id : Bool
  pub has_extensions : Bool
  pub publisher_priority : ℕ
  pub group_id : ℕ
  pub subgroup_id : ℕ

-- streamType >= 0x08 && streamType <= 0x0d
abbrev pub is_subgroup : ℕ → Bool
is_subgroup t = leb 0x08 t && leb t 0x0d

module _ (env : Env) where
  unfoldable pub new_object_stream_parser : List ℕ → Result (ObjectStreamParser × List ℕ)
  new_object_stream_parser input = do
    (st, rest) ← env.read input
    if st == stream_type_fetch
        then (parse_fetch_header env rest >>= λ (fhm, tail). ok (
          record {
            typ = st;
            identifier = fhm.request_id;
            has_subgroup_id = false;
            has_extensions = false;
            publisher_priority = 0;
            group_id = 0;
            subgroup_id = 0;
          },
          tail,
        ))
        else if is_subgroup st
        then (parse_subgroup_header env (st == 0x0c || st == 0x0d) rest >>= λ (shsm, tail). ok (
          record {
            typ = st;
            identifier = shsm.track_alias;
            has_subgroup_id = not (st == 0x0a) && not (st == 0x0b);
            has_extensions = st % 2 == 1;
            publisher_priority = shsm.publisher_priority;
            group_id = shsm.group_id;
            subgroup_id = shsm.subgroup_id;
          },
          tail,
        ))
        else err (invalid_stream_type st)

  unfoldable pub parse_subgroup_object :
      ObjectStreamParser → List ℕ → Result (ObjectMessage × ObjectStreamParser × List ℕ)
  parse_subgroup_object p input = do
    (m, rest) ←
        read_subgroup env
          (record {
            track_alias = p.identifier;
            group_id = p.group_id;
            subgroup_id = p.subgroup_id;
            object_id = 0;
            publisher_priority = p.publisher_priority;
            object_extension_headers = if p.has_extensions then some [] else none;
            object_status = 0;
            object_payload = [];
          })
          input
    ok (
      m,
      (if p.has_subgroup_id
          then p
          else record p { subgroup_id = m.subgroup_id; has_subgroup_id = true }),
      rest,
    )

  unfoldable pub parse_fetch_object :
      ObjectStreamParser → List ℕ → Result (ObjectMessage × ObjectStreamParser × List ℕ)
  parse_fetch_object p input = do
    (m, rest) ←
        read_fetch env
          (record {
            track_alias = 0;
            group_id = p.group_id;
            subgroup_id = 0;
            object_id = 0;
            publisher_priority = p.publisher_priority;
            object_extension_headers = none;
            object_status = 0;
            object_payload = [];
          })
          input
    ok (m, p, rest)

  -- ObjectStreamParser.Parse
  unfoldable pub parse_object :
      ObjectStreamParser → List ℕ → Result (ObjectMessage × ObjectStreamParser × List ℕ)
  parse_object p input =
      if p.typ == stream_type_fetch
      then parse_fetch_object p input
      else if is_subgroup p.typ
      then parse_subgroup_object p input
      else err (invalid_stream_type p.typ)
