-- ===== src/Wire/Objects.antt =====
-- Objects on streams: object_message.go, stream_header_subgroup_message.go and
-- fetch_header_message.go of internal/wire. Readers are the bytes that they have still to give. The
-- buffered reader that readSubgroup and readFetch put around theirs is the same reader, since theirs
-- is a buffered one already.
pub mod RoundTrip
use moqtransport_fec.Base.{
  ℕ, Bool, List, [], ◌∷◌, ◌++◌, Option, none, some, ◌==◌, length, Result, ok, ◌>>=◌, ◌>>◌,
  if◌then◌else◌,
}
use moqtransport_fec.Wire.Env.{Env, make}
use moqtransport_fec.Wire.Params.{KeyValuePair, append_length, parse_length_reader, read_full}
use moqtransport_fec.Wire.Control.{read_byte}

abbrev pub stream_type_fetch : ℕ
stream_type_fetch = 0x05

abbrev pub stream_type_subgroup_sid_ext : ℕ
stream_type_subgroup_sid_ext = 0x0d

-- A nil list of extension headers is `none`.
pub record ObjectMessage : Type 0 where
  pub track_alias : ℕ
  pub group_id : ℕ
  pub subgroup_id : ℕ
  pub object_id : ℕ
  pub publisher_priority : ℕ
  pub object_extension_headers : Option (List KeyValuePair)
  pub object_status : ℕ
  pub object_payload : List ℕ

pub record SubgroupHeaderMessage : Type 0 where
  pub track_alias : ℕ
  pub group_id : ℕ
  pub subgroup_id : ℕ
  pub publisher_priority : ℕ

pub record FetchHeaderMessage : Type 0 where
  pub request_id : ℕ

-- What `len` and `range` see of a list that may be nil.
abbrev pub headers : Option (List KeyValuePair) → List KeyValuePair
headers none = []
headers (some pp) = pp

module _ (env : Env) where
  -- The end that the two kinds of object share: the length, and the status or the payload.
  unfoldable pub append_payload : List ℕ → ObjectMessage → List ℕ
  append_payload buf m =
      if length m.object_payload == 0
      then env.append (env.append buf (length m.object_payload)) m.object_status
      else env.append buf (length m.object_payload) ++ m.object_payload

  unfoldable pub append_subgroup : List ℕ → ObjectMessage → List ℕ
  append_subgroup buf m =
      append_payload
        (append_length env (env.append buf m.object_id) (headers m.object_extension_headers)) m

  unfoldable pub append_fetch_object : List ℕ → ObjectMessage → List ℕ
  append_fetch_object buf m =
      append_payload
        (append_length env
          (env.append (env.append (env.append buf m.group_id) m.subgroup_id) m.object_id
            ++ (m.publisher_priority ∷ []))
          (headers m.object_extension_headers))
        m

  unfoldable pub read_payload : ObjectMessage → List ℕ → Result (ObjectMessage × List ℕ)
  read_payload m input = do
    (l, rest) ← env.read input
    if l == 0
        then (env.read rest >>= λ (status, tail). ok (record m { object_status = status }, tail))
        else (make env l >> read_full env l rest >>= λ (payload, tail).
            ok (record m { object_payload = payload }, tail))

  -- The headers are read on top of those that the list has already.
  unfoldable pub read_headers :
      List KeyValuePair → List ℕ → Result (Option (List KeyValuePair) × List ℕ)
  read_headers pp input = do (qs, rest) ← parse_length_reader env input; ok (some (pp ++ qs), rest)

  unfoldable pub read_subgroup_headers :
      Option (List KeyValuePair) → List ℕ → Result (Option (List KeyValuePair) × List ℕ)
  read_subgroup_headers none input = ok (none, input)
  read_subgroup_headers (some pp) input = read_headers pp input

  unfoldable pub read_subgroup : ObjectMessage → List ℕ → Result (ObjectMessage × List ℕ)
  read_subgroup m input = do
    (object_id, rest) ← env.read input
    (ext, rest') ← read_subgroup_headers m.object_extension_headers rest
    read_payload (record m { object_id = object_id; object_extension_headers = ext }) rest'

  unfoldable pub read_fetch : ObjectMessage → List ℕ → Result (ObjectMessage × List ℕ)
  read_fetch m input = do
    (group_id, rest) ← env.read input
    (subgroup_id, rest') ← env.read rest
    (object_id, rest'') ← env.read rest'
    (publisher_priority, tail) ← read_byte rest''
    (ext, tail') ← read_headers (headers m.object_extension_headers) tail
    read_payload
        (record m {
          group_id = group_id;
          subgroup_id = subgroup_id;
          object_id = object_id;
          publisher_priority = publisher_priority;
          object_extension_headers = ext;
        })
        tail'

  unfoldable pub append_subgroup_header : List ℕ → SubgroupHeaderMessage → List ℕ
  append_subgroup_header buf m =
      env.append
        (env.append (env.append (env.append buf stream_type_subgroup_sid_ext) m.track_alias)
          m.group_id)
        m.subgroup_id
      ++ (m.publisher_priority ∷ [])

  -- Behind the stream type; `sid` says that the subgroup ID is there.
  unfoldable pub parse_subgroup_header : Bool → List ℕ → Result (SubgroupHeaderMessage × List ℕ)
  parse_subgroup_header sid input = do
    (track_alias, rest) ← env.read input
    (group_id, rest') ← env.read rest
    (subgroup_id, rest'') ← if sid then env.read rest' else ok (0, rest')
    (publisher_priority, tail) ← read_byte rest''
    ok (
      record {
        track_alias = track_alias;
        group_id = group_id;
        subgroup_id = subgroup_id;
        publisher_priority = publisher_priority;
      },
      tail,
    )

  unfoldable pub append_fetch_header : List ℕ → FetchHeaderMessage → List ℕ
  append_fetch_header buf m = env.append (env.append buf stream_type_fetch) m.request_id

  unfoldable pub parse_fetch_header : List ℕ → Result (FetchHeaderMessage × List ℕ)
  parse_fetch_header input = do
    (request_id, rest) ← env.read input
    ok (record { request_id = request_id }, rest)
