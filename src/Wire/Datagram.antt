-- ===== src/Wire/Datagram.antt =====
-- Objects in datagrams: object_datagram_message.go of internal/wire.
pub mod RoundTrip
use moqtransport_fec.Base.{
  ℕ, ◌+◌, ◌/◌, ◌%◌, List, [], ◌∷◌, ◌++◌, Option, none, some, ◌==◌, length, Result, ok, err,
  unexpected_eof, ◌>>=◌, if◌then◌else◌,
}
use moqtransport_fec.Wire.Env.{Env}
use moqtransport_fec.Wire.Params.{KeyValuePair, Slice, slice_from, append_length, parse_length}
use moqtransport_fec.Wire.Objects.{headers}

abbrev pub object_type_datagram : ℕ
object_type_datagram = 0x00

abbrev pub object_type_datagram_extension : ℕ
object_type_datagram_extension = 0x01

abbrev pub object_type_datagram_status : ℕ
object_type_datagram_status = 0x02

abbrev pub object_type_datagram_status_extension : ℕ
object_type_datagram_status_extension = 0x03

-- A nil list of extension headers is `none`.
pub record ObjectDatagramMessage : Type 0 where
  pub track_alias : ℕ
  pub group_id : ℕ
  pub object_id : ℕ
  pub publisher_priority : ℕ
  pub object_extension_headers : Option (List KeyValuePair)
  pub object_payload : List ℕ
  pub object_status : ℕ

-- The type of a message with and without extension headers.
abbrev pub datagram_type : Option (List KeyValuePair) → ℕ
datagram_type none = object_type_datagram
datagram_type (some pp) = object_type_datagram_extension

abbrev pub status_type : Option (List KeyValuePair) → ℕ
status_type none = object_type_datagram_status
status_type (some pp) = object_type_datagram_status_extension

module _ (env : Env) where
  -- What both kinds begin with. The test of the type is the same in both, so that the headers of a
  -- status are never written.
  unfoldable pub append_datagram_head : List ℕ → ℕ → ObjectDatagramMessage → List ℕ
  append_datagram_head buf typ m =
      let head =
        env.append (env.append (env.append (env.append buf typ) m.track_alias) m.group_id)
          m.object_id
        ++ (m.publisher_priority ∷ []) in
      if typ == object_type_datagram_extension
      then append_length env head (headers m.object_extension_headers)
      else head

  unfoldable pub append_datagram : List ℕ → ObjectDatagramMessage → List ℕ
  append_datagram buf m =
      append_datagram_head buf (datagram_type m.object_extension_headers) m ++ m.object_payload

  unfoldable pub append_datagram_status : List ℕ → ObjectDatagramMessage → List ℕ
  append_datagram_status buf m =
      env.append (append_datagram_head buf (status_type m.object_extension_headers) m)
        m.object_status

  -- `typ&0x01 == 1`: what parseLength reads is not skipped. `fuel` bounds its loop.
  unfoldable pub parse_extension : ℕ → ℕ → Slice → ℕ → Result (Option (List KeyValuePair) × ℕ)
  parse_extension fuel typ s parsed =
      if typ % 2 == 1
      then (parse_length env fuel s >>= λ (pp, n). ok (some pp, parsed + n))
      else ok (none, parsed)

  -- `typ&0x02 == 0`
  unfoldable pub parse_content_of :
      ℕ → Slice → ObjectDatagramMessage → ℕ → Result (ObjectDatagramMessage × ℕ)
  parse_content_of typ s m parsed =
      if typ / 2 % 2 == 0
      then ok (record m { object_payload = s.bytes }, parsed + length s.bytes)
      else (env.parse s.bytes >>= λ (status, n).
          ok (record m { object_status = status }, parsed + n))

  abbrev pub first_byte : Slice → Result (ℕ × Slice)
  first_byte s = elim s.bytes [ [] ↦ err unexpected_eof | b ∷ rest ↦ ok (b, slice_from 1 s) ]

  -- Into a new message, with the number of bytes that it took.
  unfoldable pub parse_datagram : ℕ → Slice → Result (ObjectDatagramMessage × ℕ)
  parse_datagram fuel s = do
    (typ, n) ← env.parse s.bytes
    let s1 = slice_from n s
    (track_alias, n1) ← env.parse s1.bytes
    let s2 = slice_from n1 s1
    (group_id, n2) ← env.parse s2.bytes
    let s3 = slice_from n2 s2
    (object_id, n3) ← env.parse s3.bytes
    (publisher_priority, s4) ← first_byte (slice_from n3 s3)
    (ext, parsed) ← parse_extension fuel typ s4 (n + n1 + n2 + n3 + 1)
    parse_content_of typ s4
        (record {
          track_alias = track_alias;
          group_id = group_id;
          object_id = object_id;
          publisher_priority = publisher_priority;
          object_extension_headers = ext;
          object_payload = [];
          object_status = 0;
        })
        parsed
