-- ===== src/Wire/Examples.antt =====
-- The theorems on datagrams and tokens at examples, with the encoding of QUIC's integers.
use moqtransport_fec.Base.{
  ◌<◌, ◌≡◌, refl, arith, List, [], ◌∷◌, length, Option, none, some, ok, hang, panic, All,
}
use moqtransport_fec.Wire.Env.{IsVarint, encode}
use moqtransport_fec.Wire.Quic.{quic}
use moqtransport_fec.Wire.Params.{KeyValuePair, IsPair}
use moqtransport_fec.Wire.Params.RoundTrip.{pairs, pair, value}
use moqtransport_fec.Wire.Datagram.{
  ObjectDatagramMessage, append_datagram, append_datagram_status, parse_datagram,
}
use moqtransport_fec.Wire.Datagram.RoundTrip.{
  IsDatagram, parse_datagram-append, parse_datagram_headers,
}
use moqtransport_fec.Wire.Token.{Token, append_token, parse_token}
use moqtransport_fec.Wire.Token.RoundTrip.{parse_token-append}

abbrev a_datagram : Option (List KeyValuePair) → ObjectDatagramMessage
a_datagram ext = record {
  track_alias = 5;
  group_id = 70;
  object_id = 9;
  publisher_priority = 128;
  object_extension_headers = ext;
  object_payload = 1 ∷ 2 ∷ [];
  object_status = 3;
}

a_datagram-IsDatagram : (ext : Option (List KeyValuePair)) → IsDatagram (a_datagram ext)
a_datagram-IsDatagram ext = record {
  track_alias = omega arith;
  group_id = omega arith;
  object_id = omega arith;
  object_status = omega arith;
}

parse_datagram-append_example :
    (parse_datagram quic 2
        (record { bytes = append_datagram quic [] (a_datagram none); spare = 9 ∷ [] })
      ≡ ok (
        record (a_datagram none) { object_status = 0 },
        length (append_datagram quic [] (a_datagram none)),
      ))
    × (parse_datagram quic 2
          (record { bytes = append_datagram_status quic [] (a_datagram none); spare = 9 ∷ [] })
        ≡ ok (
          record (a_datagram none) { object_payload = [] },
          length (append_datagram_status quic [] (a_datagram none)),
        ))
parse_datagram-append_example =
    parse_datagram-append quic (a_datagram none) 2 (9 ∷ []) (a_datagram-IsDatagram none) refl

abbrev a_header : KeyValuePair
a_header = record { typ = 4; value_bytes = []; value_var_int = 300 }

a_header-IsPair : All (IsPair quic) (a_header ∷ [])
a_header-IsPair = ((omega arith, (omega arith, refl)), tt)

a_header-fits : IsVarint (length (pairs quic (a_header ∷ [])))
unfolding pairs pair value encode quic
a_header-fits = omega arith

parse_datagram_headers_example :
    (parse_datagram quic 40 (record {
      bytes = append_datagram quic [] (a_datagram (some (a_header ∷ [])));
      spare = 7 ∷ [];
    })
      ≡ hang)
    × (1 < 3
        → parse_datagram quic 40 (record {
          bytes = append_datagram_status quic [] (a_datagram (some (a_header ∷ [])));
          spare = 7 ∷ [];
        })
          ≡ panic)
parse_datagram_headers_example =
    parse_datagram_headers quic (a_datagram (some (a_header ∷ []))) a_header [] 40 (7 ∷ [])
      (a_datagram-IsDatagram (some (a_header ∷ []))) refl a_header-IsPair a_header-fits

abbrev a_registration : Token
a_registration = record { alias_type = 1; alias = 6; typ = 0; value = 7 ∷ 8 ∷ [] }

abbrev no_token : Token
no_token = record { alias_type = 0; alias = 0; typ = 0; value = [] }

parse_token-append_example :
    parse_token quic no_token (append_token quic [] a_registration)
    ≡ ok (a_registration, length (append_token quic [] a_registration))
parse_token-append_example =
    parse_token-append quic no_token a_registration
      (record { alias_type = omega arith; alias = omega arith; typ = omega arith })
