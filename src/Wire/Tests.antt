-- ===== src/Wire/Tests.antt =====
-- The theorems on the wire format at examples, with the encoding of QUIC's integers.
use moqtransport_fec.Base.{
  ℕ, ◌≤◌, ◌<◌, ◌≡◌, refl, arith, true, false, List, [], ◌∷◌, ◌++◌, length, ok, err, hang,
  control_message_too_large, replicate, length-replicate, length-append,
}
use moqtransport_fec.Wire.Env.{encode, take_varint, make}
use moqtransport_fec.Wire.Quic.{quic}
use moqtransport_fec.Wire.Fields.{
  append_location, append_filter_type, append_var_int_bytes, append_tuple, append_strings,
  parse_tuple, parse_strings, filter_type_absolute_start,
}
use moqtransport_fec.Wire.Filter.{append_filter}
use moqtransport_fec.Wire.Params.{
  KeyValuePair, read_full, parse_num, parse_pairs, append_num, append_list, append_pair,
  parse_length, append_length, IsPair,
}
use moqtransport_fec.Wire.Params.RoundTrip.{pairs, pair, value}
use moqtransport_fec.Wire.Params.Lengths.{append_length_lem}
use moqtransport_fec.Wire.Params.Stuck.{parse_length-hang}
use moqtransport_fec.Wire.Subscribe.{
  SubscribeMessage, IsSubscribeMessage, append_subscribe, parse_subscribe,
}
use moqtransport_fec.Wire.Subscribe.RoundTrip.{parse_subscribe-append}
use moqtransport_fec.Wire.SubscribeOk.{
  SubscribeOkMessage, IsSubscribeOkMessage, append_subscribe_ok, parse_subscribe_ok,
}
use moqtransport_fec.Wire.SubscribeOk.RoundTrip.{parse_subscribe_ok-append}
use moqtransport_fec.Wire.Fetch.{FetchMessage, no_standalone, append_fetch, parse_fetch}
use moqtransport_fec.Wire.Fetch.RoundTrip.{parse_fetch-append}
use moqtransport_fec.Wire.Announce.{
  AnnounceCancelMessage, append_announce_cancel, parse_announce, AnnounceMessage,
}
use moqtransport_fec.Wire.Setup.{append_go_away}
use moqtransport_fec.Wire.Message.{
  message_type, subscribe, announce, announce_cancel, go_away, is_announce_cancel,
}
use moqtransport_fec.Wire.Control.{
  read_byte, parse_body, append_message, compile_message, parse_message,
}
use moqtransport_fec.Wire.Control.RoundTrip.{
  parse_message-compile_message, announce_cancel_misread, compile_message_too_large,
}

abbrev a_token : KeyValuePair
a_token = record { typ = 3; value_bytes = 7 ∷ 8 ∷ []; value_var_int = 0 }

abbrev a_delay : KeyValuePair
a_delay = record { typ = 4; value_bytes = []; value_var_int = 300 }

abbrev a_subscribe : SubscribeMessage
a_subscribe = record {
  request_id = 2;
  track_namespace = (1 ∷ 2 ∷ []) ∷ (3 ∷ []) ∷ [];
  track_name = 9 ∷ [];
  subscriber_priority = 128;
  group_order = 1;
  forward = 1;
  filter = record {
    filter_type = filter_type_absolute_start;
    start_location = record { group = 70; object = 5 };
    end_group = 0;
  };
  parameters = a_token ∷ a_delay ∷ [];
}

a_subscribe-IsSubscribeMessage : IsSubscribeMessage quic a_subscribe
unfolding quic
a_subscribe-IsSubscribeMessage = record {
  request_id = omega arith;
  track_namespace = (omega arith, omega arith, (omega arith, (omega arith, tt)));
  track_name = omega arith;
  group_order = omega arith;
  forward = omega arith;
  filter = record {
    filter_type = (omega arith, omega arith);
    start_location = (omega arith, omega arith);
    end_group = refl;
  };
  parameters = (
    omega arith,
    ((omega arith, (omega arith, omega arith, refl)), ((omega arith, (omega arith, refl)), tt)),
  );
}

parse_subscribe-append_example :
    parse_subscribe quic (append_subscribe quic [] a_subscribe ++ (1 ∷ [])) ≡ ok a_subscribe
parse_subscribe-append_example =
    parse_subscribe-append quic a_subscribe (1 ∷ []) a_subscribe-IsSubscribeMessage

a_subscribe-length : length (append_message quic [] (subscribe a_subscribe)) ≡ 24
unfolding quic append_message append_subscribe append_num append_list append_pair append_filter
    append_var_int_bytes append_tuple append_strings append_location append_filter_type
a_subscribe-length = refl

parse_message-compile_message_example :
    (bytes : List ℕ) × (compile_message quic (subscribe a_subscribe) ≡ ok bytes)
    × ((rest : List ℕ) → parse_message quic (bytes ++ rest) ≡ ok (subscribe a_subscribe, rest))
parse_message-compile_message_example =
    parse_message-compile_message quic (subscribe a_subscribe) a_subscribe-IsSubscribeMessage refl
      (rw a_subscribe-length (omega arith))

abbrev an_ok : SubscribeOkMessage
an_ok = record {
  request_id = 2;
  track_alias = 4;
  expires = 5_000_000;
  group_order = 1;
  content_exists = true;
  largest_location = record { group = 3; object = 9 };
  parameters = [];
}

an_ok-IsSubscribeOkMessage : IsSubscribeOkMessage quic an_ok
an_ok-IsSubscribeOkMessage = record {
  request_id = omega arith;
  track_alias = omega arith;
  expires = omega arith;
  group_order = omega arith;
  largest_location = (omega arith, omega arith);
  parameters = (omega arith, tt);
}

parse_subscribe_ok-append_example :
    parse_subscribe_ok quic (append_subscribe_ok quic [] an_ok ++ [])
    ≡ ok (record an_ok { expires = 5_000_000_000_000 })
parse_subscribe_ok-append_example =
    parse_subscribe_ok-append quic an_ok [] an_ok-IsSubscribeOkMessage

abbrev a_fetch : FetchMessage
a_fetch = record {
  request_id = 6;
  subscriber_priority = 3;
  group_order = 2;
  fetch_type = 2;
  standalone = no_standalone;
  joining = record { joining_subscribe_id = 2; joining_start = 4 };
  parameters = a_delay ∷ [];
}

parse_fetch-append_example :
    parse_fetch quic (append_fetch quic [] a_fetch ++ (5 ∷ [])) ≡ ok a_fetch
unfolding quic
parse_fetch-append_example = parse_fetch-append quic a_fetch (5 ∷ []) (record {
  request_id = omega arith;
  group_order = omega arith;
  at_least = omega arith;
  at_most = omega arith;
  range = (record { joining_subscribe_id = omega arith; joining_start = omega arith }, refl);
  parameters = (omega arith, ((omega arith, (omega arith, refl)), tt));
})

abbrev a_cancel : AnnounceCancelMessage
a_cancel = record { track_namespace = []; error_code = 0; reason_phrase = [] }

abbrev misread : AnnounceMessage
misread = record { request_id = 0; track_namespace = []; parameters = [] }

abbrev cancel_bytes : List ℕ
cancel_bytes = 6 ∷ 0 ∷ 3 ∷ 0 ∷ 0 ∷ 0 ∷ []

cancel_bytes-compiled : compile_message quic (announce_cancel a_cancel) ≡ ok cancel_bytes
unfolding quic compile_message message_type append_message append_announce_cancel
    append_var_int_bytes append_tuple append_strings
cancel_bytes-compiled = refl

cancel_bytes-misread : parse_message quic (cancel_bytes ++ []) ≡ ok (announce misread, [])
unfolding quic parse_message read_byte read_full parse_body parse_announce take_varint parse_tuple
    make parse_strings parse_num parse_pairs
cancel_bytes-misread = refl

announce_cancel_misread_example : is_announce_cancel (announce misread) ≡ false
announce_cancel_misread_example =
    announce_cancel_misread quic a_cancel cancel_bytes [] [] (announce misread)
      (record {
        track_namespace = (omega arith, omega arith, tt);
        error_code = omega arith;
        reason_phrase = omega arith;
      })
      cancel_bytes-compiled cancel_bytes-misread

-- A URI of 65536 bytes.
long_uri : List ℕ
long_uri = replicate 0x1_0000 0

length-long_uri : length long_uri ≡ 0x1_0000
unfolding long_uri
length-long_uri = length-replicate {A = ℕ} 0x1_0000 0

go_away_large :
    (uri : List ℕ)
    → 0x1_0000 ≤ length uri
    → 0xffff < length (append_message quic [] (go_away (record { new_session_uri = uri })))
unfolding quic append_message append_go_away append_var_int_bytes
go_away_large uri h = omega (arith, length-append (quic.append [] (length uri)) uri)

compile_message_too_large_example :
    compile_message quic (go_away (record { new_session_uri = long_uri }))
    ≡ err control_message_too_large
compile_message_too_large_example =
    compile_message_too_large quic (go_away (record { new_session_uri = long_uri }))
      (record { new_session_uri = omega (arith, length-long_uri) })
      (go_away_large long_uri (omega (arith, length-long_uri)))

a_token-IsPair : IsPair quic a_token
unfolding quic
a_token-IsPair = (omega arith, (omega arith, omega arith, refl))

parse_length-hang_example :
    parse_length quic 1000
      (record { bytes = append_length quic [] (a_token ∷ []) ++ (1 ∷ []); spare = [] })
    ≡ hang
unfolding quic pairs pair value encode
parse_length-hang_example =
    parse_length-hang quic 1000 a_token [] (1 ∷ []) [] (a_token-IsPair, tt) (omega arith)

append_length_lem_example :
    append_length quic (1 ∷ []) (a_token ∷ [])
    ≡ (1 ∷ []) ++ (encode quic (length (pairs quic (a_token ∷ []))) ++ pairs quic (a_token ∷ []))
append_length_lem_example = append_length_lem quic (1 ∷ []) (a_token ∷ []) (a_token-IsPair, tt)
