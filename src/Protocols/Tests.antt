-- ===== src/Protocols/Tests.antt =====
-- The theorems on netreplay/core/protocols at small streams.
use mathlib.Core.List.{flatten}
use net_replay.Common.{
  ℕ, ◌≡◌, refl, true, none, List, [], ◌∷◌, ◌++◌, arith, map, replicate, take, drop,
}
use net_replay.Common.Text.{codes}
use net_replay.Replay.Bytes.{Bytes}
use net_replay.Replay.Mutation.{starts_with}
use net_replay.Common.Dict.{lookup, insert}
use net_replay.Filter.Eval.{is_prefix, occurs_in}
use net_replay.Protocols.Framing.{feed, feeds, feeds-flatten}
use net_replay.Protocols.Split.{
  crlf, split_once, split, strip, rstrip, lstrip, is_byte_space, is_latin_space, byte_lower,
  latin_lower, parse_int, int_digits, is_digit, isdigit, int_of_digits,
}
use net_replay.Protocols.TlsHello.{
  StreamTlsInfo, plain_info, cipher_name, decode_client_hello, decode_server_hello,
}
use net_replay.Protocols.TlsHello.Fields.{host_name, protocols, versions, other}
use net_replay.Protocols.TlsHello.Encoded.{
  ClientHello, client_hello_bytes, said, decode_client_hello-encoded,
}
use net_replay.Protocols.TlsHello.Server.{server_hello_bytes, decode_server_hello-session_id}
use net_replay.Protocols.TlsStream.{tls_framing, tls_round, new_tls_parser}
use net_replay.Protocols.TlsStream.Cuts.{TlsRecord, tls_infos, IsRecord, tls_feeds-encoded}
use net_replay.Protocols.Http2.{h2_framing, new_http2_parser}
use net_replay.Protocols.Http2.Cuts.{SentFrame, frame_of, IsFrame, h2_feeds-encoded}
use net_replay.Protocols.Http1.{
  extract_all, new_http1_parser, http1_feed, http1_feeds, is_start, body_length, length_by_lines,
}
use net_replay.Protocols.Http1.Ends.{extract_all_fueled}
use net_replay.Protocols.Http1.Messages.{
  Message, IsMessage, message_bytes, pending, http1_feed-messages, IsStalled, http1_feeds-stalled,
}
use net_replay.Protocols.Http.{analyze_http, read_headers, blank_info, request, response}
use net_replay.Protocols.Streams.Session.{session_bytes}

abbrev alert : TlsRecord
alert = record { record_type = 21; version = 771; body = 2 ∷ 40 ∷ [] }

abbrev data_record : TlsRecord
data_record = record { record_type = 23; version = 771; body = 1 ∷ 2 ∷ 3 ∷ [] }

alert-IsRecord : IsRecord alert
alert-IsRecord = (omega arith, omega arith, omega arith, omega arith)

data_record-IsRecord : IsRecord data_record
data_record-IsRecord = (omega arith, omega arith, omega arith, omega arith)

abbrev two_records : List TlsRecord
two_records = alert ∷ data_record ∷ []

-- The bytes of both, cut in the middle of the first header.
abbrev tls_chunks : List Bytes
tls_chunks =
    (21 ∷ 3 ∷ 3 ∷ []) ∷ (0 ∷ 2 ∷ 2 ∷ 40 ∷ 23 ∷ 3 ∷ []) ∷ (3 ∷ 0 ∷ 3 ∷ 1 ∷ 2 ∷ 3 ∷ 22 ∷ []) ∷ []

feeds-flatten_example :
    feeds tls_framing new_tls_parser tls_chunks
    ≡ feed tls_framing new_tls_parser (flatten tls_chunks)
unfolding tls_round
feeds-flatten_example = feeds-flatten tls_framing new_tls_parser tls_chunks refl

abbrev small_hello : ClientHello
small_hello = record {
  start = replicate 34 3;
  session_id = 7 ∷ 8 ∷ [];
  suites = 4865 ∷ 49195 ∷ [];
  compression = 0 ∷ [];
  fields =
      host_name (codes "a.io")
      ∷ protocols (codes "h2" ∷ codes "http/1.1" ∷ [])
      ∷ other 10 (0 ∷ 2 ∷ 0 ∷ 29 ∷ [])
      ∷ versions (0x0304 ∷ 0x0303 ∷ [])
      ∷ [];
}

abbrev blank : StreamTlsInfo
blank = plain_info 22 (codes "TLS 1.2") none

decode_client_hello-encoded_example :
    decode_client_hello (client_hello_bytes small_hello) blank
    ≡ said small_hello.fields (record blank { cipher_suites = map cipher_name (4865 ∷ 49195 ∷ []) })
decode_client_hello-encoded_example =
    decode_client_hello-encoded small_hello blank refl (tt, (tt, ((refl, (refl, refl)), (tt, tt))))

decode_server_hello-session_id_example :
    (decode_server_hello
      (server_hello_bytes (replicate {A = ℕ} 34 3) (19 ∷ 8 ∷ []) 4865 (0 ∷ []))
      blank).cipher_suites
    ≡ cipher_name 531 ∷ []
decode_server_hello-session_id_example =
    decode_server_hello-session_id (replicate 34 3) 19 (8 ∷ []) 4865 (0 ∷ []) blank refl

tls_feeds-encoded_example :
    ((feeds tls_framing new_tls_parser tls_chunks).0 ≡ tls_infos two_records)
    × ((feeds tls_framing new_tls_parser tls_chunks).1.log ≡ tls_infos two_records)
    × ((feeds tls_framing new_tls_parser tls_chunks).1.buf ≡ 22 ∷ [])
unfolding flatten
tls_feeds-encoded_example =
    tls_feeds-encoded two_records (22 ∷ []) tls_chunks (alert-IsRecord, (data_record-IsRecord, tt))
      (omega arith) refl

abbrev ping : SentFrame
ping = record { type_code = 6; flags = 1; stream_id = 0; payload = replicate 8 5 }

abbrev data_frame : SentFrame
data_frame = record { type_code = 0; flags = 1; stream_id = 3; payload = 104 ∷ 105 ∷ [] }

ping-IsFrame : IsFrame ping
ping-IsFrame = (omega arith, omega arith)

data_frame-IsFrame : IsFrame data_frame
data_frame-IsFrame = (omega arith, omega arith)

-- A session, cut in the preface and in a header.
abbrev h2_chunks : List Bytes
h2_chunks =
    take 5 (session_bytes (ping ∷ data_frame ∷ []) (0 ∷ []))
    ∷ take 25 (drop 5 (session_bytes (ping ∷ data_frame ∷ []) (0 ∷ [])))
    ∷ drop 30 (session_bytes (ping ∷ data_frame ∷ []) (0 ∷ []))
    ∷ []

h2_feeds-encoded_example : feeds h2_framing new_http2_parser h2_chunks ≡ (
  map frame_of (ping ∷ data_frame ∷ []),
  record { buf = 0 ∷ []; state = true; log = map frame_of (ping ∷ data_frame ∷ []) },
)
unfolding flatten
h2_feeds-encoded_example =
    h2_feeds-encoded ping (data_frame ∷ []) (0 ∷ []) h2_chunks ping-IsFrame (data_frame-IsFrame, tt)
      (omega arith) refl

abbrev post : Message
post = record {
  head = codes "PUT /a HTTP/1.1" ++ crlf ++ codes "Content-Length: 3";
  body = 97 ∷ 98 ∷ 99 ∷ [];
  info = record (blank_info request) {
    method = codes "PUT";
    path = codes "/a";
    version = codes "HTTP/1.1";
  };
}

abbrev ok_response : Message
ok_response = record {
  head = codes "HTTP/1.1 200 OK" ++ crlf ++ codes "content-length: 0";
  body = [];
  info = record (blank_info response) { status = 200; version = codes "HTTP/1.1" };
}

post-IsMessage : IsMessage post
unfolding split_once starts_with is_start body_length length_by_lines split strip rstrip lstrip
    is_byte_space byte_lower parse_int int_digits is_digit analyze_http lookup read_headers insert
    is_prefix occurs_in int_of_digits is_latin_space isdigit latin_lower
post-IsMessage = record { ends = refl; starts = refl; counts = refl; says = refl }

ok_response-IsMessage : IsMessage ok_response
unfolding split_once starts_with is_start body_length length_by_lines split strip rstrip lstrip
    is_byte_space byte_lower parse_int int_digits is_digit analyze_http lookup read_headers insert
    is_prefix occurs_in int_of_digits is_latin_space isdigit latin_lower
ok_response-IsMessage = record { ends = refl; starts = refl; counts = refl; says = refl }

http1_feed-messages_example :
    http1_feed new_http1_parser
      (flatten (map message_bytes (post ∷ ok_response ∷ [])) ++ codes "HT")
    ≡ (
      map pending (post ∷ ok_response ∷ []),
      record { buf = codes "HT"; messages = map pending (post ∷ ok_response ∷ []) },
    )
unfolding flatten split_once starts_with
http1_feed-messages_example =
    http1_feed-messages (post ∷ ok_response ∷ []) (codes "HT")
      (post-IsMessage, (ok_response-IsMessage, tt)) refl (omega arith)

abbrev sip_head : Bytes
sip_head = codes "SIP/2.0 200 OK" ++ crlf ++ crlf

sip_head-IsStalled : IsStalled sip_head
unfolding split_once starts_with is_start
sip_head-IsStalled = record {
  head = codes "SIP/2.0 200 OK";
  rest = [];
  ends = refl;
  unknown = refl;
}

http1_feeds-stalled_example :
    (http1_feeds
      (record { buf = sip_head; messages = [] })
      (message_bytes post ∷ message_bytes ok_response ∷ [])).0
    ≡ []
unfolding flatten
http1_feeds-stalled_example =
    http1_feeds-stalled (record { buf = sip_head; messages = [] })
      (message_bytes post ∷ message_bytes ok_response ∷ []) sip_head-IsStalled (omega arith)

extract_all_fueled_example :
    extract_all 100 (message_bytes post) ≡ extract_all 90 (message_bytes post)
extract_all_fueled_example =
    extract_all_fueled 100 90 (message_bytes post) (omega arith) (omega arith)
