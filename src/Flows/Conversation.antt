-- ===== src/Flows/Conversation.antt =====
-- netreplay/core/flows/conversation.py: `Conversation` and `UdpStream`. Of `parsed.info` the entries that it reads are a
-- record; the text of a finding's summary is the item that it prints.
pub mod Laws
pub mod Session
mod Tests
use Prim.Native.String.{String}
use net_replay.Common.{
  ℕ, ◌+◌, ◌-◌, ◌<◌, Bool, true, false, not, ◌&&◌, ◌||◌, Option, none, some, List, [], ◌∷◌, ◌++◌,
  ltb, ◌==◌, if◌then◌else◌, length, map, max,
}
use net_replay.Common.Dict.{string_eq}
use net_replay.Packets.{ParsedPacket}
use net_replay.Flows.Stream.{
  StreamOutput, no_output, TcpReassembler, new_reassembler, feed_client, feed_server,
  flush_reassembler,
}
use net_replay.Flows.TcpState.{has, flag_syn, flag_ack}
use net_replay.Flows.Tracker.{Flow, or_zero}
use net_replay.Flows.Metrics.{TcpMetrics, TcpSegment, new_metrics, on_segment}
use net_replay.Replay.Bytes.{Bytes}
use net_replay.Protocols.Streams.{Detected, tls, frame, http, analyze_stream_direction}

-- `tcp_seq`, `tcp_ack`, `tcp_flags`, `tcp_window` and `raw_payload`.
pub record TcpInfo : Type 0 where
  pub seq : Option ℕ
  pub ack : Option ℕ
  pub flags : Option ℕ
  pub window : Option ℕ
  pub raw_payload : Option Bytes

abbrev pub TcpPacket : Type 0
TcpPacket = ParsedPacket × TcpInfo

abbrev pub or_none : Option Bytes → Bytes
or_none none = []
or_none (some payload) = payload

-- `_tcp_payload`
abbrev pub payload_or : Bytes → Option Bytes → Bytes
payload_or [] raw = or_none raw
payload_or (b ∷ bs) raw = b ∷ bs

unfoldable pub tcp_payload : TcpPacket → Bytes
tcp_payload (parsed, info) = payload_or parsed.payload info.raw_payload

pub record Conversation : Type 0 where
  pub flow : Flow
  pub reassembler : TcpReassembler
  pub metrics : TcpMetrics
  pub client_data : Bytes
  pub server_data : Bytes

abbrev pub new_conversation : Flow → Conversation
new_conversation flow = record {
  flow = flow;
  reassembler = new_reassembler none none;
  metrics = new_metrics;
  client_data = [];
  server_data = [];
}

unfoldable pub is_responder : Flow → ParsedPacket → Bool
is_responder flow parsed =
    string_eq.beq parsed.source flow.destination
    && (or_zero parsed.src_port == or_zero flow.dst_port)

unfoldable pub segment_of : TcpPacket → ℕ → Bool → TcpSegment
segment_of (parsed, info) size from_responder = record {
  ts = parsed.ts;
  seq = or_zero info.seq;
  ack = or_zero info.ack;
  is_syn = has (or_zero info.flags) flag_syn;
  is_ack = has (or_zero info.flags) flag_ack;
  window = info.window;
  payload_len = size;
  from_responder = from_responder;
}

-- `feed` behind the metrics.
abbrev pub feed_payload : Conversation → ℕ → ℕ → Bytes → Bool → StreamOutput × Conversation
feed_payload c seq ts [] from_responder = (no_output, c)
feed_payload c seq ts (b ∷ bs) true =
    let (out, r) = feed_server c.reassembler seq (b ∷ bs) ts in
    (out, record c { reassembler = r; server_data = c.server_data ++ out.bytes })
feed_payload c seq ts (b ∷ bs) false =
    let (out, r) = feed_client c.reassembler seq (b ∷ bs) ts in
    (out, record c { reassembler = r; client_data = c.client_data ++ out.bytes })

unfoldable pub feed : Conversation → TcpPacket → StreamOutput × Conversation
feed c (parsed, info) =
    let payload = tcp_payload (parsed, info) in
    let from_responder = is_responder c.flow parsed in
    feed_payload
      (record c {
        metrics = on_segment (segment_of (parsed, info) (length payload) from_responder) c.metrics;
      })
      (or_zero info.seq) parsed.ts payload from_responder

unfoldable pub flush : Conversation → (StreamOutput × StreamOutput) × Conversation
flush c = let (out, r) = flush_reassembler c.reassembler in (out, record c { reassembler = r })

-- `_classify`, and a finding.
pub data Protocol : Type 0 where
  tls_protocol http2_protocol http_protocol : Protocol

abbrev pub classify : Detected → Protocol
classify (tls info) = tls_protocol
classify (frame f) = http2_protocol
classify (http m) = http_protocol

pub data Direction : Type 0 where
  client server : Direction

pub record StreamAnalysis : Type 0 where
  pub protocol : Protocol
  pub direction : Direction
  pub item : Detected

abbrev pub finding : Direction → Detected → StreamAnalysis
finding direction item = record { protocol = classify item; direction = direction; item = item }

unfoldable pub analyze_streams : Conversation → List StreamAnalysis
analyze_streams c =
    map (finding client) (analyze_stream_direction c.client_data none)
    ++ map (finding server) (analyze_stream_direction c.server_data none)

-- `client_bytes` and `server_bytes`
abbrev pub client_bytes : Conversation → ℕ
client_bytes c = c.reassembler.client.bytes_written

abbrev pub server_bytes : Conversation → ℕ
server_bytes c = c.reassembler.server.bytes_written

-- `UdpDatagram` and `UdpStream`
pub record UdpDatagram : Type 0 where
  pub ts : ℕ
  pub source : String
  pub destination : String
  pub src_port : Option ℕ
  pub dst_port : Option ℕ
  pub length : ℕ

pub record UdpStream : Type 0 where
  pub flow : Flow
  pub datagrams : List UdpDatagram
  pub bytes : ℕ

unfoldable pub feed_datagram : UdpStream → ParsedPacket → UdpDatagram × UdpStream
feed_datagram s parsed =
    let datagram : UdpDatagram = record {
      ts = parsed.ts;
      source = parsed.source;
      destination = parsed.destination;
      src_port = parsed.src_port;
      dst_port = parsed.dst_port;
      length = parsed.length;
    } in
    let start =
      if s.flow.start_ts == 0 || ltb parsed.ts s.flow.start_ts
      then parsed.ts
      else s.flow.start_ts in
    (
      datagram,
      record {
        flow = record s.flow { start_ts = start; end_ts = max s.flow.end_ts parsed.ts };
        datagrams = s.datagrams ++ datagram ∷ [];
        bytes = s.bytes + parsed.length;
      },
    )

-- Calls of `feed`.
abbrev pub packets_fed : Conversation → List TcpPacket → Conversation
packets_fed c [] = c
packets_fed c (p ∷ ps) = packets_fed (feed c p).1 ps
