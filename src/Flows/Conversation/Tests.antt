-- ===== src/Flows/Conversation/Tests.antt =====
-- The theorems on netreplay/core/flows/conversation.py at a small HTTP/2 session.
use mathlib.Core.List.{flatten}
use net_replay.Common.{ℕ, ◌≡◌, refl, none, some, List, [], ◌∷◌, map, arith, take, drop, replicate}
use net_replay.Replay.Bytes.{Bytes}
use net_replay.Flows.Serial.{seq_add}
use net_replay.Flows.Stream.Delivery.{consecutive}
use net_replay.Flows.Tracker.{Flow}
use net_replay.Protocols.Http2.Cuts.{SentFrame, frame_of}
use net_replay.Protocols.Streams.{frame}
use net_replay.Protocols.Streams.Session.{session_bytes}
use net_replay.Flows.Conversation.{
  TcpPacket, new_conversation, is_responder, tcp_payload, analyze_streams, finding, client,
  packets_fed,
}
use net_replay.Flows.Conversation.Laws.{Matches, packets_fed-Matches}
use net_replay.Flows.Conversation.Session.{analyze_streams-session}

abbrev connection : Flow
connection = record {
  id = some 1;
  source = "10.0.0.2";
  destination = "10.0.0.1";
  protocol = "TCP";
  src_port = some 40000;
  dst_port = some 80;
  start_ts = 5;
  end_ts = 5;
  packet_count = 1;
  bytes = 60;
  state = "ESTABLISHED";
}

abbrev packet : ℕ → ℕ → Bytes → TcpPacket
packet ts seq payload = (
  record {
    ts = ts;
    source = "10.0.0.2";
    destination = "10.0.0.1";
    protocol = "TCP";
    src_port = some 40000;
    dst_port = some 80;
    length = 60;
    raw = [];
    flow_id = some 1;
    ttl = some 64;
    info = record { tcp_flags = some 24; flow_started = none };
    payload = payload;
  },
  record { seq = some seq; ack = some 1; flags = some 24; window = some 512; raw_payload = none },
)

abbrev ping : SentFrame
ping = record { type_code = 6; flags = 1; stream_id = 0; payload = replicate 8 5 }

abbrev session : Bytes
session = session_bytes (ping ∷ []) []

-- Two segments, cut in the preface.
abbrev segments : List TcpPacket
segments = packet 6 100 (take 7 session) ∷ packet 9 107 (drop 7 session) ∷ []

abbrev chunks : List (Bytes × ℕ)
chunks = (take 7 session, 6) ∷ (drop 7 session, 9) ∷ []

packets_fed-Matches_example : Matches (packets_fed (new_conversation connection) segments)
packets_fed-Matches_example = packets_fed-Matches connection segments

analyze_streams-session_example :
    analyze_streams (packets_fed (new_conversation connection) segments)
    ≡ map (finding client) (map frame (map frame_of (ping ∷ [])))
unfolding consecutive is_responder tcp_payload seq_add flatten
analyze_streams-session_example =
    analyze_streams-session connection segments 100 chunks ping [] [] (omega arith)
      ((refl, omega arith), ((refl, omega arith), tt)) refl refl (omega arith, omega arith) tt
      (omega arith) (omega arith)
