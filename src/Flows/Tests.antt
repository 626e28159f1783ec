-- ===== src/Flows/Tests.antt =====
-- Runs of the flow engine on small inputs, and the theorems at concrete inputs.
use Prim.Native.String.{String}
use net_replay.Common.{
  ℕ, ◌+◌, ◌≤◌, ◌≡◌, refl, Bool, true, false, none, some, List, [], ◌∷◌, arith, length,
}
use net_replay.Common.Sort.{sort_by}
use net_replay.Packets.{ParsedPacket}
use net_replay.Flows.Serial.{seq_lt, seq_gt, seq_le, seq_add}
use net_replay.Flows.Stream.{
  TcpStream, Segment, new_stream, feed, place, deliver, opened, drain_from, drain_sorted,
  drain_step, place_behind, end_seq,
}
use net_replay.Flows.Stream.Reorder.{Arrival, feeds, feeds-buffer}
use net_replay.Flows.Stream.Delivery.{
  outputs, consecutive, chunk_bytes, outputs-consecutive, FlushesGap, flush_waiting,
}
use net_replay.Flows.Stream.Accounts.{IsCounted, feeds-new_stream-IsCounted}
use net_replay.Flows.Stream.Bytes.{waiting, carried, feeds-bytes}
use net_replay.Flows.TcpState.{new_machine}
use net_replay.Flows.TcpState.History.{adds}
use net_replay.Flows.TcpState.Reachable.{IsSound, adds-IsSound}
use net_replay.Flows.Tracker.{Flow, cleared, flow_key}
use net_replay.Flows.Tracker.Keys.{reply_of, flow_key-reply_of}
use net_replay.Flows.Tracker.Totals.{Accounts, track, track-cleared}
use net_replay.Flows.Lifecycle.{phase_for_state, flow_lifecycle_events}
use net_replay.Flows.Lifecycle.Phases.{
  Alternates, ends_in, phase_after, flow_lifecycle_events-Alternates,
}
use net_replay.Flows.Metrics.{ack_covers, ack_covers_ahead}

-- A stream whose first segment ends at the wrap of the sequence numbers.
abbrev one : TcpStream
one = (feed (new_stream true none) 0xFFFFFFFE (1 ∷ 2 ∷ []) 0).1

swap_test : (feed (feed one 3 (6 ∷ []) 1).1 0 (3 ∷ 4 ∷ 5 ∷ []) 2).0.bytes ≡ 3 ∷ 4 ∷ 5 ∷ 6 ∷ []
unfolding feed place deliver opened drain_from drain_sorted drain_step place_behind end_seq seq_lt
    seq_gt seq_le seq_add sort_by
swap_test = refl

abbrev at_seven : TcpStream
at_seven = record (new_stream true none) { next = some 7 }

abbrev chunks : List (List ℕ × ℕ)
chunks = (1 ∷ 2 ∷ [], 5) ∷ ([], 6) ∷ (3 ∷ [], 9) ∷ []

outputs-consecutive_example :
    (outputs at_seven (consecutive 7 chunks) ≡ chunk_bytes chunks)
    × ((feeds at_seven (consecutive 7 chunks)).issues ≡ [])
outputs-consecutive_example =
    outputs-consecutive at_seven 7 chunks (omega arith)
      (record { next_is = refl; buffer_is = refl })

abbrev shuffled : List Arrival
shuffled = (5, 1 ∷ 2 ∷ [], 0) ∷ (9, 3 ∷ [], 1) ∷ (5, 1 ∷ [], 2) ∷ (7, 4 ∷ 5 ∷ [], 3) ∷ []

feeds-buffer_example : length (feeds (new_stream true none) shuffled).buffer ≤ 1
feeds-buffer_example = feeds-buffer true none shuffled (omega arith)

feeds-bytes_example :
    ((feeds at_seven shuffled).bytes_written ≡ 0 + length (outputs at_seven shuffled))
    × ((feeds at_seven shuffled).bytes_written + waiting (feeds at_seven shuffled).buffer
        ≤ 0 + 0 + carried shuffled)
feeds-bytes_example = feeds-bytes at_seven shuffled

abbrev held : Segment
held = record { seq = 9; payload = 3 ∷ 4 ∷ []; ts = 5 }

flush_waiting_example : FlushesGap (record at_seven { buffer = held ∷ [] }) 7 held
unfolding seq_gt
flush_waiting_example =
    flush_waiting (record at_seven { buffer = held ∷ [] }) 7 held refl refl (omega arith) refl
      (omega arith)

feeds-new_stream-IsCounted_example : IsCounted (feeds (new_stream true none) shuffled)
feeds-new_stream-IsCounted_example = feeds-new_stream-IsCounted true none shuffled

abbrev session : List (ℕ × Bool)
session = (2, false) ∷ (18, true) ∷ (16, false) ∷ (17, true) ∷ (17, false) ∷ []

adds-IsSound_example : IsSound session (adds new_machine session)
adds-IsSound_example = adds-IsSound session

abbrev packet : ParsedPacket
packet = record {
  ts = 1;
  source = "10.0.0.1";
  destination = "10.0.0.2";
  protocol = "UDP";
  src_port = some 1000;
  dst_port = some 53;
  length = 60;
  raw = [];
  flow_id = none;
  ttl = none;
  info = record { tcp_flags = none; flow_started = none };
  payload = [];
}

flow_key-reply_of_example : flow_key (reply_of packet) ≡ flow_key packet
flow_key-reply_of_example = flow_key-reply_of packet tt

abbrev both_ways : List ParsedPacket
both_ways = packet ∷ reply_of packet ∷ record packet { src_port = some 1001 } ∷ []

track-cleared_example : Accounts 3 180 (track cleared both_ways)
track-cleared_example = track-cleared both_ways

abbrev a_flow : Flow
a_flow = record {
  id = some 1;
  source = "10.0.0.1";
  destination = "10.0.0.2";
  protocol = "TCP";
  src_port = some 1000;
  dst_port = some 80;
  start_ts = 0;
  end_ts = 9;
  packet_count = 5;
  bytes = 300;
  state = "FIN";
}

abbrev changes : List (ℕ × String × String)
changes =
    (1, "NONE", "SYN")
    ∷ (2, "SYN", "SYN/ACK")
    ∷ (3, "SYN/ACK", "ESTABLISHED")
    ∷ (9, "ESTABLISHED", "FIN")
    ∷ []

flow_lifecycle_events-Alternates_example :
    Alternates (phase_for_state "NONE") (flow_lifecycle_events a_flow changes)
    × (phase_after (phase_for_state "NONE") (flow_lifecycle_events a_flow changes)
        ≡ phase_for_state (ends_in "NONE" changes))
unfolding phase_for_state
flow_lifecycle_events-Alternates_example =
    flow_lifecycle_events-Alternates a_flow "NONE" changes
      (refl, (λ q. cc), (refl, (λ q. cc), (refl, (λ q. cc), (refl, (λ q. cc), tt))))

ack_covers_ahead_example :
    (ack_covers 50 (seq_add 50 50) ≡ true)
    × (ack_covers 50 50 ≡ true)
    × (ack_covers (seq_add 50 50) 50 ≡ false)
ack_covers_ahead_example = ack_covers_ahead 50 50 (omega arith) (omega arith) (omega arith)
