-- ===== src/Flows/Tracker.antt =====
-- netreplay/core/flows/tracker.py: the flow tracker, and the `Flow` and `FeedResult` of models.py.
pub mod Keys
pub mod Totals
use Prim.Native.Nat.{Ordering}
use Prim.Native.String.{String}
use text.Mathlib.TextEquality.{eq_iff}
use net_replay.Common.{
  ℕ, ◌+◌, ◌≡◌, ◌↔◌, arith, Bool, true, false, not, ◌&&◌, Option, none, some, List, [], ◌∷◌, map,
  ◌==◌, if◌then◌else◌,
}
use net_replay.Common.Text.{compare_pair}
use net_replay.Common.Dict.{Eq, string_eq, Dict, lookup, insert}
use net_replay.Packets.{Info, ParsedPacket}
use net_replay.Flows.TcpState.{TcpStateMachine, new_machine, add, state}

pub record Flow : Type 0 where
  pub id : Option ℕ
  pub source : String
  pub destination : String
  pub protocol : String
  pub src_port : Option ℕ
  pub dst_port : Option ℕ
  pub start_ts : ℕ
  pub end_ts : ℕ
  pub packet_count : ℕ
  pub bytes : ℕ
  pub state : String

pub record FeedResult : Type 0 where
  pub flow : Flow
  pub flow_started : Bool
  pub transition : Option String
  pub state : String

-- An endpoint of a flow key: a host and a port.
abbrev pub Endpoint : Type 0
Endpoint = String × ℕ

abbrev pub endpoint_gt : Endpoint → Endpoint → Bool
endpoint_gt a b = elim (compare_pair a b) [ Ordering.gt ↦ true | _ ↦ false ]

pub record FlowKey : Type 0 where
  pub protocol : String
  pub a : Endpoint
  pub b : Endpoint

-- `port or 0`
abbrev pub or_zero : Option ℕ → ℕ
or_zero none = 0
or_zero (some p) = p

abbrev pub key_ports : Option ℕ → Option ℕ → ℕ × ℕ
key_ports none dst = (0, 0)
key_ports (some src) dst = (src, or_zero dst)

unfoldable pub ordered_key : String → Endpoint → Endpoint → FlowKey
ordered_key protocol a b =
    if endpoint_gt a b
    then record { protocol = protocol; a = b; b = a }
    else record { protocol = protocol; a = a; b = b }

unfoldable pub flow_key : ParsedPacket → FlowKey
flow_key parsed =
    let (p, q) = key_ports parsed.src_port parsed.dst_port in
    ordered_key parsed.protocol (parsed.source, p) (parsed.destination, q)

unfoldable pub key_eq : FlowKey → FlowKey → Bool
key_eq k j =
    string_eq.beq k.protocol j.protocol
    && (string_eq.beq k.a.0 j.a.0 && (k.a.1 == j.a.1))
    && (string_eq.beq k.b.0 j.b.0 && (k.b.1 == j.b.1))

pub key_eq_iff : (k j : FlowKey) → (key_eq k j ≡ true) ↔ (k ≡ j)
unfolding key_eq
key_eq_iff k j =
    ground (arith, eq_iff k.protocol j.protocol, eq_iff k.a.0 j.a.0, eq_iff k.b.0 j.b.0)

instance abbrev pub flow_key_eq : Eq FlowKey
flow_key_eq = record { beq = key_eq; beq_iff = key_eq_iff }

pub record FlowTracker : Type 0 where
  pub flows : List (FlowKey × Flow)
  pub tcp : List (FlowKey × TcpStateMachine)
  pub counter : ℕ

-- A new tracker, and what `clear` leaves.
abbrev pub cleared : FlowTracker
cleared = record { flows = []; tcp = []; counter = 0 }

-- `self._flows.values()`
abbrev pub flows : FlowTracker → List Flow
flows t = map (λ (k, f). f) t.flows

-- The flow of a packet that is the first of its key.
abbrev pub new_flow : ℕ → ParsedPacket → Flow
new_flow id parsed = record {
  id = some id;
  source = parsed.source;
  destination = parsed.destination;
  protocol = parsed.protocol;
  src_port = parsed.src_port;
  dst_port = parsed.dst_port;
  start_ts = parsed.ts;
  end_ts = parsed.ts;
  packet_count = 0;
  bytes = 0;
  state = "NONE";
}

-- `flow.end_ts = …; flow.packet_count += 1; flow.bytes += …`
abbrev pub count_packet : Flow → ParsedPacket → Flow
count_packet flow parsed = record flow {
  end_ts = parsed.ts;
  packet_count = flow.packet_count + 1;
  bytes = flow.bytes + parsed.length;
}

-- `_is_responder`
unfoldable pub is_responder : Flow → ParsedPacket → Bool
is_responder flow parsed =
    string_eq.beq parsed.source flow.destination
    && (or_zero parsed.src_port == or_zero flow.dst_port)

abbrev or_new : Option TcpStateMachine → TcpStateMachine
or_new none = new_machine
or_new (some sm) = sm

-- What `feed` returns, the packet as it leaves it, and the tracker.
pub record Fed : Type 0 where
  pub result : FeedResult
  pub packet : ParsedPacket
  pub tracker : FlowTracker

-- The end of `feed`: the flow is written back, the packet is marked.
abbrev pub finish_feed : FlowTracker → FlowKey → Flow → Option String → Bool → ParsedPacket → Fed
finish_feed t key flow transition started parsed = record {
  result = record {
    flow = flow;
    flow_started = started;
    transition = transition;
    state = flow.state;
  };
  packet = record parsed {
    flow_id = flow.id;
    info = record (parsed.info) { flow_started = some started };
  };
  tracker = record t { flows = insert key flow t.flows };
}

-- `feed` with the flow of the key at hand.
unfoldable pub feed_flow : FlowTracker → FlowKey → Flow → Bool → ParsedPacket → Fed
feed_flow t key flow started parsed =
    let counted = count_packet flow parsed in
    if string_eq.beq parsed.protocol "TCP"
    then (let sm =
          add (or_new (lookup key t.tcp)) (or_zero parsed.info.tcp_flags)
            (is_responder counted parsed) in
        let changed = not (string_eq.beq (state sm) counted.state) in
        finish_feed (record t { tcp = insert key sm t.tcp }) key
          (record counted { state = state sm }) (if changed then some (state sm) else none) started
          parsed)
    else finish_feed t key counted none started parsed

abbrev feed_found : FlowTracker → FlowKey → ParsedPacket → Option Flow → Fed
feed_found t key parsed none =
    feed_flow (record t { counter = t.counter + 1 }) key (new_flow (t.counter + 1) parsed) true
      parsed
feed_found t key parsed (some flow) = feed_flow t key flow false parsed

unfoldable pub feed : FlowTracker → ParsedPacket → Fed
feed t parsed = feed_found t (flow_key parsed) parsed (lookup (flow_key parsed) t.flows)
