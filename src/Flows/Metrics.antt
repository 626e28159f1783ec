-- ===== src/Flows/Metrics.antt =====
-- netreplay/core/flows/tcp_metrics.py: round-trip times, duplicate acknowledgements and windows. Times are
-- microseconds, so `max(0.0, a - b)` is subtraction on ℕ. The averages and the rounded facts are not modelled.
use net_replay.Common.{
  length, ℕ, ◌+◌, ◌-◌, ◌/◌, ◌≤◌, ◌<◌, ◌≡◌, ◌↔◌, refl, Bool, true, false, not, ◌&&◌, ◌||◌, Option,
  none, some, List, [], ◌∷◌, ◌++◌, min, max, ltb, leb, ◌==◌, arith, if◌then◌else◌,
}
use net_replay.Common.Dict.{Eq, Dict, lookup, insert}
use net_replay.Flows.Serial.{seq_mask, seq_sub, seq_add, seq_mod}

unfoldable pub same_side : Bool → Bool → Bool
same_side true b = b
same_side false b = not b

pub same_side_iff : (a b : Bool) → (same_side a b ≡ true) ↔ (a ≡ b)
unfolding same_side
same_side_iff true true = (λ e. refl, λ e. refl)
same_side_iff true false = (λ e. cc, λ e. cc)
same_side_iff false true = (λ e. cc, λ e. cc)
same_side_iff false false = (λ e. refl, λ e. refl)

instance abbrev pub side_eq : Eq Bool
side_eq = record { beq = same_side; beq_iff = same_side_iff }

unfoldable pub ack_covers : ℕ → ℕ → Bool
ack_covers ack end_seq = leb (seq_sub end_seq ack) (seq_mask / 2)

pub record Outstanding : Type 0 where
  pub end_seq : ℕ
  pub ts : ℕ

pub record TcpMetrics : Type 0 where
  pub handshake_rtt : Option ℕ
  pub rtt_samples : List ℕ
  pub duplicate_acks : ℕ
  pub retransmissions : ℕ
  pub window_min : Option ℕ
  pub window_max : Option ℕ
  pub zero_window_count : ℕ
  pub syn_ts : Option ℕ
  pub synack_seen : Bool
  pub ack_ts : Option ℕ
  pub outstanding : Dict Bool (List Outstanding)
  pub last_ack : Dict Bool ℕ

abbrev pub new_metrics : TcpMetrics
new_metrics = record {
  handshake_rtt = none;
  rtt_samples = [];
  duplicate_acks = 0;
  retransmissions = 0;
  window_min = none;
  window_max = none;
  zero_window_count = 0;
  syn_ts = none;
  synack_seen = false;
  ack_ts = none;
  outstanding = [];
  last_ack = [];
}

-- The arguments of `on_segment`.
pub record TcpSegment : Type 0 where
  pub ts : ℕ
  pub seq : ℕ
  pub ack : ℕ
  pub is_syn : Bool
  pub is_ack : Bool
  pub window : Option ℕ
  pub payload_len : ℕ
  pub from_responder : Bool

abbrev pub smaller : Option ℕ → ℕ → ℕ
smaller none w = w
smaller (some m) w = min m w

abbrev pub larger : Option ℕ → ℕ → ℕ
larger none w = w
larger (some m) w = max m w

unfoldable pub record_window : Option ℕ → TcpMetrics → TcpMetrics
record_window none m = m
record_window (some w) m = record m {
  zero_window_count = (if w == 0 then m.zero_window_count + 1 else m.zero_window_count);
  window_min = some (smaller m.window_min w);
  window_max = some (larger m.window_max w);
}

-- The time of the handshake, measured once.
abbrev pub handshake_time : ℕ → Option ℕ → Option ℕ → Option ℕ
handshake_time ts none rtt = rtt
handshake_time ts (some syn) none = some (ts - syn)
handshake_time ts (some syn) (some rtt) = some rtt

unfoldable pub on_handshake : TcpSegment → TcpMetrics → TcpMetrics
on_handshake s m =
    if s.is_syn && not s.is_ack && not s.from_responder
    then record m { syn_ts = some s.ts }
    else (if s.is_syn && s.is_ack && s.from_responder
        then record m {
          synack_seen = true;
          handshake_rtt = handshake_time s.ts m.syn_ts m.handshake_rtt;
        }
        else (if s.is_ack && not s.is_syn && not s.from_responder && m.synack_seen
            then record m { ack_ts = some s.ts }
            else m))

abbrev pub repeats : Option ℕ → ℕ → Bool
repeats none ack = false
repeats (some previous) ack = ack == previous

unfoldable pub on_ack : TcpSegment → TcpMetrics → TcpMetrics
on_ack s m =
    if s.is_ack && s.payload_len == 0 && not s.is_syn
    then record m {
      duplicate_acks =
          (if repeats (lookup s.from_responder m.last_ack) s.ack
            then m.duplicate_acks + 1
            else m.duplicate_acks);
      last_ack = insert s.from_responder s.ack m.last_ack;
    }
    else (if ltb 0 s.payload_len && s.is_ack
        then record m { last_ack = insert s.from_responder s.ack m.last_ack }
        else m)

-- The loop of `_acknowledge`: the samples, and what remains.
unfoldable pub settle : ℕ → ℕ → List Outstanding → List ℕ × List Outstanding
settle ack ts [] = ([], [])
settle ack ts (o ∷ os) =
    let rest = settle ack ts os in
    if ack_covers ack o.end_seq then ((ts - o.ts) ∷ rest.0, rest.1) else (rest.0, o ∷ rest.1)

abbrev pub acknowledge_side : ℕ → ℕ → Bool → Option (List Outstanding) → TcpMetrics → TcpMetrics
acknowledge_side ack ts side none m = m
acknowledge_side ack ts side (some []) m = m
acknowledge_side ack ts side (some (o ∷ os)) m = record m {
  rtt_samples = m.rtt_samples ++ (settle ack ts (o ∷ os)).0;
  outstanding = insert side (settle ack ts (o ∷ os)).1 m.outstanding;
}

unfoldable pub acknowledge : ℕ → ℕ → Bool → TcpMetrics → TcpMetrics
acknowledge ack ts from_responder m =
    acknowledge_side ack ts (not from_responder) (lookup (not from_responder) m.outstanding) m

unfoldable pub on_pure_ack : TcpSegment → TcpMetrics → TcpMetrics
on_pure_ack s m =
    if s.is_ack && not s.is_syn && s.payload_len == 0
    then acknowledge s.ack s.ts s.from_responder m
    else m

abbrev pub or_nothing : Option (List Outstanding) → List Outstanding
or_nothing none = []
or_nothing (some os) = os

-- Some segment before the new one ends where it ends, and was sent before it.
unfoldable pub sent_before : ℕ → ℕ → List Outstanding → Bool
sent_before end ts [] = false
sent_before end ts (o ∷ os) = o.end_seq == end && ltb o.ts ts || sent_before end ts os

unfoldable pub on_data : TcpSegment → TcpMetrics → TcpMetrics
on_data s m =
    let before = or_nothing (lookup s.from_responder m.outstanding) in
    if ltb 0 s.payload_len
    then record m {
      outstanding =
          insert s.from_responder
            (before ++ (record { end_seq = seq_add s.seq s.payload_len; ts = s.ts } ∷ []))
            m.outstanding;
      retransmissions =
          (if sent_before (seq_add s.seq s.payload_len) s.ts before
            then m.retransmissions + 1
            else m.retransmissions);
    }
    else m

unfoldable pub on_segment : TcpSegment → TcpMetrics → TcpMetrics
on_segment s m = on_data s (on_pure_ack s (on_ack s (on_handshake s (record_window s.window m))))

-- `_ack_covers` holds of the segments that end at the acknowledgement or after it: for sequence numbers below 2^32
-- less than half the space apart, it holds of an end at a distance `d` ahead of the acknowledgement, and of an
-- end that the acknowledgement has passed it does not.
pub ack_covers_ahead :
    (ack d : ℕ)
    → ack < seq_mod
    → 1 ≤ d
    → d < 0x80000000
    → (ack_covers ack (seq_add ack d) ≡ true)
      × (ack_covers ack ack ≡ true)
      × (ack_covers (seq_add ack d) ack ≡ false)
unfolding ack_covers seq_add
ack_covers_ahead ack d ha h1 h2 = ground arith

unfoldable pub rtt_count : TcpMetrics → ℕ
rtt_count m = length m.rtt_samples

abbrev pub least : ℕ → List ℕ → ℕ
least t [] = t
least t (u ∷ us) = least (min t u) us

abbrev pub greatest : ℕ → List ℕ → ℕ
greatest t [] = t
greatest t (u ∷ us) = greatest (max t u) us

unfoldable pub rtt_min : TcpMetrics → Option ℕ
rtt_min m = elim m.rtt_samples [ [] ↦ none | t ∷ ts ↦ some (least t ts) ]

unfoldable pub rtt_max : TcpMetrics → Option ℕ
rtt_max m = elim m.rtt_samples [ [] ↦ none | t ∷ ts ↦ some (greatest t ts) ]
