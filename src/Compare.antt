-- ===== src/Compare.antt =====
-- netreplay/core/compare.py on two sessions, given by the rows that the code reads of them. A text is its code points,
-- times are microseconds; the order of the keys by `repr` is a parameter.
pub mod Flows
pub mod Identical
mod Tests
use net_replay.Common.{
  ℕ, zero, suc, ◌+◌, ◌-◌, ◌≡◌, ◌↔◌, refl, ap, Bool, true, false, not, ◌||◌, ◌&&◌, Option, none,
  some, List, [], ◌∷◌, ◌++◌, ltb, ◌==◌, if◌then◌else◌, length, map, take,
}
use net_replay.Common.Dict.{Dict, Eq, lookup, insert, nat_eq}
use net_replay.Common.Sort.{sort_with, text_leb}
use net_replay.Common.Text.{text_eq}
use net_replay.Replay.Bytes.{bytes_eq}
use net_replay.Protocols.Hex.{Text}
use net_replay.Protocols.Split.{ℤ, pos, negsuc}

pub record FlowRow : Type 0 where
  pub source : Text
  pub destination : Text
  pub protocol : Text
  pub src_port : Option ℕ
  pub dst_port : Option ℕ
  pub start_ts : ℕ
  pub end_ts : ℕ
  pub packet_count : ℕ
  pub bytes : ℕ
  pub state : Text

-- What is read of a session: the flows, the types of the events, and the times of the first and last packet.
pub record Session : Type 0 where
  pub flows : List FlowRow
  pub events : List Text
  pub bounds : Option (ℕ × ℕ)

abbrev pub Endpoint : Type 0
Endpoint = Text × ℕ

abbrev pub Key : Type 0
Key = Text × (Endpoint × Endpoint)

abbrev pub or_zero : Option ℕ → ℕ
or_zero none = 0
or_zero (some n) = n

-- Python's `a > b` of pairs.
abbrev pub endpoint_gt : Endpoint → Endpoint → Bool
endpoint_gt (s, p) (t, q) = if text_eq s t then ltb q p else not (text_leb s t)

unfoldable pub endpoint_key : FlowRow → Key
endpoint_key flow =
    let a : Endpoint = (flow.source, or_zero flow.src_port) in
    let b : Endpoint = (flow.destination, or_zero flow.dst_port) in
    if endpoint_gt a b then (flow.protocol, (b, a)) else (flow.protocol, (a, b))

-- `==` of pairs.
both_true : (b c : Bool) → b && c ≡ true → (b ≡ true) × (c ≡ true)
both_true true c h = (refl, h)
both_true false c h = cc

module _ {A B : Type 0} ⦃e : Eq A⦄ ⦃f : Eq B⦄ where
  abbrev pub pair_beq : A × B → A × B → Bool
  pair_beq p q = e.beq p.0 q.0 && f.beq p.1 q.1

  pair_path : (p q : A × B) → p.0 ≡ q.0 → p.1 ≡ q.1 → p ≡ q
  pair_path p q h k = λ i. (h i, k i)

  equal_true : (p q : A × B) → p ≡ q → pair_beq p q ≡ true
  equal_true p q h =
      rw ((e.beq_iff p.0 q.0).1 (ap (λ r. r.0) h), (f.beq_iff p.1 q.1).1 (ap (λ r. r.1) h)) refl

  pub pair_beq_iff : (p q : A × B) → (pair_beq p q ≡ true) ↔ (p ≡ q)
  pair_beq_iff p q = (
    λ h.
        let (x, y) = both_true (e.beq p.0 q.0) (f.beq p.1 q.1) h in
        pair_path p q ((e.beq_iff p.0 q.0).0 x) ((f.beq_iff p.1 q.1).0 y),
    equal_true p q,
  )

  instance abbrev pub pair_eq : Eq (A × B)
  pair_eq = record { beq = pair_beq; beq_iff = pair_beq_iff }

-- `{_endpoint_key(f): f for f in flows}`
unfoldable pub keyed_onto : Dict Key FlowRow → List FlowRow → Dict Key FlowRow
keyed_onto d [] = d
keyed_onto d (f ∷ fs) = keyed_onto (insert (endpoint_key f) f d) fs

abbrev pub keyed : List FlowRow → Dict Key FlowRow
keyed fs = keyed_onto [] fs

-- `set(before) | set(after)`, each key once.
module _ {K V : Type 0} ⦃e : Eq K⦄ where
  abbrev pub keys : Dict K V → List K
  keys d = map (λ p. p.0) d

  abbrev pub unless_found : Option V → K → List K → List K
  unless_found none k ks = k ∷ ks
  unless_found (some v) k ks = ks

  unfoldable pub new_keys : Dict K V → Dict K V → List K
  new_keys before [] = []
  new_keys before ((k, v) ∷ after) = unless_found (lookup k before) k (new_keys before after)

  abbrev pub all_keys : Dict K V → Dict K V → List K
  all_keys before after = keys before ++ new_keys before after

pub data Status : Type 0 where
  added removed changed unchanged : Status

pub record FlowDelta : Type 0 where
  pub key : Key
  pub status : Status
  pub packets_before : ℕ
  pub packets_after : ℕ
  pub bytes_before : ℕ
  pub bytes_after : ℕ
  pub state_before : Text
  pub state_after : Text

-- `fa.… != fb.… or …`
abbrev pub differs : FlowRow → FlowRow → Bool
differs fb fa =
    not (fa.packet_count == fb.packet_count)
    || not (fa.bytes == fb.bytes)
    || not (text_eq fa.state fb.state)

-- One round of the loop of `compare_flows`.
abbrev pub delta_onto : Key → Option FlowRow → Option FlowRow → List FlowDelta → List FlowDelta
delta_onto key none none ds = ds
delta_onto key none (some fa) ds =
    record {
      key = key;
      status = added;
      packets_before = 0;
      packets_after = fa.packet_count;
      bytes_before = 0;
      bytes_after = fa.bytes;
      state_before = [];
      state_after = fa.state;
    }
    ∷ ds
delta_onto key (some fb) none ds =
    record {
      key = key;
      status = removed;
      packets_before = fb.packet_count;
      packets_after = 0;
      bytes_before = fb.bytes;
      bytes_after = 0;
      state_before = fb.state;
      state_after = [];
    }
    ∷ ds
delta_onto key (some fb) (some fa) ds =
    record {
      key = key;
      status = if differs fb fa then changed else unchanged;
      packets_before = fb.packet_count;
      packets_after = fa.packet_count;
      bytes_before = fb.bytes;
      bytes_after = fa.bytes;
      state_before = fb.state;
      state_after = fa.state;
    }
    ∷ ds

unfoldable pub deltas_of : Dict Key FlowRow → Dict Key FlowRow → List Key → List FlowDelta
deltas_of before after [] = []
deltas_of before after (k ∷ ks) =
    delta_onto k (lookup k before) (lookup k after) (deltas_of before after ks)

unfoldable pub compare_flows : (Key → Key → Bool) → Session → Session → List FlowDelta
compare_flows at_most a b =
    deltas_of (keyed a.flows) (keyed b.flows)
      (sort_with at_most (all_keys (keyed a.flows) (keyed b.flows)))

-- `by_status`
abbrev pub same_status : Status → Status → Bool
same_status added added = true
same_status removed removed = true
same_status changed changed = true
same_status unchanged unchanged = true
same_status _ _ = false

unfoldable pub by_status : Status → List FlowDelta → List FlowDelta
by_status status [] = []
by_status status (d ∷ ds) =
    let rest = by_status status ds in if same_status d.status status then d ∷ rest else rest

-- `compare_timing`
pub record TimingDelta : Type 0 where
  pub key : Key
  pub duration_before : ℕ
  pub duration_after : ℕ

pub record TimingDiff : Type 0 where
  pub duration_before : ℕ
  pub duration_after : ℕ
  pub per_flow : List TimingDelta

abbrev pub session_duration : Option (ℕ × ℕ) → ℕ
session_duration none = 0
session_duration (some (first, last)) = last - first

abbrev pub timing_onto : Key → Option FlowRow → Option FlowRow → List TimingDelta → List TimingDelta
timing_onto key (some fb) (some fa) ds =
    record {
      key = key;
      duration_before = fb.end_ts - fb.start_ts;
      duration_after = fa.end_ts - fa.start_ts;
    }
    ∷ ds
timing_onto key _ _ ds = ds

unfoldable pub timings_of : Dict Key FlowRow → Dict Key FlowRow → List Key → List TimingDelta
timings_of before after [] = []
timings_of before after (k ∷ ks) =
    timing_onto k (lookup k before) (lookup k after) (timings_of before after ks)

-- The keys of both are those of the union that are found twice.
unfoldable pub compare_timing : (Key → Key → Bool) → Session → Session → TimingDiff
compare_timing at_most a b = record {
  duration_before = session_duration a.bounds;
  duration_after = session_duration b.bounds;
  per_flow =
      timings_of (keyed a.flows) (keyed b.flows)
        (sort_with at_most (all_keys (keyed a.flows) (keyed b.flows)));
}

-- `_event_counts`
abbrev pub event_limit : ℕ
event_limit = 1000000

unfoldable pub counts_onto : Dict Text ℕ → List Text → Dict Text ℕ
counts_onto d [] = d
counts_onto d (t ∷ ts) = counts_onto (insert t (or_zero (lookup t d) + 1) d) ts

abbrev pub event_counts : Session → Dict Text ℕ
event_counts session = counts_onto [] (take event_limit session.events)

pub record EventTypeDelta : Type 0 where
  pub event_type : Text
  pub before : ℕ
  pub after : ℕ

-- `delta`
abbrev pub delta : EventTypeDelta → ℤ
delta d = if ltb d.after d.before then negsuc (d.before - d.after - 1) else pos (d.after - d.before)

unfoldable pub event_deltas : Dict Text ℕ → Dict Text ℕ → List Text → List EventTypeDelta
event_deltas before after [] = []
event_deltas before after (t ∷ ts) =
    record { event_type = t; before = or_zero (lookup t before); after = or_zero (lookup t after) }
    ∷ event_deltas before after ts

unfoldable pub compare_events : Session → Session → List EventTypeDelta
compare_events a b =
    event_deltas (event_counts a) (event_counts b)
      (sort_with text_leb (all_keys (event_counts a) (event_counts b)))

pub record CaptureComparison : Type 0 where
  pub flow_diff : List FlowDelta
  pub timing_diff : TimingDiff
  pub event_diff : List EventTypeDelta

-- `identical`
abbrev pub is_empty {ℓ} : {A : Type ℓ} → List A → Bool
is_empty [] = true
is_empty (x ∷ xs) = false

unfoldable pub flows_same : List FlowDelta → Bool
flows_same ds = not (
    not (is_empty (by_status added ds))
    || not (is_empty (by_status removed ds))
    || not (is_empty (by_status changed ds)))

abbrev pub is_zero : ℤ → Bool
is_zero (pos zero) = true
is_zero _ = false

unfoldable pub events_same : List EventTypeDelta → Bool
events_same [] = true
events_same (d ∷ ds) = is_zero (delta d) && events_same ds

unfoldable pub identical : CaptureComparison → Bool
identical c = flows_same c.flow_diff && events_same c.event_diff

unfoldable pub compare_captures : (Key → Key → Bool) → Session → Session → CaptureComparison
compare_captures at_most a b = record {
  flow_diff = compare_flows at_most a b;
  timing_diff = compare_timing at_most a b;
  event_diff = compare_events a b;
}
