-- ===== src/Flows/Tracker/Totals.antt =====
-- Flow ids, and the packets and bytes that the flows account for.
use net_replay.Common.{
  ℕ, suc, ◌+◌, Bool, true, false, ◌≡◌, none, some, List, [], ◌∷◌, arith, inl, inr, Option-cases,
  Bool-cases, length, sum_of, ap, ◌∙◌,
}
use net_replay.Common.Dict.{string_eq, Dict, lookup, insert, total, total-insert, length-insert}
use net_replay.Packets.{ParsedPacket}
use net_replay.Flows.Tracker.{
  Flow, FlowKey, flow_key_eq, flow_key, FlowTracker, cleared, new_flow, feed_flow, feed,
}

-- The entries are numbered from `n` on, in the order of insertion.
abbrev pub Numbered : ℕ → List (FlowKey × Flow) → Type 0
Numbered n [] = Unit
Numbered n ((k, f) ∷ d) = (f.id ≡ some n) × Numbered (suc n) d

-- A tracker after packets of so many bytes.
pub record Accounts (packets bytes : ℕ) (t : FlowTracker) : Type 0 where
  pub numbered : Numbered 1 t.flows
  pub counted : length t.flows ≡ t.counter
  pub packets_are : total (λ f. f.packet_count) t.flows ≡ packets
  pub bytes_are : total (λ f. f.bytes) t.flows ≡ bytes

-- The flow that `feed_flow` writes back.
record Written (t : FlowTracker) (key : FlowKey) (flow : Flow) (started : Bool)
    (parsed : ParsedPacket) : Type 0 where
  new : Flow
  flows_are : (feed_flow t key flow started parsed).tracker.flows ≡ insert key new t.flows
  counter_is : (feed_flow t key flow started parsed).tracker.counter ≡ t.counter
  id_is : new.id ≡ flow.id
  packets_are : new.packet_count ≡ flow.packet_count + 1
  bytes_are : new.bytes ≡ flow.bytes + parsed.length

written :
    (t : FlowTracker) (key : FlowKey) (flow : Flow) (started : Bool) (parsed : ParsedPacket)
    → Written t key flow started parsed
unfolding feed_flow
written t key flow started parsed = elim (Bool-cases (string_eq.beq parsed.protocol "TCP")) [
  | inl e ↦ record {
    new = (feed_flow t key flow started parsed).result.flow;
    flows_are = rw e;
    counter_is = rw e;
    id_is = rw e;
    packets_are = rw e;
    bytes_are = rw e;
  }
  | inr e ↦ record {
    new = (feed_flow t key flow started parsed).result.flow;
    flows_are = rw e;
    counter_is = rw e;
    id_is = rw e;
    packets_are = rw e;
    bytes_are = rw e;
  }
]

-- Writing back a flow under its own id keeps the numbering, and so does a new one at the end.
insert-Numbered_old :
    (n : ℕ) (key : FlowKey) (old new : Flow) (d : Dict FlowKey Flow)
    → Numbered n d
    → lookup key d ≡ some old
    → new.id ≡ old.id
    → Numbered n (insert key new d)
unfolding lookup insert
insert-Numbered_old n key old new [] h l e = cc
insert-Numbered_old n key old new ((k, f) ∷ d) h l e =
    ground (arith, insert-Numbered_old (suc n) key old new d h.1)

insert-Numbered_new :
    (n : ℕ) (key : FlowKey) (new : Flow) (d : Dict FlowKey Flow)
    → Numbered n d
    → lookup key d ≡ none
    → new.id ≡ some (n + length d)
    → Numbered n (insert key new d)
unfolding lookup insert
insert-Numbered_new n key new [] h l e = (e ∙ ap some (omega arith), tt)
insert-Numbered_new n key new ((k, f) ∷ d) h l e =
    ground (arith, insert-Numbered_new (suc n) key new d h.1)

feed-none :
    (t : FlowTracker) (parsed : ParsedPacket)
    → lookup (flow_key parsed) t.flows ≡ none
    → feed t parsed
      ≡ feed_flow
          (record t { counter = t.counter + 1 })
          (flow_key parsed)
          (new_flow (t.counter + 1) parsed)
          true
          parsed
unfolding feed
feed-none t parsed e = rw e

feed-some :
    (t : FlowTracker) (parsed : ParsedPacket) (flow : Flow)
    → lookup (flow_key parsed) t.flows ≡ some flow
    → feed t parsed ≡ feed_flow t (flow_key parsed) flow false parsed
unfolding feed
feed-some t parsed flow e = rw e

module _ (packets bytes : ℕ) (t : FlowTracker) (parsed : ParsedPacket)
    (h : Accounts packets bytes t) where
  feed-Accounts_new :
      lookup (flow_key parsed) t.flows ≡ none
      → Accounts (packets + 1) (bytes + parsed.length) (feed t parsed).tracker
  feed-Accounts_new e =
      let key = flow_key parsed in
      let w =
        written (record t { counter = t.counter + 1 }) key (new_flow (t.counter + 1) parsed) true
          parsed in
      rw (feed-none t parsed e) (record {
        numbered = rw w.flows_are (
            insert-Numbered_new 1 key w.new t.flows h.numbered e
              (w.id_is ∙ ap some (omega (arith, h.counted))));
        counted =
            rw (w.flows_are, w.counter_is)
              (omega (arith, rw e at (length-insert key w.new t.flows), h.counted));
        packets_are = rw w.flows_are (
            omega (
              arith,
              rw e at (total-insert (λ f. f.packet_count) key w.new t.flows),
              h.packets_are,
              w.packets_are,
            ));
        bytes_are = rw w.flows_are (
            omega (
              arith,
              rw e at (total-insert (λ f. f.bytes) key w.new t.flows),
              h.bytes_are,
              w.bytes_are,
            ));
      })

  feed-Accounts_old :
      (flow : Flow)
      → lookup (flow_key parsed) t.flows ≡ some flow
      → Accounts (packets + 1) (bytes + parsed.length) (feed t parsed).tracker
  feed-Accounts_old flow e =
      let key = flow_key parsed in
      let w = written t key flow false parsed in
      rw (feed-some t parsed flow e) (record {
        numbered =
            rw w.flows_are (insert-Numbered_old 1 key flow w.new t.flows h.numbered e w.id_is);
        counted =
            rw (w.flows_are, w.counter_is)
              (omega (arith, rw e at (length-insert key w.new t.flows), h.counted));
        packets_are = rw w.flows_are (
            omega (
              arith,
              rw e at (total-insert (λ f. f.packet_count) key w.new t.flows),
              h.packets_are,
              w.packets_are,
            ));
        bytes_are = rw w.flows_are (
            omega (
              arith,
              rw e at (total-insert (λ f. f.bytes) key w.new t.flows),
              h.bytes_are,
              w.bytes_are,
            ));
      })

  feed-Accounts : Accounts (packets + 1) (bytes + parsed.length) (feed t parsed).tracker
  feed-Accounts = elim (Option-cases (lookup (flow_key parsed) t.flows)) [
    | inl e ↦ feed-Accounts_new e
    | inr (flow, e) ↦ feed-Accounts_old flow e
  ]

-- The tracker after the packets of a capture.
unfoldable pub track : FlowTracker → List ParsedPacket → FlowTracker
track t [] = t
track t (p ∷ ps) = track (feed t p).tracker ps

track-Accounts :
    (packets bytes : ℕ) (t : FlowTracker) (ps : List ParsedPacket)
    → Accounts packets bytes t
    → Accounts
        (packets + length ps)
        (bytes + sum_of (λ (p : ParsedPacket). p.length) ps)
        (track t ps)
unfolding track
track-Accounts packets bytes t [] h = record {
  numbered = h.numbered;
  counted = h.counted;
  packets_are = omega (arith, h.packets_are);
  bytes_are = omega (arith, h.bytes_are);
}
track-Accounts packets bytes t (p ∷ ps) h =
    let r =
      track-Accounts (packets + 1) (bytes + p.length) (feed t p).tracker ps
        (feed-Accounts packets bytes t p h) in
    record {
      numbered = r.numbered;
      counted = r.counted;
      packets_are = omega (arith, r.packets_are);
      bytes_are = omega (arith, r.bytes_are);
    }

-- After any packets from a cleared tracker, the flows are numbered 1, 2, … in the order in which they were first
-- seen, the counter is their number, and their packet and byte counts add up to the packets and bytes fed.
pub track-cleared :
    (ps : List ParsedPacket)
    → Accounts (length ps) (sum_of (λ (p : ParsedPacket). p.length) ps) (track cleared ps)
track-cleared ps =
    let r = track-Accounts 0 0 cleared ps (record {
      numbered = tt;
      counted = omega arith;
      packets_are = omega arith;
      bytes_are = omega arith;
    }) in
    record {
      numbered = r.numbered;
      counted = r.counted;
      packets_are = omega (arith, r.packets_are);
      bytes_are = omega (arith, r.bytes_are);
    }
