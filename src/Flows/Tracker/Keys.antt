-- ===== src/Flows/Tracker/Keys.antt =====
-- netreplay/core/flows/tracker.py: the flow keys of a packet and its reply.
use Prim.Native.String.{String}
use text.Mathlib.TextEquality.{path_by_compare}
use net_replay.Common.{ℕ, ◌≡◌, refl, Option, none, some, arith}
use net_replay.Common.Text.{compare-flip}
use net_replay.Packets.{ParsedPacket}
use net_replay.Flows.Tracker.{Endpoint, key_ports, ordered_key, flow_key}

-- The packet that travels the other way between the same endpoints.
abbrev pub reply_of : ParsedPacket → ParsedPacket
reply_of p = record p {
  source = p.destination;
  destination = p.source;
  src_port = p.dst_port;
  dst_port = p.src_port;
}

ordered_key_comm :
    (protocol : String) (a b : Endpoint) → ordered_key protocol a b ≡ ordered_key protocol b a
unfolding ordered_key
ordered_key_comm protocol (s, p) (t, q) = ground (arith, compare-flip s t, path_by_compare s t)

-- The ports of a packet are both present or both absent.
abbrev pub SamePresence : Option ℕ → Option ℕ → Type 0
SamePresence none none = Unit
SamePresence (some p) (some q) = Unit
SamePresence _ _ = ⊥

key_ports-swap :
    (p q : Option ℕ)
    → SamePresence p q
    → ((key_ports q p).0 ≡ (key_ports p q).1) × ((key_ports q p).1 ≡ (key_ports p q).0)
key_ports-swap none none h = (refl, refl)
key_ports-swap (some p) (some q) h = (refl, refl)
key_ports-swap none (some q) h = absurd h
key_ports-swap (some p) none h = absurd h

-- A packet and one that travels the other way have the same flow key, when both ports are known or neither is.
pub flow_key-reply_of :
    (p : ParsedPacket) → SamePresence p.src_port p.dst_port → flow_key (reply_of p) ≡ flow_key p
unfolding flow_key
flow_key-reply_of p h =
    let (e, f) = key_ports-swap p.src_port p.dst_port h in
    rw (e, f) (ordered_key_comm p.protocol _ _)
