-- ===== src/Events/Graph.antt =====
-- netreplay/core/events/models.py: the event graph. Times are microseconds; the parameters of an event, the
-- descendants and the counts by kind are not modelled. Ids come from outside.
use net_replay.Common.{
  ℕ, Bool, true, false, Option, none, some, List, [], ◌∷◌, ◌++◌, if◌then◌else◌, ◌==◌,
}
use net_replay.Common.Dict.{Dict, lookup, insert}
use net_replay.Common.Text.{text_eq}
use net_replay.Common.Sort.{pair_leb, sort_with}
use net_replay.Replay.Bytes.{bytes_eq}

abbrev pub Text : Type 0
Text = List ℕ

pub data EventKind : Type 0 where
  dns tls http error : EventKind

pub record NetworkEvent : Type 0 where
  pub ts : ℕ
  pub kind : EventKind
  pub summary : Text
  pub session_id : Text
  pub flow_id : Option Text
  pub packet_id : Option ℕ
  pub parent_id : Option Text
  pub id : Text

pub record EventGraph : Type 0 where
  pub session_id : Text
  pub events : List NetworkEvent
  pub by_id : Dict Text NetworkEvent

abbrev pub new_graph : Text → EventGraph
new_graph session_id = record { session_id = session_id; events = []; by_id = [] }

-- The parent is given and not in the graph.
abbrev pub is_missing : Option NetworkEvent → Bool
is_missing none = true
is_missing (some e) = false

unfoldable pub has_unknown_parent : EventGraph → NetworkEvent → Bool
has_unknown_parent g e = elim e.parent_id [ none ↦ false | some p ↦ is_missing (lookup p g.by_id) ]

abbrev pub added : EventGraph → NetworkEvent → EventGraph
added g e = record g { events = g.events ++ e ∷ []; by_id = insert e.id e g.by_id }

-- `none` is the KeyError.
unfoldable pub add : EventGraph → NetworkEvent → Option EventGraph
add g e = if has_unknown_parent g e then none else some (added g e)

-- A comprehension over the events.
abbrev pub filtered : (NetworkEvent → Bool) → List NetworkEvent → List NetworkEvent
filtered p [] = []
filtered p (e ∷ es) = let rest = filtered p es in if p e then e ∷ rest else rest

abbrev pub is_text : Text → Option Text → Bool
is_text t none = false
is_text t (some u) = text_eq u t

abbrev pub is_number : ℕ → Option ℕ → Bool
is_number n none = false
is_number n (some m) = m == n

abbrev pub is_root : Option Text → Bool
is_root none = true
is_root (some p) = false

-- `children`; `none` is the KeyError.
unfoldable pub children : EventGraph → Text → Option (List NetworkEvent)
children g event_id = elim (lookup event_id g.by_id) [
  | none ↦ none
  | some parent ↦ some (filtered (λ e. is_text parent.id e.parent_id) g.events)
]

unfoldable pub roots : EventGraph → List NetworkEvent
roots g = filtered (λ e. is_root e.parent_id) g.events

unfoldable pub for_packet : EventGraph → ℕ → Option Text → List NetworkEvent
for_packet g packet_id none = filtered (λ e. is_number packet_id e.packet_id) g.events
for_packet g packet_id (some session) =
    filtered (λ e. if is_number packet_id e.packet_id then text_eq e.session_id session else false)
      g.events

unfoldable pub for_flow : EventGraph → Text → List NetworkEvent
for_flow g flow_id = filtered (λ e. is_text flow_id e.flow_id) g.events

unfoldable pub get : EventGraph → Text → Option NetworkEvent
get g event_id = lookup event_id g.by_id

unfoldable pub timeline : EventGraph → List NetworkEvent
timeline g = sort_with (λ e f. pair_leb (e.ts, e.id) (f.ts, f.id)) g.events
