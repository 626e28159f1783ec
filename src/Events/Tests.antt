-- ===== src/Events/Tests.antt =====
-- The theorems on the event graph at concrete inputs.
use net_replay.Common.{◌≡◌, arith, none, some, List, [], ◌∷◌}
use net_replay.Events.Chains.{chain, chain_enough}
use net_replay.Events.Closed.{adds, IsClosed, accepted, adds-new_graph-IsClosed}
use net_replay.Events.Graph.{dns, tls, NetworkEvent, new_graph, EventGraph}

abbrev query : NetworkEvent
query = record {
  ts = 5;
  kind = dns;
  summary = [];
  session_id = [];
  flow_id = none;
  packet_id = some 3;
  parent_id = none;
  id = 1 ∷ [];
}

-- A child of the query, and an event whose parent is unknown.
abbrev events : List NetworkEvent
events =
    query
    ∷ record query { kind = tls; parent_id = some (1 ∷ []); id = 2 ∷ [] }
    ∷ record query { parent_id = some (9 ∷ []); id = 3 ∷ [] }
    ∷ []

adds-new_graph-IsClosed_example :
    IsClosed (adds (new_graph []) events)
    × ((adds (new_graph []) events).events ≡ accepted [] events)
adds-new_graph-IsClosed_example = adds-new_graph-IsClosed [] events

-- Two events that name each other as parent.
abbrev child : NetworkEvent
child = record query { parent_id = some (1 ∷ []); id = 2 ∷ [] }

abbrev looped : EventGraph
looped = record {
  session_id = [];
  events = [];
  by_id = (1 ∷ [], record query { parent_id = some (2 ∷ []) }) ∷ (2 ∷ [], child) ∷ [];
}

chain_enough_example : chain 50 looped.by_id [] child ≡ chain 3 looped.by_id [] child
chain_enough_example = chain_enough looped child 50 (omega arith)
