-- ===== src/Compare/Tests.antt =====
-- The comparison of two small captures.
use net_replay.Common.{◌≡◌, ◌↔◌, refl, Bool, true, some, [], ◌∷◌, take}
use net_replay.Common.Dict.{lookup, insert, nat_eq}
use net_replay.Common.Text.{codes}
use net_replay.Common.Sort.{text_leb, sort_with, insert_with}
use net_replay.Replay.Bytes.{bytes_eq}
use net_replay.Protocols.Hex.{Text}
use net_replay.Compare.{
  FlowRow, Session, Key, pair_eq, keyed, keyed_onto, endpoint_key, new_keys, deltas_of,
  compare_flows, by_status, flows_same, event_limit, counts_onto, event_deltas, compare_events,
  events_same, identical, compare_captures,
}
use net_replay.Compare.Flows.{IsSame}
use net_replay.Compare.Identical.{occurrences, identical-compare_captures}

abbrev request : FlowRow
request = record {
  source = codes "10.0.0.2";
  destination = codes "10.0.0.1";
  protocol = codes "TCP";
  src_port = some 40000;
  dst_port = some 80;
  start_ts = 5;
  end_ts = 9;
  packet_count = 3;
  bytes = 180;
  state = codes "CLOSED";
}

-- The same flow, seen from its other end.
abbrev reply : FlowRow
reply = record request {
  source = codes "10.0.0.1";
  destination = codes "10.0.0.2";
  src_port = some 80;
  dst_port = some 40000;
}

abbrev first : Session
first = record {
  flows = request ∷ [];
  events = codes "DNS" ∷ codes "TLS" ∷ codes "DNS" ∷ [];
  bounds = some (5, 9);
}

abbrev second : Session
second = record {
  flows = reply ∷ [];
  events = codes "TLS" ∷ codes "DNS" ∷ codes "DNS" ∷ [];
  bounds = some (2, 9);
}

abbrev by_protocol : Key → Key → Bool
by_protocol k l = text_leb k.0 l.0

two_ends : identical (compare_captures by_protocol first second) ≡ true
unfolding identical compare_captures compare_flows compare_events deltas_of event_deltas flows_same
    events_same by_status keyed_onto endpoint_key counts_onto new_keys sort_with insert_with
    text_leb lookup insert
two_ends = refl

identical-compare_captures_example :
    (identical (compare_captures by_protocol first second) ≡ true) ↔ (
      ((k : Key) → IsSame (lookup k (keyed first.flows)) (lookup k (keyed second.flows)))
      × ((t : Text)
          → occurrences t (take event_limit first.events)
            ≡ occurrences t (take event_limit second.events)))
identical-compare_captures_example = identical-compare_captures by_protocol first second
