-- ===== src/Events/Closed.antt =====
-- netreplay/core/events/models.py: what a graph holds after any calls of `EventGraph.add`.
use mathlib.Core.Bool.{true≢false}
use net_replay.Common.{
  not, sym, ◌∙◌, ap, ◌≡◌, ◌≢◌, refl, Bool, true, false, Option, none, some, List, [], ◌∷◌, ◌++◌,
  All, if◌then◌else◌,
}
use net_replay.Common.Dict.{lookup, lookup-insert}
use net_replay.Common.Text.{text_eq}
use net_replay.Replay.Bytes.{bytes_eq}
use net_replay.Events.Graph.{
  Text, NetworkEvent, EventGraph, new_graph, is_missing, has_unknown_parent, added, add,
}

-- The events added one after the other; one that raises leaves the graph as it is.
abbrev pub or_same : EventGraph → Option EventGraph → EventGraph
or_same g none = g
or_same g (some h) = h

unfoldable pub adds : EventGraph → List NetworkEvent → EventGraph
adds g [] = g
adds g (e ∷ es) = adds (or_same g (add g e)) es

-- The most recent of the events with an id.
abbrev pub newest : Text → List NetworkEvent → Option NetworkEvent
newest k [] = none
newest k (e ∷ es) = elim (newest k es) [
  | none ↦ if text_eq e.id k then some e else none
  | some f ↦ some f
]

-- The parent that is named is the id of some event of the graph.
abbrev pub ParentIn : List NetworkEvent → Option Text → Type 0
ParentIn es none = Unit
ParentIn es (some p) = newest p es ≢ none

-- What is found under an id is the most recent event with it, and no event names a parent outside the graph.
pub record IsClosed (g : EventGraph) : Type 0 where
  pub found : (k : Text) → lookup k g.by_id ≡ newest k g.events
  pub parents : All (λ e. ParentIn g.events e.parent_id) g.events

-- The match on what the rest of the list gives, under the test of the event that is appended.
elim_if :
    (b : Bool) (e : NetworkEvent) (o y : Option NetworkEvent)
    → elim (if b then some e else o) [ none ↦ y | some f ↦ some f ]
      ≡ (if b then some e else elim o [ none ↦ y | some f ↦ some f ])
elim_if true e o y = refl
elim_if false e o y = refl

newest-append :
    (k : Text) (e : NetworkEvent) (es : List NetworkEvent)
    → newest k (es ++ e ∷ []) ≡ (if text_eq e.id k then some e else newest k es)
newest-append k e [] = refl
newest-append k e (x ∷ es) =
    let y = if text_eq x.id k then some x else none in
    ap (λ o. elim o [ none ↦ y | some f ↦ some f ]) (newest-append k e es)
    ∙ elim_if (text_eq e.id k) e (newest k es) y

if_some :
    (b : Bool) (e : NetworkEvent) (o : Option NetworkEvent)
    → o ≢ none
    → (if b then some e else o) ≢ none
if_some true e o h = λ q. cc
if_some false e o h = h

ParentIn-append :
    (e : NetworkEvent) (es : List NetworkEvent) (o : Option Text)
    → ParentIn es o
    → ParentIn (es ++ e ∷ []) o
ParentIn-append e es none h = tt
ParentIn-append e es (some p) h =
    rw (newest-append p e es) (if_some (text_eq e.id p) e (newest p es) h)

parents-append :
    (e : NetworkEvent) (es all : List NetworkEvent)
    → All (λ x. ParentIn all x.parent_id) es
    → ParentIn all e.parent_id
    → All (λ x. ParentIn (all ++ e ∷ []) x.parent_id) (es ++ e ∷ [])
parents-append e [] all h k = (ParentIn-append e all e.parent_id k, tt)
parents-append e (x ∷ es) all h k =
    (ParentIn-append e all x.parent_id h.0, parents-append e es all h.1 k)

ParentIn-known :
    (g : EventGraph) (o : Option Text)
    → ((k : Text) → lookup k g.by_id ≡ newest k g.events)
    → elim o [ none ↦ false | some p ↦ is_missing (lookup p g.by_id) ] ≡ false
    → ParentIn g.events o
ParentIn-known g none f h = tt
ParentIn-known g (some p) f h = λ q. true≢false (ap is_missing (sym (f p ∙ q)) ∙ h)

added-IsClosed :
    (g : EventGraph) (e : NetworkEvent)
    → IsClosed g
    → ParentIn g.events e.parent_id
    → IsClosed (added g e)
added-IsClosed g e h k = record {
  found = λ i.
      lookup-insert e.id i e g.by_id
      ∙ ap (λ o. if text_eq e.id i then some e else o) (h.found i)
      ∙ sym (newest-append i e g.events);
  parents = parents-append e g.events g.events h.parents k;
}

kept_if :
    (g : EventGraph) (e : NetworkEvent) (b : Bool)
    → IsClosed g
    → (b ≡ false → ParentIn g.events e.parent_id)
    → IsClosed (or_same g (if b then none else some (added g e)))
kept_if g e true h k = h
kept_if g e false h k = added-IsClosed g e h (k refl)

or_same-IsClosed : (g : EventGraph) (e : NetworkEvent) → IsClosed g → IsClosed (or_same g (add g e))
unfolding add has_unknown_parent
or_same-IsClosed g e h =
    kept_if g e (elim e.parent_id [ none ↦ false | some p ↦ is_missing (lookup p g.by_id) ]) h
      (ParentIn-known g e.parent_id h.found)

adds-IsClosed : (g : EventGraph) (es : List NetworkEvent) → IsClosed g → IsClosed (adds g es)
unfolding adds
adds-IsClosed g [] h = h
adds-IsClosed g (e ∷ es) h = adds-IsClosed (or_same g (add g e)) es (or_same-IsClosed g e h)

-- The parent is none, or the id of one of the events.
abbrev known : List NetworkEvent → Option Text → Bool
known seen none = true
known seen (some p) = not (is_missing (newest p seen))

-- The events that follow those seen, each with a known parent.
unfoldable pub accepted : List NetworkEvent → List NetworkEvent → List NetworkEvent
accepted seen [] = seen
accepted seen (e ∷ es) = accepted (if known seen e.parent_id then seen ++ e ∷ [] else seen) es

kept_events :
    (g : EventGraph) (e : NetworkEvent) (b : Bool)
    → (or_same g (if b then none else some (added g e))).events
      ≡ (if not b then g.events ++ e ∷ [] else g.events)
kept_events g e true = refl
kept_events g e false = refl

not_unknown :
    (g : EventGraph) (o : Option Text)
    → IsClosed g
    → not (elim o [ none ↦ false | some p ↦ is_missing (lookup p g.by_id) ]) ≡ known g.events o
not_unknown g none h = refl
not_unknown g (some p) h = ap (λ x. not (is_missing x)) (h.found p)

or_same-accepted :
    (g : EventGraph) (e : NetworkEvent)
    → IsClosed g
    → (or_same g (add g e)).events
      ≡ (if known g.events e.parent_id then g.events ++ e ∷ [] else g.events)
unfolding add has_unknown_parent
or_same-accepted g e h =
    kept_events g e (elim e.parent_id [ none ↦ false | some p ↦ is_missing (lookup p g.by_id) ])
    ∙ ap (λ b. if b then g.events ++ e ∷ [] else g.events) (not_unknown g e.parent_id h)

adds-accepted :
    (g : EventGraph) (es : List NetworkEvent)
    → IsClosed g
    → (adds g es).events ≡ accepted g.events es
unfolding adds accepted
adds-accepted g [] h = refl
adds-accepted g (e ∷ es) h =
    adds-accepted (or_same g (add g e)) es (or_same-IsClosed g e h)
    ∙ ap (λ seen. accepted seen es) (or_same-accepted g e h)

new_graph-IsClosed : (session_id : Text) → IsClosed (new_graph session_id)
unfolding lookup
new_graph-IsClosed session_id = record { found = λ k. refl; parents = tt }

-- Whatever events are added to a new graph: its events are, in order, those that name no parent or the id of an event kept
-- before them, the others being refused; what is found under an id is the most recent of the graph's events with that
-- id, nothing when there is none; and the parent that an event names is the id of an event of the graph.
pub adds-new_graph-IsClosed :
    (session_id : Text) (es : List NetworkEvent)
    → IsClosed (adds (new_graph session_id) es)
      × ((adds (new_graph session_id) es).events ≡ accepted [] es)
adds-new_graph-IsClosed session_id es =
    let h = new_graph-IsClosed session_id in
    (adds-IsClosed (new_graph session_id) es h, adds-accepted (new_graph session_id) es h)
