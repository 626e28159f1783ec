-- ===== src/Flows/Lifecycle/Phases.antt =====
-- netreplay/core/flows/lifecycle.py: the phases that the events of a flow announce.
use Prim.Native.String.{String}
use text.Mathlib.TextEquality.{eq_iff}
use mathlib.Core.Bool.{false≢true}
use net_replay.Common.{
  ℕ, true, ◌≡◌, ◌≢◌, ◌↔◌, inl, inr, refl, sym, ◌∙◌, Option, none, some, List, [], ◌∷◌, ◌++◌, arith,
  Bool-cases,
}
use net_replay.Common.Dict.{string_eq}
use net_replay.Flows.TcpState.{
  TcpState, legacy_state, idle, syn_sent, syn_received, established, fin_wait, close_wait, closing,
  time_wait, closed, reset,
}
use net_replay.Flows.Tracker.{Flow}
use net_replay.Flows.Lifecycle.{
  FlowPhase, open_phase, active, half_closed, closed_phase, phase_for_state, LifecycleEvent,
  same_flow_phase, phase_change, lifecycle_transitions, flow_lifecycle_events,
}

same_flow_phase_iff :
    (p : FlowPhase) (o : Option FlowPhase) → (same_flow_phase p o ≡ true) ↔ (o ≡ some p)
unfolding same_flow_phase
same_flow_phase_iff p o = ground arith

-- The phase of a list of events, from the phase before them.
abbrev pub phase_after : Option FlowPhase → List LifecycleEvent → Option FlowPhase
phase_after o [] = o
phase_after o (e ∷ es) = phase_after (some e.phase) es

-- Each event announces a phase other than the one before it.
abbrev pub Alternates : Option FlowPhase → List LifecycleEvent → Type 0
Alternates o [] = Unit
Alternates o (e ∷ es) = (o ≢ some e.phase) × Alternates (some e.phase) es

-- A sequence of transitions in which each starts in the state where the one before it ended, all
-- states being known.
abbrev pub Chained : String → List (ℕ × String × String) → Type 0
Chained s [] = Unit
Chained s ((ts, previous, new) ∷ rest) =
    (previous ≡ s) × (phase_for_state new ≢ none) × Chained new rest

-- The state in which they end.
abbrev pub ends_in : String → List (ℕ × String × String) → String
ends_in s [] = s
ends_in s ((ts, previous, new) ∷ rest) = ends_in new rest

-- The phase that a state of the connection stands for.
abbrev pub expected_phase : TcpState → Option FlowPhase
expected_phase idle = none
expected_phase syn_sent = some open_phase
expected_phase syn_received = some open_phase
expected_phase established = some active
expected_phase fin_wait = some half_closed
expected_phase close_wait = some half_closed
expected_phase closing = some half_closed
expected_phase time_wait = some closed_phase
expected_phase closed = some closed_phase
expected_phase reset = some closed_phase

change_lem :
    (flow : Flow) (o n : Option FlowPhase) (ts : ℕ) (es : List LifecycleEvent)
    → n ≢ none
    → Alternates n es
    → Alternates o (phase_change flow o n ts ++ es)
      × (phase_after o (phase_change flow o n ts ++ es) ≡ phase_after n es)
change_lem flow o none ts es h a = absurd (h refl)
change_lem flow o (some p) ts es h a = elim (Bool-cases (same_flow_phase p o)) [
  | inl e ↦ rw (e, (same_flow_phase_iff p o).0 e) (a, refl)
  | inr e ↦ rw e ((λ q. false≢true (sym e ∙ (same_flow_phase_iff p o).1 q), a), refl)
]

one_transition :
    (flow : Flow) (s t : String) (ts : ℕ) (es : List LifecycleEvent)
    → phase_for_state t ≢ none
    → Alternates (phase_for_state t) es
    → Alternates (phase_for_state s) (lifecycle_transitions flow s t ts ++ es)
      × (phase_after (phase_for_state s) (lifecycle_transitions flow s t ts ++ es)
          ≡ phase_after (phase_for_state t) es)
unfolding lifecycle_transitions
one_transition flow s t ts es h a = elim (Bool-cases (string_eq.beq s t)) [
  | inl e ↦ rw (e, (eq_iff s t).0 e) (a, refl)
  | inr e ↦ rw e (change_lem flow (phase_for_state s) (phase_for_state t) ts es h a)
]

events_lem :
    (flow : Flow) (s : String) (changes : List (ℕ × String × String))
    → Chained s changes
    → Alternates (phase_for_state s) (flow_lifecycle_events flow changes)
      × (phase_after (phase_for_state s) (flow_lifecycle_events flow changes)
          ≡ phase_for_state (ends_in s changes))
unfolding flow_lifecycle_events
events_lem flow s [] h = (tt, refl)
events_lem flow s ((ts, previous, new) ∷ rest) h =
    let r = events_lem flow new rest h.2 in
    let o = one_transition flow previous new ts (flow_lifecycle_events flow rest) h.1 r.0 in
    rw (← h.0) (o.0, o.1 ∙ r.1)

-- Over a chain of state changes into states that have a phase, every event announces a phase other than
-- the one before it, and after all the events the phase is the phase of the last state.
pub flow_lifecycle_events-Alternates :
    (flow : Flow) (s : String) (changes : List (ℕ × String × String))
    → Chained s changes
    → Alternates (phase_for_state s) (flow_lifecycle_events flow changes)
      × (phase_after (phase_for_state s) (flow_lifecycle_events flow changes)
          ≡ phase_for_state (ends_in s changes))
flow_lifecycle_events-Alternates = events_lem

-- The state machine reports a state with a phase in every state but the first: open until the handshake
-- is complete, then active, half-closed after one FIN, and closed at the end or after a reset.
pub phase_for_state-legacy_state :
    (s : TcpState) → phase_for_state (legacy_state s) ≡ expected_phase s
unfolding legacy_state phase_for_state
phase_for_state-legacy_state idle = refl
phase_for_state-legacy_state syn_sent = refl
phase_for_state-legacy_state syn_received = refl
phase_for_state-legacy_state established = refl
phase_for_state-legacy_state fin_wait = refl
phase_for_state-legacy_state close_wait = refl
phase_for_state-legacy_state closing = refl
phase_for_state-legacy_state time_wait = refl
phase_for_state-legacy_state closed = refl
phase_for_state-legacy_state reset = refl
