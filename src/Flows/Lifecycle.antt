-- ===== src/Flows/Lifecycle.antt =====
-- netreplay/core/flows/lifecycle.py: lifecycle phases and events. `str.upper` is modelled on ASCII letters;
-- the summary is the data that its f-string prints, and times are microseconds.
pub mod Phases
use Prim.Native.String.{String}
use net_replay.Common.{
  ℕ, ◌-◌, Bool, true, false, not, ◌&&◌, ◌||◌, ◌≡◌, ◌≢◌, ◌⊎◌, ◌↔◌, refl, Option, none, some, List,
  [], ◌∷◌, ◌++◌, map, arith, ltb, leb, ◌==◌, if◌then◌else◌,
}
use net_replay.Common.Text.{codes, text_eq}
use net_replay.Common.Dict.{string_eq}
use net_replay.Flows.Tracker.{Flow}

pub data FlowPhase : Type 0 where
  open_phase active half_closed closed_phase : FlowPhase

abbrev upper_code : ℕ → ℕ
upper_code c = if leb b'a' c && leb c b'z' then c - 32 else c

-- `_STATE_PHASE.get(…)` on the upper-case text.
unfoldable pub state_phase : List ℕ → Option FlowPhase
state_phase s =
    if text_eq s (codes "SYN") || text_eq s (codes "SYN/ACK") || text_eq s (codes "ACK")
    then some open_phase
    else if text_eq s (codes "ESTABLISHED")
    then some active
    else if text_eq s (codes "FIN")
    then some half_closed
    else if text_eq s (codes "CLOSED") || text_eq s (codes "RST")
    then some closed_phase
    else none

-- `state or "NONE"`
abbrev or_none_text : List ℕ → List ℕ
or_none_text [] = codes "NONE"
or_none_text (c ∷ s) = c ∷ s

unfoldable pub phase_for_state : String → Option FlowPhase
unfolding state_phase
phase_for_state state = state_phase (map upper_code (or_none_text (codes state)))

unfoldable pub flow_phase : Flow → Option FlowPhase
flow_phase flow = phase_for_state flow.state

-- `_EVENT_TYPE`
unfoldable pub event_type : FlowPhase → String
event_type open_phase = "FLOW_OPEN"
event_type active = "FLOW_ACTIVE"
event_type half_closed = "FLOW_HALF_CLOSED"
event_type closed_phase = "FLOW_CLOSED"

pub record Summary : Type 0 where
  pub protocol : String
  pub src : String × Option ℕ
  pub dst : String × Option ℕ
  pub phase : FlowPhase

pub record LifecycleEvent : Type 0 where
  pub ts : ℕ
  pub flow_id : ℕ
  pub phase : FlowPhase
  pub type_name : String
  pub summary : Summary

abbrev id_or_zero : Option ℕ → ℕ
id_or_zero none = 0
id_or_zero (some i) = i

-- The event that `lifecycle_transitions` builds for a phase.
abbrev pub phase_event : Flow → FlowPhase → ℕ → LifecycleEvent
phase_event flow phase ts = record {
  ts = ts;
  flow_id = id_or_zero flow.id;
  phase = phase;
  type_name = event_type phase;
  summary = record {
    protocol = flow.protocol;
    src = (flow.source, flow.src_port);
    dst = (flow.destination, flow.dst_port);
    phase = phase;
  };
}

-- `new_phase == previous_phase`
unfoldable pub same_flow_phase : FlowPhase → Option FlowPhase → Bool
same_flow_phase open_phase (some open_phase) = true
same_flow_phase active (some active) = true
same_flow_phase half_closed (some half_closed) = true
same_flow_phase closed_phase (some closed_phase) = true
same_flow_phase _ _ = false

-- `if new_phase is None or new_phase == previous_phase`
abbrev pub phase_change : Flow → Option FlowPhase → Option FlowPhase → ℕ → List LifecycleEvent
phase_change flow previous none ts = []
phase_change flow previous (some p) ts =
    if same_flow_phase p previous then [] else phase_event flow p ts ∷ []

unfoldable pub lifecycle_transitions : Flow → String → String → ℕ → List LifecycleEvent
lifecycle_transitions flow previous_state new_state ts =
    if string_eq.beq previous_state new_state
    then []
    else phase_change flow (phase_for_state previous_state) (phase_for_state new_state) ts

unfoldable pub flow_lifecycle_events : Flow → List (ℕ × String × String) → List LifecycleEvent
flow_lifecycle_events flow [] = []
flow_lifecycle_events flow ((ts, previous, new) ∷ rest) =
    lifecycle_transitions flow previous new ts ++ flow_lifecycle_events flow rest
