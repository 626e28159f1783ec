-- ===== src/Flows/TcpState.antt =====
-- netreplay/core/flows/models.py: the TCP state machine of a flow.
pub mod History
pub mod Logs
pub mod Reachable
pub mod Handshake
use Prim.Native.Nat.{bit_and}
use Prim.Native.String.{String}
use net_replay.Common.{
  ℕ, Bool, true, false, not, ◌&&◌, ◌≡◌, refl, List, [], ◌∷◌, ◌++◌, ltb, if◌then◌else◌,
}

abbrev pub flag_fin : ℕ
flag_fin = 0x01

abbrev pub flag_syn : ℕ
flag_syn = 0x02

abbrev pub flag_rst : ℕ
flag_rst = 0x04

abbrev pub flag_ack : ℕ
flag_ack = 0x10

-- `bool(flags & mask)`
unfoldable pub has : ℕ → ℕ → Bool
has flags mask = ltb 0 (bit_and flags mask)

pub data TcpState : Type 0 where
  idle syn_sent syn_received established fin_wait close_wait closing time_wait closed reset :
      TcpState

-- `new is self.phase`
unfoldable pub same_phase : TcpState → TcpState → Bool
same_phase idle idle = true
same_phase syn_sent syn_sent = true
same_phase syn_received syn_received = true
same_phase established established = true
same_phase fin_wait fin_wait = true
same_phase close_wait close_wait = true
same_phase closing closing = true
same_phase time_wait time_wait = true
same_phase closed closed = true
same_phase reset reset = true
same_phase _ _ = false

-- `_LEGACY_STATE`
unfoldable pub legacy_state : TcpState → String
legacy_state idle = "NONE"
legacy_state syn_sent = "SYN"
legacy_state syn_received = "SYN/ACK"
legacy_state established = "ESTABLISHED"
legacy_state fin_wait = "FIN"
legacy_state close_wait = "FIN"
legacy_state closing = "FIN"
legacy_state time_wait = "CLOSED"
legacy_state closed = "CLOSED"
legacy_state reset = "RST"

-- The reason texts of the transitions.
pub data Reason : Type 0 where
  rst syn_and_ack syn_ack syn ack fin_fin fin_from_server fin_from_client : Reason

pub record TcpStateMachine : Type 0 where
  pub phase : TcpState
  pub transitions : List (TcpState × Reason)
  pub client_fin : Bool
  pub server_fin : Bool
  pub client_syn : Bool
  pub server_syn : Bool

abbrev pub new_machine : TcpStateMachine
new_machine = record {
  phase = idle;
  transitions = [];
  client_fin = false;
  server_fin = false;
  client_syn = false;
  server_syn = false;
}

-- `_set`
unfoldable pub set_phase : TcpStateMachine → TcpState → Reason → TcpStateMachine
set_phase m new reason =
    if same_phase new m.phase
    then m
    else record m { phase = new; transitions = m.transitions ++ (new, reason) ∷ [] }

-- `self.server_syn = True` or `self.client_syn = True`
abbrev pub mark_syn : TcpStateMachine → Bool → TcpStateMachine
mark_syn m true = record m { server_syn = true }
mark_syn m false = record m { client_syn = true }

-- `self.server_fin = True` or `self.client_fin = True`
abbrev pub mark_fin : TcpStateMachine → Bool → TcpStateMachine
mark_fin m true = record m { server_fin = true }
mark_fin m false = record m { client_fin = true }

-- `if is_syn: …`
unfoldable pub add_syn : TcpStateMachine → Bool → TcpStateMachine
add_syn m from_responder =
    let m' = mark_syn m from_responder in
    if m'.client_syn && m'.server_syn
    then set_phase m' syn_received syn_and_ack
    else if from_responder
    then set_phase m' syn_received syn_ack
    else set_phase m' syn_sent syn

-- `elif is_ack and self.phase is …`
unfoldable pub add_ack : TcpStateMachine → TcpStateMachine
add_ack m =
    if same_phase m.phase syn_received
    then set_phase m established ack
    else if same_phase m.phase syn_sent
    then set_phase m established ack
    else m

-- `if is_fin: …`
unfoldable pub add_fin : TcpStateMachine → Bool → TcpStateMachine
add_fin m from_responder =
    let m' = mark_fin m from_responder in
    if m'.client_fin && m'.server_fin
    then set_phase m' closed fin_fin
    else if from_responder
    then set_phase m' close_wait fin_from_server
    else set_phase m' fin_wait fin_from_client

-- `add` after the test of the RST flag.
unfoldable pub add_unreset : TcpStateMachine → Bool → Bool → Bool → Bool → TcpStateMachine
add_unreset m is_syn is_ack is_fin from_responder =
    let opened = if is_syn then add_syn m from_responder else if is_ack then add_ack m else m in
    if is_fin then add_fin opened from_responder else opened

unfoldable pub add : TcpStateMachine → ℕ → Bool → TcpStateMachine
add m flags from_responder =
    if has flags flag_rst
    then set_phase m reset rst
    else add_unreset m (has flags flag_syn) (has flags flag_ack) (has flags flag_fin) from_responder

-- `state()`
unfoldable pub state : TcpStateMachine → String
state m = legacy_state m.phase
