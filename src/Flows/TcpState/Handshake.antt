-- ===== src/Flows/TcpState/Handshake.antt =====
-- The three-way handshake and the two ways to end, through the state machine.
use net_replay.Common.{
  ℕ, inl, inr, Bool, true, false, not, ◌≡◌, refl, [], ◌∷◌, if◌then◌else◌, Bool-cases,
}
use net_replay.Flows.TcpState.{
  TcpState, syn_sent, syn_received, established, closed, fin_wait, close_wait, syn, syn_and_ack,
  ack, Reason, TcpStateMachine, new_machine, has, same_phase, set_phase, add_syn, add_ack, add_fin,
  add_unreset, add, flag_rst, flag_syn, flag_ack, flag_fin,
}
use net_replay.Flows.TcpState.History.{adds}
use net_replay.Flows.TcpState.Logs.{phase-set_phase}

-- The flags of a segment, but for RST, which is clear.
abbrev pub Carries : ℕ → Bool → Bool → Bool → Type 0
Carries flags s a f =
    (has flags flag_rst ≡ false)
    × (has flags flag_syn ≡ s)
    × (has flags flag_ack ≡ a)
    × (has flags flag_fin ≡ f)

add-Carries :
    (m : TcpStateMachine) (flags : ℕ) (from s a f : Bool)
    → Carries flags s a f
    → add m flags from ≡ add_unreset m s a f from
unfolding add
add-Carries m flags from s a f h = rw (h.0, h.1, h.2, h.3)

-- A SYN of the client, a SYN/ACK of the server and an ACK of the client establish the connection,
-- through SYN_SENT and SYN_RECEIVED, and the log holds these three changes with their reasons.
pub handshake :
    (f g k : ℕ)
    → Carries f true false false
    → Carries g true true false
    → Carries k false true false
    → adds new_machine ((f, false) ∷ (g, true) ∷ (k, false) ∷ []) ≡ record {
      phase = established;
      transitions = (syn_sent, syn) ∷ (syn_received, syn_and_ack) ∷ (established, ack) ∷ [];
      client_fin = false;
      server_fin = false;
      client_syn = true;
      server_syn = true;
    }
unfolding adds add_unreset add_syn add_ack set_phase same_phase
handshake f g k hf hg hk =
    rw (add-Carries _ f false true false false hf) (
      rw (add-Carries _ g true true true false hg) (rw (add-Carries _ k false false true false hk)))

record Marks (m : TcpStateMachine) (c s : Bool) : Type 0 where
  client : m.client_fin ≡ c
  server : m.server_fin ≡ s

set_phase-Marks :
    (m : TcpStateMachine) (p : TcpState) (r : Reason) (c s : Bool)
    → Marks m c s
    → Marks (set_phase m p r) c s
unfolding set_phase
set_phase-Marks m p r c s h = elim (Bool-cases (same_phase p m.phase)) [
  | inl e ↦ rw e h
  | inr e ↦ rw e (record { client = h.client; server = h.server })
]

add_ack-Marks : (m : TcpStateMachine) (c s : Bool) → Marks m c s → Marks (add_ack m) c s
unfolding add_ack
add_ack-Marks m c s h = elim (Bool-cases (same_phase m.phase syn_received)) [
  | inl e ↦ rw e (set_phase-Marks m established ack c s h)
  | inr e ↦ rw e (elim (Bool-cases (same_phase m.phase syn_sent)) [
    | inl f ↦ rw f (set_phase-Marks m established ack c s h)
    | inr f ↦ rw f h
  ])
]

if-Marks :
    (a : Bool) (m : TcpStateMachine) (c s : Bool)
    → Marks m c s
    → Marks (if a then add_ack m else m) c s
if-Marks true m c s h = add_ack-Marks m c s h
if-Marks false m c s h = h

-- The first FIN, and the second from the other side.
first_fin :
    (m : TcpStateMachine) (from : Bool)
    → Marks m false false
    → ((add_fin m from).phase ≡ (if from then close_wait else fin_wait))
      × Marks (add_fin m from) (not from) from
unfolding add_fin
first_fin m true h =
    rw (h.client)
      (phase-set_phase _ _ _, set_phase-Marks _ _ _ _ _ (record { client = refl; server = refl }))
first_fin m false h =
    rw (h.server)
      (phase-set_phase _ _ _, set_phase-Marks _ _ _ _ _ (record { client = refl; server = refl }))

second_fin :
    (m : TcpStateMachine) (from : Bool)
    → Marks m (not from) from
    → (add_fin m (not from)).phase ≡ closed
unfolding add_fin
second_fin m true h = rw h.server (phase-set_phase _ _ _)
second_fin m false h = rw h.client (phase-set_phase _ _ _)

add-fin :
    (m : TcpStateMachine) (f : ℕ) (from a : Bool)
    → Carries f false a true
    → add m f from ≡ add_fin (if a then add_ack m else m) from
unfolding add_unreset
add-fin m f from a h = add-Carries m f from false a true h

-- From any state in which neither side has sent a FIN, a FIN from each side, first from either, closes the
-- connection, through CLOSE_WAIT or FIN_WAIT after the first.
pub teardown :
    (m : TcpStateMachine) (f g : ℕ) (a b from : Bool)
    → m.client_fin ≡ false
    → m.server_fin ≡ false
    → Carries f false a true
    → Carries g false b true
    → ((add m f from).phase ≡ (if from then close_wait else fin_wait))
      × ((adds m ((f, from) ∷ (g, not from) ∷ [])).phase ≡ closed)
unfolding adds
teardown m f g a b from hc hs hf hg =
    let (p, k) =
      first_fin _ from (if-Marks a m false false (record { client = hc; server = hs })) in
    rw (add-fin m f from a hf)
      (p, rw (add-fin _ g (not from) b hg) (second_fin _ from (if-Marks b _ _ _ k)))
