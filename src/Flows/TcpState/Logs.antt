-- ===== src/Flows/TcpState/Logs.antt =====
-- netreplay/core/flows/models.py: the log of transitions of the state machine, through each operation.
use net_replay.Common.{
  ℕ, Bool, true, false, ◌≡◌, inl, inr, refl, ◌∙◌, List, [], ◌∷◌, ◌++◌, arith, if◌then◌else◌,
  Bool-cases,
}
use net_replay.Flows.TcpState.{
  TcpState, idle, syn_sent, syn_received, established, reset, Reason, TcpStateMachine, has,
  same_phase, set_phase, mark_syn, mark_fin, add_syn, add_ack, add_fin, add_unreset, add, flag_rst,
  flag_syn, flag_ack, flag_fin,
}

-- The state that a log of transitions ends in.
abbrev pub last_of : TcpState → List (TcpState × Reason) → TcpState
last_of s [] = s
last_of s ((t, r) ∷ ts) = last_of t ts

-- Each entry of the log differs from the one before it.
abbrev pub Changes : TcpState → List (TcpState × Reason) → Type 0
Changes s [] = Unit
Changes s ((t, r) ∷ ts) = (same_phase t s ≡ false) × Changes t ts

last_of-append :
    (s t : TcpState) (r : Reason) (ts : List (TcpState × Reason))
    → last_of s (ts ++ (t, r) ∷ []) ≡ t
last_of-append s t r [] = refl
last_of-append s t r ((u, q) ∷ ts) = last_of-append u t r ts

Changes-append :
    (s t : TcpState) (r : Reason) (ts : List (TcpState × Reason))
    → Changes s ts
    → same_phase t (last_of s ts) ≡ false
    → Changes s (ts ++ (t, r) ∷ [])
Changes-append s t r [] h k = (k, tt)
Changes-append s t r ((u, q) ∷ ts) h k = (h.0, Changes-append u t r ts h.1 k)

same_phase-eq : (a b : TcpState) → same_phase a b ≡ true → a ≡ b
unfolding same_phase
same_phase-eq a b h = ground arith

-- The parts of `IsSound` that hold between the assignments of a call.
pub record Logs (m : TcpStateMachine) : Type 0 where
  pub logged : last_of idle m.transitions ≡ m.phase
  pub changes : Changes idle m.transitions

set_phase-Logs : (m : TcpStateMachine) (s : TcpState) (r : Reason) → Logs m → Logs (set_phase m s r)
unfolding set_phase
set_phase-Logs m s r h = elim (Bool-cases (same_phase s m.phase)) [
  | inl e ↦ rw e h
  | inr e ↦ rw e (record {
    logged = last_of-append idle s r m.transitions;
    changes = Changes-append idle s r m.transitions h.changes (rw h.logged e);
  })
]

pub phase-set_phase :
    (m : TcpStateMachine) (s : TcpState) (r : Reason) → (set_phase m s r).phase ≡ s
unfolding set_phase
phase-set_phase m s r = ground (arith, same_phase-eq s m.phase)

if-Logs : (b : Bool) (m n : TcpStateMachine) → Logs m → Logs n → Logs (if b then m else n)
if-Logs true m n h k = h
if-Logs false m n h k = k

-- The flags of the seen SYNs and FINs are no part of the log.
same-Logs :
    (m n : TcpStateMachine) → m.phase ≡ n.phase → m.transitions ≡ n.transitions → Logs m → Logs n
same-Logs m n e f h = record { logged = rw (← f) (h.logged ∙ e); changes = rw (← f) h.changes }

mark_syn-Logs : (m : TcpStateMachine) (b : Bool) → Logs m → Logs (mark_syn m b)
mark_syn-Logs m true h = same-Logs m _ refl refl h
mark_syn-Logs m false h = same-Logs m _ refl refl h

mark_fin-Logs : (m : TcpStateMachine) (b : Bool) → Logs m → Logs (mark_fin m b)
mark_fin-Logs m true h = same-Logs m _ refl refl h
mark_fin-Logs m false h = same-Logs m _ refl refl h

-- The three ways to end a call, whatever the tests.
choose-Logs :
    (m : TcpStateMachine) (both from : Bool) (s t u : TcpState) (p q r : Reason)
    → Logs m
    → Logs (if both then set_phase m s p else if from then set_phase m t q else set_phase m u r)
choose-Logs m both from s t u p q r h = if-Logs both (set_phase m s p) _ (set_phase-Logs m s p h) (
    if-Logs from (set_phase m t q) (set_phase m u r) (set_phase-Logs m t q h)
      (set_phase-Logs m u r h))

add_syn-Logs : (m : TcpStateMachine) (b : Bool) → Logs m → Logs (add_syn m b)
unfolding add_syn
add_syn-Logs m b h = choose-Logs (mark_syn m b) _ b _ _ _ _ _ _ (mark_syn-Logs m b h)

add_fin-Logs : (m : TcpStateMachine) (b : Bool) → Logs m → Logs (add_fin m b)
unfolding add_fin
add_fin-Logs m b h = choose-Logs (mark_fin m b) _ b _ _ _ _ _ _ (mark_fin-Logs m b h)

add_ack-Logs : (m : TcpStateMachine) → Logs m → Logs (add_ack m)
unfolding add_ack
add_ack-Logs m h =
    if-Logs (same_phase m.phase syn_received) _ _ (set_phase-Logs m established Reason.ack h)
      (if-Logs (same_phase m.phase syn_sent) _ _ (set_phase-Logs m established Reason.ack h) h)

pub add-Logs : (m : TcpStateMachine) (flags : ℕ) (b : Bool) → Logs m → Logs (add m flags b)
unfolding add add_unreset
add-Logs m flags b h =
    let opened =
      if-Logs (has flags flag_syn) (add_syn m b) _ (add_syn-Logs m b h)
        (if-Logs (has flags flag_ack) (add_ack m) m (add_ack-Logs m h) h) in
    if-Logs (has flags flag_rst) (set_phase m reset Reason.rst) _
      (set_phase-Logs m reset Reason.rst h)
      (if-Logs (has flags flag_fin) _ _ (add_fin-Logs _ b opened) opened)
