-- ===== src/Flows/TcpState/Reachable.antt =====
-- netreplay/core/flows/models.py: what the state machine can reach from a new one.
use net_replay.Common.{
  ℕ, Bool, true, false, ◌&&◌, ◌≡◌, refl, sym, ◌∙◌, List, [], ◌∷◌, arith, if◌then◌else◌,
}
use net_replay.Flows.TcpState.{
  TcpState, idle, syn_sent, syn_received, established, fin_wait, close_wait, closing, time_wait,
  closed, reset, Reason, TcpStateMachine, new_machine, has, same_phase, set_phase, mark_syn,
  mark_fin, add_syn, add_ack, add_fin, add_unreset, add, flag_rst, flag_syn, flag_ack, flag_fin,
}
use net_replay.Flows.TcpState.History.{adds, fin_from, adds-new_machine-fins}
use net_replay.Flows.TcpState.Logs.{last_of, Changes, Logs, add-Logs, phase-set_phase}

abbrev both_fins : TcpStateMachine → Bool
both_fins m = m.client_fin && m.server_fin

-- What a history of segments leaves.
pub record IsSound (segments : List (ℕ × Bool)) (m : TcpStateMachine) : Type 0 where
  pub logged : last_of idle m.transitions ≡ m.phase
  pub changes : Changes idle m.transitions
  pub never_closing : same_phase m.phase closing ≡ false
  pub never_time_wait : same_phase m.phase time_wait ≡ false
  pub client_fins : m.client_fin ≡ fin_from false segments
  pub server_fins : m.server_fin ≡ fin_from true segments
  pub closed_by_both :
      m.phase ≡ closed → (fin_from false segments ≡ true) × (fin_from true segments ≡ true)

-- A phase that the machine may be in: not CLOSING, not TIME_WAIT, and CLOSED only after both FINs.
abbrev IsAllowed : Bool → TcpState → Type 0
IsAllowed fins s =
    (same_phase s closing ≡ false)
    × (same_phase s time_wait ≡ false)
    × (same_phase s closed ≡ true → fins ≡ true)

IsAllowed-open :
    (fins : Bool)
    → IsAllowed fins syn_sent
      × IsAllowed fins syn_received
      × IsAllowed fins established
      × IsAllowed fins reset
unfolding same_phase
IsAllowed-open fins =
    ((refl, refl, λ h. cc), (refl, refl, λ h. cc), (refl, refl, λ h. cc), (refl, refl, λ h. cc))

IsAllowed-idle : (fins : Bool) → IsAllowed fins idle
unfolding same_phase
IsAllowed-idle fins = (refl, refl, λ h. cc)

IsAllowed-half : (fins : Bool) → IsAllowed fins fin_wait × IsAllowed fins close_wait
unfolding same_phase
IsAllowed-half fins = ((refl, refl, λ h. cc), (refl, refl, λ h. cc))

abbrev IsPlaced : TcpStateMachine → Type 0
IsPlaced m = IsAllowed (both_fins m) m.phase

fins-set_phase :
    (m : TcpStateMachine) (s : TcpState) (r : Reason) → both_fins (set_phase m s r) ≡ both_fins m
unfolding set_phase
fins-set_phase m s r = ground arith

set_phase-IsPlaced :
    (m : TcpStateMachine) (s : TcpState) (r : Reason)
    → IsAllowed (both_fins m) s
    → IsPlaced (set_phase m s r)
set_phase-IsPlaced m s r h = rw (phase-set_phase, fins-set_phase) h

if-IsPlaced :
    (b : Bool) (m n : TcpStateMachine) → IsPlaced m → IsPlaced n → IsPlaced (if b then m else n)
if-IsPlaced true m n h k = h
if-IsPlaced false m n h k = k

choose-IsPlaced :
    (m : TcpStateMachine) (both from : Bool) (s t u : TcpState) (p q r : Reason)
    → (both ≡ true → IsAllowed (both_fins m) s)
    → IsAllowed (both_fins m) t
    → IsAllowed (both_fins m) u
    → IsPlaced (if both then set_phase m s p else if from then set_phase m t q else set_phase m u r)
choose-IsPlaced m true from s t u p q r h k l = set_phase-IsPlaced m s p (h refl)
choose-IsPlaced m false from s t u p q r h k l =
    if-IsPlaced from (set_phase m t q) (set_phase m u r) (set_phase-IsPlaced m t q k)
      (set_phase-IsPlaced m u r l)

add_syn-IsPlaced : (m : TcpStateMachine) (b : Bool) → IsPlaced (add_syn m b)
unfolding add_syn
add_syn-IsPlaced m b =
    let o = IsAllowed-open (both_fins (mark_syn m b)) in
    choose-IsPlaced (mark_syn m b) _ b _ _ _ _ _ _ (λ _. o.1) o.1 o.0

add_ack-IsPlaced : (m : TcpStateMachine) → IsPlaced m → IsPlaced (add_ack m)
unfolding add_ack
add_ack-IsPlaced m h =
    let e = set_phase-IsPlaced m established Reason.ack (IsAllowed-open (both_fins m)).2 in
    if-IsPlaced (same_phase m.phase syn_received) _ _ e
      (if-IsPlaced (same_phase m.phase syn_sent) _ _ e h)

add_fin-IsPlaced : (m : TcpStateMachine) (b : Bool) → IsPlaced (add_fin m b)
unfolding add_fin same_phase
add_fin-IsPlaced m b =
    let o = IsAllowed-half (both_fins (mark_fin m b)) in
    choose-IsPlaced (mark_fin m b) _ b _ _ _ _ _ _ (λ both. (refl, refl, λ h. both)) o.1 o.0

add-IsPlaced : (m : TcpStateMachine) (flags : ℕ) (b : Bool) → IsPlaced m → IsPlaced (add m flags b)
unfolding add add_unreset
add-IsPlaced m flags b h =
    let opened =
      if-IsPlaced (has flags flag_syn) (add_syn m b) _ (add_syn-IsPlaced m b)
        (if-IsPlaced (has flags flag_ack) (add_ack m) m (add_ack-IsPlaced m h) h) in
    if-IsPlaced (has flags flag_rst) (set_phase m reset Reason.rst) _
      (set_phase-IsPlaced m reset Reason.rst (IsAllowed-open (both_fins m)).3)
      (if-IsPlaced (has flags flag_fin) _ _ (add_fin-IsPlaced _ b) opened)

adds_facts :
    (m : TcpStateMachine) (segments : List (ℕ × Bool))
    → Logs m
    → IsPlaced m
    → Logs (adds m segments) × IsPlaced (adds m segments)
unfolding adds
adds_facts m [] h k = (h, k)
adds_facts m ((flags, from) ∷ rest) h k =
    adds_facts (add m flags from) rest (add-Logs m flags from h) (add-IsPlaced m flags from k)

same_phase_self : (a : TcpState) → same_phase a a ≡ true
unfolding same_phase
same_phase_self a = ground arith

split_and : (a b : Bool) → a && b ≡ true → (a ≡ true) × (b ≡ true)
split_and true b h = (refl, h)
split_and false b h = cc

-- Whatever flags a new machine is fed, from whichever side: the log of transitions ends in the present phase and
-- records only changes, the phase is never CLOSING or TIME_WAIT, each side's FIN flag is set exactly when the history has
-- a segment of that side with FIN and without RST, and the phase is CLOSED only if it has such a segment of each side.
pub adds-IsSound : (segments : List (ℕ × Bool)) → IsSound segments (adds new_machine segments)
adds-IsSound segments =
    let (l, p) =
      adds_facts new_machine segments (record { logged = refl; changes = tt })
        (IsAllowed-idle false) in
    let (c, s) = adds-new_machine-fins segments in
    record {
      logged = l.logged;
      changes = l.changes;
      never_closing = p.0;
      never_time_wait = p.1;
      client_fins = c;
      server_fins = s;
      closed_by_both = λ e.
          let (x, y) =
            split_and (adds new_machine segments).client_fin (adds new_machine segments).server_fin
              (p.2 (rw e (same_phase_self closed))) in
          (sym c ∙ x, sym s ∙ y);
    }
