-- ===== src/Flows/TcpState/History.antt =====
-- netreplay/core/flows/models.py: the state machine fed with a history of segments, and the FINs that it has seen.
use net_replay.Common.{
  ℕ, Bool, true, false, not, ◌&&◌, ◌||◌, ◌≡◌, refl, ◌∙◌, List, [], ◌∷◌, if◌then◌else◌, arith,
}
use net_replay.Flows.TcpState.{
  TcpState, established, reset, Reason, TcpStateMachine, new_machine, has, same_phase, set_phase,
  mark_syn, mark_fin, add_syn, add_ack, add_fin, add_unreset, add, flag_rst, flag_syn, flag_ack,
  flag_fin, syn_received, syn_sent,
}

-- A segment as the tracker feeds it: its flags, and whether it comes from the responder.
unfoldable pub adds : TcpStateMachine → List (ℕ × Bool) → TcpStateMachine
adds m [] = m
adds m ((flags, from) ∷ rest) = adds (add m flags from) rest

-- A segment of the side with the FIN flag and without the RST flag; the responder is the side `true`.
abbrev pub is_fin_of : Bool → ℕ → Bool → Bool
is_fin_of side flags from =
    not (has flags flag_rst) && (has flags flag_fin && (if side then from else not from))

-- There is such a segment in the history.
abbrev pub fin_from : Bool → List (ℕ × Bool) → Bool
fin_from side [] = false
fin_from side ((flags, from) ∷ rest) = is_fin_of side flags from || fin_from side rest

-- The flags of the FINs that were seen.
abbrev Fins : Bool → Bool → TcpStateMachine → Type 0
Fins c s m = (m.client_fin ≡ c) × (m.server_fin ≡ s)

set_phase-Fins :
    (c s : Bool) (m : TcpStateMachine) (p : TcpState) (r : Reason)
    → Fins c s m
    → Fins c s (set_phase m p r)
unfolding set_phase
set_phase-Fins c s m p r h = ground arith

if-Fins :
    (c s b : Bool) (m n : TcpStateMachine) → Fins c s m → Fins c s n → Fins c s (if b then m else n)
if-Fins c s true m n h k = h
if-Fins c s false m n h k = k

choose-Fins :
    (c s : Bool) (m : TcpStateMachine) (both from : Bool) (p q t : TcpState) (x y z : Reason)
    → Fins c s m
    → Fins c s (if both then set_phase m p x else if from then set_phase m q y else set_phase m t z)
choose-Fins c s m both from p q t x y z h =
    if-Fins c s both _ _ (set_phase-Fins c s m p x h)
      (if-Fins c s from _ _ (set_phase-Fins c s m q y h) (set_phase-Fins c s m t z h))

mark_syn-Fins : (c s : Bool) (m : TcpStateMachine) (b : Bool) → Fins c s m → Fins c s (mark_syn m b)
mark_syn-Fins c s m true h = h
mark_syn-Fins c s m false h = h

or_true : (b : Bool) → b || true ≡ true
or_true true = refl
or_true false = refl

or_false : (b : Bool) → b || false ≡ b
or_false true = refl
or_false false = refl

or_assoc : (a b c : Bool) → (a || b) || c ≡ a || (b || c)
or_assoc true b c = refl
or_assoc false b c = refl

-- One FIN marks its own side, and only that one.
mark_fin-Fins :
    (c s : Bool) (m : TcpStateMachine) (b : Bool)
    → Fins c s m
    → Fins (c || not b) (s || b) (mark_fin m b)
mark_fin-Fins c s m true h = (rw (or_false c) h.0, rw (or_true s))
mark_fin-Fins c s m false h = (rw (or_true c), rw (or_false s) h.1)

add_syn-Fins : (c s : Bool) (m : TcpStateMachine) (b : Bool) → Fins c s m → Fins c s (add_syn m b)
unfolding add_syn
add_syn-Fins c s m b h = choose-Fins c s (mark_syn m b) _ b _ _ _ _ _ _ (mark_syn-Fins c s m b h)

add_ack-Fins : (c s : Bool) (m : TcpStateMachine) → Fins c s m → Fins c s (add_ack m)
unfolding add_ack
add_ack-Fins c s m h =
    if-Fins c s (same_phase m.phase syn_received) _ _
      (set_phase-Fins c s m established Reason.ack h)
      (if-Fins c s (same_phase m.phase syn_sent) _ _ (set_phase-Fins c s m established Reason.ack h)
        h)

add_fin-Fins :
    (c s : Bool) (m : TcpStateMachine) (b : Bool)
    → Fins c s m
    → Fins (c || not b) (s || b) (add_fin m b)
unfolding add_fin
add_fin-Fins c s m b h =
    choose-Fins (c || not b) (s || b) (mark_fin m b) _ b _ _ _ _ _ _ (mark_fin-Fins c s m b h)

-- The three ways through `add`: RST, FIN, neither.
by_flags :
    (rst fin from c s : Bool) (a b o : TcpStateMachine)
    → Fins c s a
    → Fins (c || not from) (s || from) b
    → Fins c s o
    → Fins
        (c || (not rst && (fin && not from)))
        (s || (not rst && (fin && from)))
        (if rst then a else if fin then b else o)
by_flags true fin from c s a b o h k l = rw (or_false c, or_false s) h
by_flags false true from c s a b o h k l = k
by_flags false false from c s a b o h k l = rw (or_false c, or_false s) l

add-Fins :
    (c s : Bool) (m : TcpStateMachine) (flags : ℕ) (from : Bool)
    → Fins c s m
    → Fins (c || is_fin_of false flags from) (s || is_fin_of true flags from) (add m flags from)
unfolding add add_unreset
add-Fins c s m flags from h =
    let opened =
      if-Fins c s (has flags flag_syn) (add_syn m from) _ (add_syn-Fins c s m from h)
        (if-Fins c s (has flags flag_ack) (add_ack m) m (add_ack-Fins c s m h) h) in
    by_flags (has flags flag_rst) (has flags flag_fin) from c s _ _ _
      (set_phase-Fins c s m reset Reason.rst h) (add_fin-Fins c s _ from opened) opened

adds-Fins :
    (c s : Bool) (m : TcpStateMachine) (segments : List (ℕ × Bool))
    → Fins c s m
    → Fins (c || fin_from false segments) (s || fin_from true segments) (adds m segments)
unfolding adds
adds-Fins c s m [] h = rw (or_false c, or_false s) h
adds-Fins c s m ((flags, from) ∷ rest) h =
    let (a, b) =
      adds-Fins (c || is_fin_of false flags from) (s || is_fin_of true flags from)
        (add m flags from) rest (add-Fins c s m flags from h) in
    (
      a ∙ or_assoc c (is_fin_of false flags from) (fin_from false rest),
      b ∙ or_assoc s (is_fin_of true flags from) (fin_from true rest),
    )

-- After a history from a new machine, each side's flag says whether that side sent a FIN.
pub adds-new_machine-fins :
    (segments : List (ℕ × Bool))
    → ((adds new_machine segments).client_fin ≡ fin_from false segments)
      × ((adds new_machine segments).server_fin ≡ fin_from true segments)
adds-new_machine-fins segments = adds-Fins false false new_machine segments (refl, refl)
