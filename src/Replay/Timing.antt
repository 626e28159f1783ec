-- ===== src/Replay/Timing.antt =====
-- netreplay/core/replay/timing.py: how recorded gaps become waits, and the virtual clock. Times are
-- microseconds; `scale` is the float division of `ReplaySpeed.scale`, a parameter. `SystemClock` is not modelled.
use net_replay.Common.{
  ℕ, ◌+◌, ◌-◌, ◌≤◌, ◌≡◌, refl, true, false, Bool, Option, none, some, List, [], ◌∷◌, arith, min,
  ltb, if◌then◌else◌,
}
use net_replay.Common.{All, sum_of, Bool-cases, inl, inr}

pub data ReplayMode : Type 0 where
  story faithful : ReplayMode

pub record GapPolicy : Type 0 where
  pub max_gap : Option ℕ
  pub preserve_exact : Bool

abbrev pub capped : Option ℕ → ℕ → ℕ
capped none gap = gap
capped (some m) gap = min gap m

-- `GapPolicy.apply` of the gap from one time to the next.
unfoldable pub apply : GapPolicy → ℕ → ℕ
apply policy gap = if policy.preserve_exact then gap else capped policy.max_gap gap

abbrev pub default_max_gap : ℕ
default_max_gap = 5000000

unfoldable pub gap_policy : ReplayMode → ℕ → GapPolicy
gap_policy faithful max_gap = record { max_gap = none; preserve_exact = true }
gap_policy story max_gap = record { max_gap = some max_gap; preserve_exact = false }

pub record VirtualClock : Type 0 where
  pub now : ℕ
  pub slept : ℕ

unfoldable pub sleep : VirtualClock → ℕ → VirtualClock
sleep c wait = if ltb 0 wait then record { now = c.now + wait; slept = c.slept + wait } else c

-- The loop of `play`.
unfoldable pub sleep_all : VirtualClock → List ℕ → VirtualClock
sleep_all c [] = c
sleep_all c (w ∷ ws) = sleep_all (if ltb 0 w then sleep c w else c) ws

module _ (scale : ℕ → ℕ) where
  -- The wait before a packet, from the time of the one before it.
  unfoldable pub wait_for : GapPolicy → Option ℕ → ℕ → ℕ
  wait_for policy none ts = 0
  wait_for policy (some previous) ts = scale (apply policy (ts - previous))

  unfoldable pub waits : GapPolicy → Option ℕ → List ℕ → List ℕ
  waits policy previous [] = []
  waits policy previous (ts ∷ rest) = wait_for policy previous ts ∷ waits policy (some ts) rest

  unfoldable pub build_schedule : ReplayMode → List ℕ → List ℕ
  build_schedule mode timestamps = waits (gap_policy mode default_max_gap) none timestamps

  unfoldable pub play : ReplayMode → List ℕ → VirtualClock → List ℕ × VirtualClock
  play mode timestamps clock =
      let schedule = build_schedule mode timestamps in (schedule, sleep_all clock schedule)

-- The last of a list of times, and that they never decrease, from the one before them.
abbrev pub last_or : ℕ → List ℕ → ℕ
last_or t [] = t
last_or t (u ∷ us) = last_or u us

abbrev pub IsSorted : ℕ → List ℕ → Type 0
IsSorted t [] = Unit
IsSorted t (u ∷ us) = (t ≤ u) × IsSorted u us

sleep_wait :
    (c : VirtualClock) (w : ℕ)
    → ((if ltb 0 w then sleep c w else c).now ≡ c.now + w)
      × ((if ltb 0 w then sleep c w else c).slept ≡ c.slept + w)
unfolding sleep
sleep_wait c w = elim (Bool-cases (ltb 0 w)) [
  | inl e ↦ rw e (refl, refl)
  | inr e ↦ rw e (ground arith, ground arith)
]

sleep_all-sum :
    (c : VirtualClock) (ws : List ℕ)
    → ((sleep_all c ws).now ≡ c.now + sum_of (λ w. w) ws)
      × ((sleep_all c ws).slept ≡ c.slept + sum_of (λ w. w) ws)
unfolding sleep_all
sleep_all-sum c [] = (omega arith, omega arith)
sleep_all-sum c (w ∷ ws) =
    let k = sleep_wait c w in
    let r = sleep_all-sum (if ltb 0 w then sleep c w else c) ws in
    (omega (arith, k.0, r.0), omega (arith, k.1, r.1))

waits-sum :
    (scale : ℕ → ℕ)
    → ((t : ℕ) → scale t ≡ t)
    → (t : ℕ) (ts : List ℕ) → IsSorted t ts
    → t + sum_of (λ w. w) (waits scale (gap_policy faithful default_max_gap) (some t) ts)
      ≡ last_or t ts
unfolding waits wait_for apply gap_policy
waits-sum scale one t [] h = omega arith
waits-sum scale one t (u ∷ us) h = omega (arith, one (u - t), waits-sum scale one u us h.1, h.0)

-- Replayed faithfully at a speed that does not scale, a recording whose times never decrease takes as long as it took: after
-- `play` the virtual clock has advanced, and slept, by the last time less the first.
pub play-faithful :
    (scale : ℕ → ℕ)
    → ((t : ℕ) → scale t ≡ t)
    → (t : ℕ) (ts : List ℕ) (c : VirtualClock) → IsSorted t ts
    → let after = (play scale faithful (t ∷ ts) c).1 in
      (t + after.now ≡ c.now + last_or t ts) × (t + after.slept ≡ c.slept + last_or t ts)
unfolding play build_schedule waits wait_for
play-faithful scale one t ts c h =
    let r = sleep_all-sum c (0 ∷ waits scale (gap_policy faithful default_max_gap) (some t) ts) in
    let s = waits-sum scale one t ts h in (omega (arith, r.0, s), omega (arith, r.1, s))

waits-capped :
    (scale : ℕ → ℕ)
    → ((a b : ℕ) → a ≤ b → scale a ≤ scale b)
    → (t : ℕ) (ts : List ℕ)
    → All
        (λ w. w ≤ scale default_max_gap)
        (waits scale (gap_policy story default_max_gap) (some t) ts)
unfolding waits wait_for apply gap_policy
waits-capped scale mono t [] = tt
waits-capped scale mono t (u ∷ us) =
    (mono (min (u - t) default_max_gap) default_max_gap (omega arith), waits-capped scale mono u us)

-- In story mode, for a speed that keeps the order of durations, no wait of the schedule is longer than a gap of five
-- seconds at that speed, and the first packet is not waited for.
pub build_schedule-capped :
    (scale : ℕ → ℕ)
    → ((a b : ℕ) → a ≤ b → scale a ≤ scale b)
    → (t : ℕ) (ts : List ℕ)
    → (ws : List ℕ) × (build_schedule scale story (t ∷ ts) ≡ 0 ∷ ws)
      × All (λ w. w ≤ scale default_max_gap) ws
unfolding build_schedule waits wait_for
build_schedule-capped scale mono t ts =
    (waits scale (gap_policy story default_max_gap) (some t) ts, refl, waits-capped scale mono t ts)
