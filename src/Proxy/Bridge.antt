-- ===== src/Proxy/Bridge.antt =====
-- netreplay/core/proxy/bridge.py: how `BridgeService` forwards the frames of a sniffer's queue. `send` is the
-- sender, which succeeds or raises; the stop flag is found unset a given number of times and is then set. A queue is
-- what the sniffer has put there, `none` its sentinel. The threads, the clock and the progress callback are not modelled.
use net_replay.Common.{
  ℕ, zero, suc, ◌+◌, ◌≡◌, refl, Bool, true, false, not, ◌&&◌, Option, none, some, List, [], ◌∷◌,
  ◌++◌, arith, length, sum_of, if◌then◌else◌, Bool-cases, inl, inr, ap,
}
use net_replay.Replay.Bytes.{Bytes}

pub data Side : Type 0 where
  left right : Side

pub record BridgeStatus : Type 0 where
  pub left_forwarded : ℕ
  pub right_forwarded : ℕ
  pub left_bytes : ℕ
  pub right_bytes : ℕ
  pub errors : ℕ
  pub stopped : Bool
  pub error : Bool

abbrev pub new_status : BridgeStatus
new_status = record {
  left_forwarded = 0;
  right_forwarded = 0;
  left_bytes = 0;
  right_bytes = 0;
  errors = 0;
  stopped = false;
  error = false;
}

unfoldable pub total_forwarded : BridgeStatus → ℕ
total_forwarded st = st.left_forwarded + st.right_forwarded

unfoldable pub total_bytes : BridgeStatus → ℕ
total_bytes st = st.left_bytes + st.right_bytes

unfoldable pub running : BridgeStatus → Bool
running st = not st.stopped && not st.error

-- The two `setattr` of `_drain_queue`.
unfoldable pub count_frame : Side → Bytes → BridgeStatus → BridgeStatus
count_frame left raw st = record st {
  left_forwarded = st.left_forwarded + 1;
  left_bytes = st.left_bytes + length raw;
}
count_frame right raw st = record st {
  right_forwarded = st.right_forwarded + 1;
  right_bytes = st.right_bytes + length raw;
}

-- What `_drain_queue` leaves: its result, what it raised, the status, the frames that the sender took, in order,
-- the rest of the queue, and how often the flag will still be found unset.
pub record Drained : Type 0 where
  pub forwarded : Bool
  pub done : Bool
  pub raised : Bool
  pub status : BridgeStatus
  pub sent : List Bytes
  pub queue : List (Option Bytes)
  pub unset : ℕ

abbrev pub after_sent : Bytes → Drained → Drained
after_sent raw d = record d { forwarded = true; sent = raw ∷ d.sent }

module _ (send : Bytes → Bool) where
  -- The `while` of `_drain_queue`; `failed` is that the sniffer has an error.
  unfoldable pub drain_queue : Bool → Side → List (Option Bytes) → ℕ → BridgeStatus → Drained
  drain_queue failed side queue zero st = record {
    forwarded = false;
    done = false;
    raised = false;
    status = st;
    sent = [];
    queue = queue;
    unset = zero;
  }
  drain_queue failed side [] (suc unset) st = record {
    forwarded = false;
    done = false;
    raised = false;
    status = st;
    sent = [];
    queue = [];
    unset = unset;
  }
  drain_queue failed side (none ∷ queue) (suc unset) st = record {
    forwarded = false;
    done = true;
    raised = failed;
    status = st;
    sent = [];
    queue = queue;
    unset = unset;
  }
  drain_queue failed side (some raw ∷ queue) (suc unset) st =
      let sent = after_sent raw (drain_queue failed side queue unset (count_frame side raw st)) in
      let lost = drain_queue failed side queue unset (record st { errors = st.errors + 1 }) in
      if send raw then sent else lost

  -- The frames of a queue, and those that the sender takes.
  abbrev pub frames : List (Option Bytes) → ℕ
  frames [] = 0
  frames (none ∷ queue) = frames queue
  frames (some raw ∷ queue) = suc (frames queue)

  unfoldable pub taken : List (Option Bytes) → List Bytes
  taken [] = []
  taken (none ∷ queue) = taken queue
  taken (some raw ∷ queue) = let rest = taken queue in if send raw then raw ∷ rest else rest

  pub record IsAccounted (queue : List (Option Bytes)) (st : BridgeStatus) (d : Drained)
      : Type 0 where
    pub counts :
        total_forwarded d.status + d.status.errors + frames d.queue
        ≡ total_forwarded st + st.errors + frames queue
    pub sizes : total_bytes d.status ≡ total_bytes st + sum_of (λ raw. length raw) d.sent
    pub orders : d.sent ++ taken d.queue ≡ taken queue

  count_frame-totals :
      (side : Side) (raw : Bytes) (st : BridgeStatus)
      → (total_forwarded (count_frame side raw st) ≡ total_forwarded st + 1)
        × (total_bytes (count_frame side raw st) ≡ total_bytes st + length raw)
        × ((count_frame side raw st).errors ≡ st.errors)
  unfolding count_frame total_forwarded total_bytes
  count_frame-totals left raw st = (omega arith, omega arith, refl)
  count_frame-totals right raw st = (omega arith, omega arith, refl)

  lost-totals :
      (st : BridgeStatus)
      → (total_forwarded (record st { errors = st.errors + 1 }) ≡ total_forwarded st)
        × (total_bytes (record st { errors = st.errors + 1 }) ≡ total_bytes st)
  unfolding total_forwarded total_bytes
  lost-totals st = (refl, refl)

  -- Whenever the flag stops it and whichever frames the sender refuses, `_drain_queue` accounts for every frame: forwarded,
  -- counted as an error or still queued; the byte counters grow by the sizes of the frames sent; and the frames
  -- sent, with those that the sender would take of the rest, are those that it takes of the queue, in order.
  pub drain_queue-IsAccounted :
      (failed : Bool) (side : Side) (queue : List (Option Bytes)) (unset : ℕ) (st : BridgeStatus)
      → IsAccounted queue st (drain_queue failed side queue unset st)
  unfolding drain_queue taken
  drain_queue-IsAccounted failed side queue zero st = record {
    counts = refl;
    sizes = omega arith;
    orders = refl;
  }
  drain_queue-IsAccounted failed side [] (suc unset) st = record {
    counts = refl;
    sizes = omega arith;
    orders = refl;
  }
  drain_queue-IsAccounted failed side (none ∷ queue) (suc unset) st = record {
    counts = refl;
    sizes = omega arith;
    orders = refl;
  }
  drain_queue-IsAccounted failed side (some raw ∷ queue) (suc unset) st =
      let t = count_frame-totals side raw st in
      let u = lost-totals st in
      let a = drain_queue-IsAccounted failed side queue unset (count_frame side raw st) in
      let b =
        drain_queue-IsAccounted failed side queue unset (record st { errors = st.errors + 1 }) in
      elim (Bool-cases (send raw)) [
        | inl e ↦ rw e (record {
          counts = omega (arith, a.counts, t.0, t.2);
          sizes = omega (arith, a.sizes, t.1);
          orders = rw e (ap (λ x. raw ∷ x) a.orders);
        })
        | inr e ↦ rw e (record {
          counts = omega (arith, b.counts, u.0);
          sizes = omega (arith, b.sizes, u.1);
          orders = rw e b.orders;
        })
      ]
