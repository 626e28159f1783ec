-- ===== src/Proxy/Tests.antt =====
-- The theorem on the bridge at a concrete input.
use net_replay.Common.{false, none, some, List, [], ◌∷◌, Option, ltb, length}
use net_replay.Replay.Bytes.{Bytes}
use net_replay.Proxy.Bridge.{left, new_status, drain_queue, IsAccounted, drain_queue-IsAccounted}

abbrev queue : List (Option Bytes)
queue = some (1 ∷ 2 ∷ []) ∷ some (1 ∷ 2 ∷ 3 ∷ []) ∷ some [] ∷ none ∷ []

-- The sender takes frames shorter than three bytes; the flag is set before the third.
drain_queue-IsAccounted_example :
    IsAccounted
      (λ raw. ltb (length raw) 3)
      queue
      new_status
      (drain_queue (λ raw. ltb (length raw) 3) false left queue 2 new_status)
drain_queue-IsAccounted_example =
    drain_queue-IsAccounted (λ raw. ltb (length raw) 3) false left queue 2 new_status
