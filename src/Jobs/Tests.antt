-- ===== src/Jobs/Tests.antt =====
-- The theorems on jobs at concrete inputs.
use net_replay.Common.{[], ◌∷◌}
use net_replay.Jobs.{raised, System, Reach, here, submitted}
use net_replay.Jobs.Consistency.{IsConsistent}
use net_replay.Jobs.Runs.{Reach-IsConsistent, IsStuck, IsLost, cancel-IsStuck, cancel-IsLost}
use net_replay.Jobs.Registry.{JobManager, new_manager, submit}

Reach-IsConsistent_example : IsConsistent (submitted (1 ∷ []) [] (7 ∷ []) 3)
Reach-IsConsistent_example = Reach-IsConsistent (1 ∷ []) [] (7 ∷ []) 3 here

cancel-IsStuck_example :
    (s : System) × Reach (submitted (1 ∷ []) [] (7 ∷ []) 3) s
    × ((t : System) → Reach s t → IsStuck t)
cancel-IsStuck_example = cancel-IsStuck (1 ∷ []) [] (7 ∷ []) 3 4

cancel-IsLost_example : IsLost (submitted (1 ∷ []) [] (7 ∷ []) 3) (raised (8 ∷ []))
cancel-IsLost_example = cancel-IsLost (1 ∷ []) [] (7 ∷ []) 3 4 (raised (8 ∷ []))

abbrev two_jobs : JobManager
two_jobs = submit (1 ∷ []) [] (7 ∷ []) 3 (submit (1 ∷ []) [] (8 ∷ []) 2 new_manager)
