-- ===== src/Replay/Selection.antt =====
-- netreplay/core/replay/selection.py: which packets are replayed. Times are microseconds; a set is a list.
use net_replay.Common.{
  arith, ℕ, ◌≡◌, refl, Bool, true, false, ◌&&◌, Option, none, some, List, [], ◌∷◌, ltb, ◌==◌,
  if◌then◌else◌,
}

-- The columns of `PacketRow` that a selection reads.
pub record PacketRow : Type 0 where
  pub id : ℕ
  pub flow_id : Option ℕ
  pub ts : ℕ

pub record ReplaySelection : Type 0 where
  pub packet_ids : Option (List ℕ)
  pub flow_ids : Option (List ℕ)
  pub start_ts : Option ℕ
  pub end_ts : Option ℕ

-- `frozenset(ids) if ids else None`
unfoldable pub set_of : Option (List ℕ) → Option (List ℕ)
set_of none = none
set_of (some []) = none
set_of (some (x ∷ xs)) = some (x ∷ xs)

unfoldable pub ends_early : Option ℕ → Option ℕ → Bool
ends_early (some s) (some e) = ltb e s
ends_early _ _ = false

-- `none` is the ValueError.
unfoldable pub from_values :
    Option (List ℕ) → Option (List ℕ) → Option ℕ → Option ℕ → Option ReplaySelection
from_values packet_ids flow_ids start_ts end_ts =
    if ends_early start_ts end_ts
    then none
    else (some (record {
      packet_ids = set_of packet_ids;
      flow_ids = set_of flow_ids;
      start_ts = start_ts;
      end_ts = end_ts;
    }))

abbrev pub contains : List ℕ → ℕ → Bool
contains [] n = false
contains (x ∷ xs) n = if x == n then true else contains xs n

-- `row.flow_id in flow_ids`
abbrev pub contains_flow : List ℕ → Option ℕ → Bool
contains_flow xs none = false
contains_flow xs (some n) = contains xs n

unfoldable pub keeps_packet : Option (List ℕ) → PacketRow → Bool
keeps_packet none row = true
keeps_packet (some ids) row = contains ids row.id

unfoldable pub keeps_flow : Option (List ℕ) → PacketRow → Bool
keeps_flow none row = true
keeps_flow (some ids) row = contains_flow ids row.flow_id

unfoldable pub keeps_start : Option ℕ → PacketRow → Bool
keeps_start none row = true
keeps_start (some t) row = if ltb row.ts t then false else true

unfoldable pub keeps_end : Option ℕ → PacketRow → Bool
keeps_end none row = true
keeps_end (some t) row = if ltb t row.ts then false else true

unfoldable pub matches : ReplaySelection → PacketRow → Bool
matches s row =
    if keeps_packet s.packet_ids row
    then (if keeps_flow s.flow_ids row
        then (if keeps_start s.start_ts row then keeps_end s.end_ts row else false)
        else false)
    else false

unfoldable pub select : ReplaySelection → List PacketRow → List PacketRow
select s [] = []
select s (row ∷ rows) = let rest = select s rows in if matches s row then row ∷ rest else rest

abbrev pub unrestricted : ReplaySelection
unrestricted = record { packet_ids = none; flow_ids = none; start_ts = none; end_ts = none }

unfoldable pub is_none : {A : Type 0} → Option A → Bool
is_none none = true
is_none (some a) = false

unfoldable pub is_unrestricted : ReplaySelection → Bool
is_unrestricted s =
    is_none s.packet_ids && is_none s.flow_ids && is_none s.start_ts && is_none s.end_ts

pick : Bool → PacketRow → List PacketRow → List PacketRow
pick true row rest = row ∷ rest
pick false row rest = rest

-- The dimensions of a selection combine with AND: selecting by all of them gives the rows, in order, that
-- are left by selecting by the time range, then by the flows and then by the packet ids, each alone.
pub select_dimensions :
    (s : ReplaySelection) (rows : List PacketRow)
    → select s rows
      ≡ select
          (record unrestricted { packet_ids = s.packet_ids })
          (select
            (record unrestricted { flow_ids = s.flow_ids })
            (select (record unrestricted { start_ts = s.start_ts; end_ts = s.end_ts }) rows))
unfolding select matches keeps_packet keeps_flow keeps_start keeps_end
select_dimensions s [] = refl
select_dimensions s (row ∷ rows) = ground (arith, select_dimensions s rows)
