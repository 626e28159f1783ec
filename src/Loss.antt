-- ===== src/Loss.antt =====
-- netreplay/core/loss.py: the findings of the reassembly as spans of a timeline. Times are microseconds; a row's
-- event type is one of the three that `detect_loss` asks the database for, or another text. The read of the database is not modelled.
use net_replay.Common.{
  ℕ, ◌+◌, ◌-◌, ◌≡◌, refl, Bool, true, false, Option, none, some, List, [], ◌∷◌, ◌++◌, arith, length,
  if◌then◌else◌, leb, ltb, ◌==◌, sum_of, sum_of-append, Bool-cases, inl, inr,
}

pub data EventType : Type 0 where
  stream_gap stream_retransmission stream_overlap : EventType
  other : List ℕ → EventType

pub data Severity : Type 0 where
  gap retransmission overlap : Severity

-- `_SEVERITY.get(event_type, "gap")`
abbrev pub severity_of : EventType → Severity
severity_of stream_retransmission = retransmission
severity_of stream_overlap = overlap
severity_of _ = gap

pub record EventRow : Type 0 where
  pub id : ℕ
  pub flow_id : Option ℕ
  pub ts : ℕ
  pub event_type : EventType
  pub summary : List ℕ

pub record LossMarker : Type 0 where
  pub flow_id : Option ℕ
  pub start_ts : ℕ
  pub end_ts : ℕ
  pub severity : Severity
  pub detail : List ℕ

unfoldable pub duration : LossMarker → ℕ
duration m = m.end_ts - m.start_ts

abbrev pub same_flow : Option ℕ → Option ℕ → Bool
same_flow none none = true
same_flow (some a) (some b) = a == b
same_flow _ _ = false

-- `by_flow.setdefault(row.flow_id, []).append(row)`
unfoldable pub append_row :
    EventRow → List (Option ℕ × List EventRow) → List (Option ℕ × List EventRow)
append_row row [] = (row.flow_id, row ∷ []) ∷ []
append_row row ((flow, rows) ∷ rest) =
    let later = append_row row rest in
    if same_flow flow row.flow_id then (flow, rows ++ row ∷ []) ∷ rest else (flow, rows) ∷ later

unfoldable pub by_flow :
    List (Option ℕ × List EventRow) → List EventRow → List (Option ℕ × List EventRow)
by_flow groups [] = groups
by_flow groups (row ∷ rows) = by_flow (append_row row groups) rows

-- The pair of keys that `sorted` and `sort` compare.
abbrev pub at_most : ℕ × ℕ → ℕ × ℕ → Bool
at_most (a, b) (c, d) = if ltb a c then true else (if a == c then leb b d else false)

module _ {A : Type 0} (key : A → ℕ × ℕ) where
  unfoldable pub insert_pair : A → List A → List A
  insert_pair x [] = x ∷ []
  insert_pair x (y ∷ ys) =
      let later = insert_pair x ys in if at_most (key x) (key y) then x ∷ y ∷ ys else y ∷ later

  unfoldable pub sort_pairs : List A → List A
  sort_pairs [] = []
  sort_pairs (x ∷ xs) = insert_pair x (sort_pairs xs)

  -- A sum over the elements does not see the order.
  module _ (f : A → ℕ) where
    insert_pair-sum : (x : A) (xs : List A) → sum_of f (insert_pair x xs) ≡ f x + sum_of f xs
    unfolding insert_pair
    insert_pair-sum x [] = refl
    insert_pair-sum x (y ∷ ys) = ground (arith, insert_pair-sum x ys)

    sort_pairs-sum : (xs : List A) → sum_of f (sort_pairs xs) ≡ sum_of f xs
    unfolding sort_pairs
    sort_pairs-sum [] = refl
    sort_pairs-sum (x ∷ xs) = omega (arith, insert_pair-sum x (sort_pairs xs), sort_pairs-sum xs)

-- The time of the next finding, or the finding's own.
abbrev pub end_of : EventRow → List EventRow → ℕ
end_of event [] = event.ts
end_of event (later ∷ rest) = later.ts

-- The loop over the sorted events of a flow.
unfoldable pub spans : Option ℕ → List EventRow → List LossMarker
spans flow [] = []
spans flow (event ∷ events) =
    record {
      flow_id = flow;
      start_ts = event.ts;
      end_ts = end_of event events;
      severity = severity_of event.event_type;
      detail = event.summary;
    }
    ∷ spans flow events

unfoldable pub all_spans : List (Option ℕ × List EventRow) → List LossMarker
all_spans [] = []
all_spans ((flow, rows) ∷ rest) = spans flow (sort_pairs (λ r. (r.ts, r.id)) rows) ++ all_spans rest

abbrev pub or_zero : Option ℕ → ℕ
or_zero none = 0
or_zero (some n) = n

unfoldable pub to_markers : List EventRow → List LossMarker
to_markers rows = sort_pairs (λ m. (m.start_ts, or_zero m.flow_id)) (all_spans (by_flow [] rows))

abbrev pub severity_count : Severity → Severity → ℕ
severity_count gap gap = 1
severity_count retransmission retransmission = 1
severity_count overlap overlap = 1
severity_count _ _ = 0

-- `gap_count`, `retransmission_count` and `overlap_count` of a report.
abbrev pub count_of : Severity → List LossMarker → ℕ
count_of s = sum_of (λ m. severity_count s m.severity)

-- The findings of one severity.
abbrev pub findings_of : Severity → List EventRow → ℕ
findings_of s = sum_of (λ r. severity_count s (severity_of r.event_type))

module _ (w : Severity → ℕ) where
  abbrev row_weight : EventRow → ℕ
  row_weight r = w (severity_of r.event_type)

  abbrev group_weight : List (Option ℕ × List EventRow) → ℕ
  group_weight = sum_of (λ g. sum_of row_weight (g.1))

  append_row-weight :
      (row : EventRow) (groups : List (Option ℕ × List EventRow))
      → group_weight (append_row row groups) ≡ group_weight groups + row_weight row
  unfolding append_row
  append_row-weight row [] = omega arith
  append_row-weight row ((flow, rows) ∷ rest) = elim (Bool-cases (same_flow flow row.flow_id)) [
    | inl e ↦ rw e (omega (arith, sum_of-append row_weight rows (row ∷ [])))
    | inr e ↦ rw e (omega (arith, append_row-weight row rest))
  ]

  by_flow-weight :
      (groups : List (Option ℕ × List EventRow)) (rows : List EventRow)
      → group_weight (by_flow groups rows) ≡ group_weight groups + sum_of row_weight rows
  unfolding by_flow
  by_flow-weight groups [] = omega arith
  by_flow-weight groups (row ∷ rows) =
      omega (arith, by_flow-weight (append_row row groups) rows, append_row-weight row groups)

  spans-weight :
      (flow : Option ℕ) (rows : List EventRow)
      → sum_of (λ m. w m.severity) (spans flow rows) ≡ sum_of row_weight rows
  unfolding spans
  spans-weight flow [] = refl
  spans-weight flow (event ∷ events) = omega (arith, spans-weight flow events)

  all_spans-weight :
      (groups : List (Option ℕ × List EventRow))
      → sum_of (λ m. w m.severity) (all_spans groups) ≡ group_weight groups
  unfolding all_spans
  all_spans-weight [] = refl
  all_spans-weight ((flow, rows) ∷ rest) =
      let sorted = sort_pairs (λ r. (r.ts, r.id)) rows in
      omega (
        arith,
        sum_of-append (λ m. w m.severity) (spans flow sorted) (all_spans rest),
        spans-weight flow sorted,
        sort_pairs-sum (λ r. (r.ts, r.id)) row_weight rows,
        all_spans-weight rest,
      )

  to_markers-weight :
      (rows : List EventRow) → sum_of (λ m. w m.severity) (to_markers rows) ≡ sum_of row_weight rows
  unfolding to_markers
  to_markers-weight rows = omega (
    arith,
    sort_pairs-sum (λ m. (m.start_ts, or_zero m.flow_id)) (λ m. w m.severity)
        (all_spans (by_flow [] rows)),
    all_spans-weight (by_flow [] rows),
    by_flow-weight [] rows,
  )

length_is_sum : {A : Type 0} (xs : List A) → length xs ≡ sum_of (λ x. 1) xs
length_is_sum [] = refl
length_is_sum (x ∷ xs) = omega (arith, length_is_sum xs)

-- The report loses no finding and makes none up: there is one marker for each row, whatever the flows and the order
-- of the rows, and for each severity as many markers as rows of that severity.
pub to_markers-counts :
    (rows : List EventRow) (s : Severity)
    → (length (to_markers rows) ≡ length rows) × (count_of s (to_markers rows) ≡ findings_of s rows)
to_markers-counts rows s = (
  omega
      (arith, length_is_sum (to_markers rows), length_is_sum rows, to_markers-weight (λ t. 1) rows),
  to_markers-weight (severity_count s) rows,
)
