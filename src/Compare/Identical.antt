-- ===== src/Compare/Identical.antt =====
-- `CaptureComparison.identical` of netreplay/core/compare.py.
use net_replay.Common.{
  ℕ, zero, suc, ◌+◌, ◌-◌, ◌≡◌, ◌↔◌, refl, ap, sym, ◌∙◌, Bool, true, false, Option, none, some, List,
  [], ◌∷◌, ltb, if◌then◌else◌, take, All, arith,
}
use net_replay.Common.Dict.{Dict, lookup, insert, lookup-insert, nat_eq}
use net_replay.Common.Sort.{sort_with, text_leb}
use net_replay.Common.Text.{text_eq, text_eq-eq}
use net_replay.Replay.Bytes.{bytes_eq}
use net_replay.Protocols.Hex.{Text}
use net_replay.Protocols.Split.{pos, negsuc}
use net_replay.Compare.{
  FlowRow, Session, Key, or_zero, pair_eq, keyed, all_keys, deltas_of, compare_flows, event_limit,
  counts_onto, event_counts, EventTypeDelta, delta, event_deltas, by_status, compare_events,
  flows_same, is_zero, events_same, identical, compare_captures,
}
use net_replay.Compare.Flows.{
  IsSame, sort_with-All, all_keys-sound, All-anyhow, both_iff, wrong, flows_same-onto,
}

abbrev SameAt : Dict Key FlowRow → Dict Key FlowRow → Key → Type 0
SameAt before after k = IsSame (lookup k before) (lookup k after)

flows_same-deltas :
    (before after : Dict Key FlowRow) (ks : List Key)
    → (flows_same (deltas_of before after ks) ≡ true) ↔ All (SameAt before after) ks
unfolding deltas_of flows_same by_status
flows_same-deltas before after [] = (λ h. tt, λ h. refl)
flows_same-deltas before after (k ∷ ks) =
    let i = flows_same-onto k (lookup k before) (lookup k after) (deltas_of before after ks) in
    let ih = flows_same-deltas before after ks in
    (λ h. ((i.0 h).0, ih.0 (i.0 h).1), λ h. i.1 (h.0, ih.1 h.1))

absent-IsSame : (o p : Option FlowRow) → o ≡ none → p ≡ none → IsSame o p
absent-IsSame none none h k = tt
absent-IsSame none (some p) h k = cc
absent-IsSame (some o) p h k = cc

-- The keys of both captures, sorted, are all the keys there are.
flows_same-everywhere :
    (at_most : Key → Key → Bool) (a b : Session)
    → (flows_same (compare_flows at_most a b) ≡ true)
      ↔ ((k : Key) → SameAt (keyed a.flows) (keyed b.flows) k)
unfolding compare_flows
flows_same-everywhere at_most a b =
    let before = keyed a.flows in
    let after = keyed b.flows in
    let ks = all_keys before after in
    let i = flows_same-deltas before after (sort_with at_most ks) in
    let s = sort_with-All at_most (SameAt before after) ks in
    (
      λ h.
          all_keys-sound (SameAt before after) before after (s.0 (i.0 h))
            (λ k x y. absent-IsSame (lookup k before) (lookup k after) x y),
      λ h. i.1 (s.1 (All-anyhow (SameAt before after) ks h)),
    )

-- How often a type occurs.
abbrev pub occurrences : Text → List Text → ℕ
occurrences t [] = 0
occurrences t (u ∷ us) = let rest = occurrences t us in if text_eq u t then suc rest else rest

count_one :
    (b : Bool) (o : Option ℕ) (n m : ℕ)
    → (b ≡ true → n ≡ or_zero o)
    → or_zero (if b then some (n + 1) else o) + m ≡ or_zero o + (if b then suc m else m)
count_one true o n m h = omega (arith, h refl)
count_one false o n m h = refl

counts_onto-occurrences :
    (t : Text) (d : Dict Text ℕ) (ts : List Text)
    → or_zero (lookup t (counts_onto d ts)) ≡ or_zero (lookup t d) + occurrences t ts
unfolding counts_onto
counts_onto-occurrences t d [] = omega arith
counts_onto-occurrences t d (u ∷ us) =
    let n = or_zero (lookup u d) in
    counts_onto-occurrences t (insert u (n + 1) d) us
    ∙ ap (λ o. or_zero o + occurrences t us) (lookup-insert u t (n + 1) d)
    ∙ count_one (text_eq u t) (lookup t d) n (occurrences t us)
        (λ x. ap (λ w. or_zero (lookup w d)) (text_eq-eq u t x))

is_zero_pos : (m : ℕ) → (is_zero (pos m) ≡ true) ↔ (m ≡ 0)
is_zero_pos zero = (λ h. refl, λ h. refl)
is_zero_pos (suc m) = (λ h. cc, λ h. absurd (omega arith))

is_zero_iff :
    (b : Bool) (n m : ℕ)
    → (is_zero (if b then negsuc n else pos m) ≡ true) ↔ ((b ≡ false) × (m ≡ 0))
is_zero_iff true n m = (λ h. absurd (wrong h), λ h. absurd (wrong (sym h.0)))
is_zero_iff false n m = (λ h. (refl, (is_zero_pos m).0 h), λ h. (is_zero_pos m).1 h.1)

zero_delta : (d : EventTypeDelta) → (is_zero (delta d) ≡ true) ↔ (d.before ≡ d.after)
zero_delta d =
    let i = is_zero_iff (ltb d.after d.before) (d.before - d.after - 1) (d.after - d.before) in
    (λ h. let (x, y) = i.0 h in ground arith, λ h. i.1 (ground arith, omega arith))

SameCount : Dict Text ℕ → Dict Text ℕ → Text → Type 0
SameCount before after t = or_zero (lookup t before) ≡ or_zero (lookup t after)

events_same-deltas :
    (before after : Dict Text ℕ) (ts : List Text)
    → (events_same (event_deltas before after ts) ≡ true) ↔ All (SameCount before after) ts
unfolding event_deltas events_same SameCount
events_same-deltas before after [] = (λ h. tt, λ h. refl)
events_same-deltas before after (t ∷ ts) =
    let d : EventTypeDelta = record {
      event_type = t;
      before = or_zero (lookup t before);
      after = or_zero (lookup t after);
    } in
    let i = both_iff (is_zero (delta d)) (events_same (event_deltas before after ts)) in
    let z = zero_delta d in
    let ih = events_same-deltas before after ts in
    (λ h. (z.0 (i.0 h).0, ih.0 (i.0 h).1), λ h. i.1 (z.1 h.0, ih.1 h.1))

no_counts : (o p : Option ℕ) → o ≡ none → p ≡ none → or_zero o ≡ or_zero p
no_counts o p h k = ap or_zero (h ∙ sym k)

events_same-everywhere :
    (a b : Session)
    → (events_same (compare_events a b) ≡ true)
      ↔ ((t : Text) → SameCount (event_counts a) (event_counts b) t)
unfolding compare_events SameCount
events_same-everywhere a b =
    let before = event_counts a in
    let after = event_counts b in
    let ts = all_keys before after in
    let i = events_same-deltas before after (sort_with text_leb ts) in
    let s = sort_with-All text_leb (SameCount before after) ts in
    (
      λ h.
          all_keys-sound (SameCount before after) before after (s.0 (i.0 h))
            (λ k x y. no_counts (lookup k before) (lookup k after) x y),
      λ h. i.1 (s.1 (All-anyhow (SameCount before after) ts h)),
    )

zero_more : (n : ℕ) → 0 + n ≡ n
zero_more n = omega arith

-- A count of the dictionary is how often the type occurs among the events that are read.
event_counts-occurrences :
    (a : Session) (t : Text)
    → or_zero (lookup t (event_counts a)) ≡ occurrences t (take event_limit a.events)
unfolding lookup
event_counts-occurrences a t =
    counts_onto-occurrences t [] (take event_limit a.events)
    ∙ zero_more (occurrences t (take event_limit a.events))

-- Whatever the order of the keys, two captures are identical exactly when each flow key has rows with the same packets,
-- bytes and state in both, or is in neither, and each event type occurs equally often among the first 1000000 events of both.
pub identical-compare_captures :
    (at_most : Key → Key → Bool) (a b : Session)
    → (identical (compare_captures at_most a b) ≡ true) ↔ (
        ((k : Key) → IsSame (lookup k (keyed a.flows)) (lookup k (keyed b.flows)))
        × ((t : Text)
            → occurrences t (take event_limit a.events)
              ≡ occurrences t (take event_limit b.events)))
unfolding identical compare_captures SameCount
identical-compare_captures at_most a b =
    let i = both_iff (flows_same (compare_flows at_most a b)) (events_same (compare_events a b)) in
    let f = flows_same-everywhere at_most a b in
    let e = events_same-everywhere a b in
    let m = event_counts-occurrences a in
    let n = event_counts-occurrences b in
    (
      λ h. (f.0 (i.0 h).0, λ t. sym (m t) ∙ e.0 (i.0 h).1 t ∙ n t),
      λ (x, y). i.1 (f.1 x, e.1 (λ t. m t ∙ y t ∙ sym (n t))),
    )
