-- ===== src/Compare/Flows.antt =====
-- netreplay/core/compare.py: the keys of two captures, and the flows that are the same in both.
use mathlib.Core.Path.{subst}
use net_replay.Common.{
  ◌≡◌, ◌↔◌, refl, ap, sym, ◌∙◌, Bool, true, false, not, ◌||◌, ◌&&◌, Option, none, some, List, [],
  ◌∷◌, ◌++◌, if◌then◌else◌, All, arith, Bool-cases, Option-cases, inl, inr,
}
use net_replay.Common.Dict.{Dict, Eq, lookup, nat_eq}
use net_replay.Common.Sort.{sort_with, insert_with}
use net_replay.Replay.Bytes.{bytes_eq, text_eq_iff}
use net_replay.Compare.{
  FlowRow, Key, pair_eq, keys, unless_found, new_keys, all_keys, added, removed, changed, unchanged,
  Status, FlowDelta, differs, delta_onto, by_status, same_status, is_empty, flows_same,
}

-- A property of all the elements does not see the order.
module _ {ℓ} {A : Type ℓ} (at_most : A → A → Bool) (P : A → Type 0) where
  either_All :
      (b : Bool) (xs ys : List A) → All P xs ↔ All P ys → All P (if b then xs else ys) ↔ All P xs
  either_All true xs ys h = (λ k. k, λ k. k)
  either_All false xs ys h = (h.1, h.0)

  insert_with-All : (x : A) (xs : List A) → All P (insert_with at_most x xs) ↔ (P x × All P xs)
  unfolding insert_with
  insert_with-All x [] = (λ k. k, λ k. k)
  insert_with-All x (y ∷ ys) =
      let ih = insert_with-All x ys in
      either_All (at_most x y) (x ∷ y ∷ ys) (y ∷ insert_with at_most x ys)
        (λ (hx, (hy, h)). (hy, ih.1 (hx, h)), λ (hy, h). ((ih.0 h).0, (hy, (ih.0 h).1)))

  pub sort_with-All : (xs : List A) → All P (sort_with at_most xs) ↔ All P xs
  unfolding sort_with
  sort_with-All [] = (λ k. k, λ k. k)
  sort_with-All (x ∷ xs) =
      let i = insert_with-All x (sort_with at_most xs) in
      let ih = sort_with-All xs in (λ h. ((i.0 h).0, ih.0 (i.0 h).1), λ (hx, h). i.1 (hx, ih.1 h))

pub wrong : false ≡ true → ⊥
wrong h = cc

pub no_value : {V : Type 0} → (v : V) → none ≡ some v → ⊥
no_value v h = cc

module _ {K : Type 0} (P : K → Type 0) where
  pub All-anyhow : (ks : List K) → ((k : K) → P k) → All P ks
  All-anyhow [] h = tt
  All-anyhow (k ∷ ks) h = (h k, All-anyhow ks h)

  All-parts : (xs ys : List K) → All P (xs ++ ys) → All P xs × All P ys
  All-parts [] ys h = (tt, h)
  All-parts (x ∷ xs) ys h = let (a, b) = All-parts xs ys h.1 in ((h.0, a), b)

module _ {K : Type 0} ⦃e : Eq K⦄ (P : K → Type 0) where
  same_key : (j k : K) → e.beq j k ≡ true → P j → P k
  same_key j k h p = subst P ((e.beq_iff j k).0 h) p

-- What holds of every key that is found in one of the dictionaries holds of their keys, and the other way.
module _ {K V : Type 0} ⦃e : Eq K⦄ (P : K → Type 0) where
  found_tail :
      (j k : K) (w : V) (d : Dict K V) → e.beq j k ≡ false → lookup k ((j, w) ∷ d) ≡ lookup k d
  unfolding lookup
  found_tail j k w d h = rw h refl

  keys-found : (d : Dict K V) (k : K) (v : V) → All P (keys d) → lookup k d ≡ some v → P k
  unfolding lookup
  keys-found [] k v h l = absurd (no_value v l)
  keys-found ((j, w) ∷ d) k v h l = elim (Bool-cases (e.beq j k)) [
    | inl x ↦ same_key P j k x h.0
    | inr x ↦ keys-found d k v h.1 (sym (found_tail j k w d x) ∙ l)
  ]

  unless_first : (o : Option V) (k : K) (ks : List K) → o ≡ none → All P (unless_found o k ks) → P k
  unless_first none k ks h a = a.0
  unless_first (some v) k ks h a = absurd (no_value v (sym h))

  unless_rest : (o : Option V) (k : K) (ks : List K) → All P (unless_found o k ks) → All P ks
  unless_rest none k ks a = a.1
  unless_rest (some v) k ks a = a

  new_keys-found :
      (before after : Dict K V) (k : K) (v : V)
      → All P (new_keys before after)
      → lookup k before ≡ none
      → lookup k after ≡ some v
      → P k
  unfolding lookup new_keys
  new_keys-found before [] k v h n l = absurd (no_value v l)
  new_keys-found before ((j, w) ∷ after) k v h n l = elim (Bool-cases (e.beq j k)) [
    | inl x ↦ same_key P j k x (
        unless_first (lookup j before) j (new_keys before after)
          (ap (λ i. lookup i before) ((e.beq_iff j k).0 x) ∙ n) h)
    | inr x ↦
        new_keys-found before after k v (unless_rest (lookup j before) j (new_keys before after) h)
          n (sym (found_tail j k w after x) ∙ l)
  ]

  pub all_keys-sound :
      (before after : Dict K V)
      → All P (all_keys before after)
      → ((k : K) → lookup k before ≡ none → lookup k after ≡ none → P k)
      → (k : K) → P k
  all_keys-sound before after h n k =
      let (a, b) = All-parts P (keys before) (new_keys before after) h in
      elim (Option-cases (lookup k before)) [
        | inr (v, x) ↦ keys-found before k v a x
        | inl x ↦ elim (Option-cases (lookup k after)) [
          | inr (v, y) ↦ new_keys-found before after k v b x y
          | inl y ↦ n k x y
        ]
      ]

-- Two rows of one flow that the comparison does not tell apart, and a flow that neither capture has.
abbrev pub IsSame : Option FlowRow → Option FlowRow → Type 0
IsSame none none = Unit
IsSame none (some fa) = ⊥
IsSame (some fb) none = ⊥
IsSame (some fb) (some fa) =
    (fa.packet_count ≡ fb.packet_count) × ((fa.bytes ≡ fb.bytes) × (fa.state ≡ fb.state))

abbrev is_unchanged : FlowDelta → Bool
is_unchanged d = same_status d.status unchanged

-- The flows are the same when every delta is unchanged.
status_cons :
    (s : Status) (d : FlowDelta) (xs rs cs : List FlowDelta)
    → not (
        not (is_empty (if same_status s added then d ∷ xs else xs))
        || not (is_empty (if same_status s removed then d ∷ rs else rs))
        || not (is_empty (if same_status s changed then d ∷ cs else cs)))
      ≡ (same_status s unchanged
          && not (not (is_empty xs) || not (is_empty rs) || not (is_empty cs)))
status_cons added d xs rs cs = refl
status_cons removed d [] rs cs = refl
status_cons removed d (x ∷ xs) rs cs = refl
status_cons changed d [] [] cs = refl
status_cons changed d [] (r ∷ rs) cs = refl
status_cons changed d (x ∷ xs) rs cs = refl
status_cons unchanged d xs rs cs = refl

flows_same-cons :
    (d : FlowDelta) (ds : List FlowDelta) → flows_same (d ∷ ds) ≡ (is_unchanged d && flows_same ds)
unfolding flows_same by_status
flows_same-cons d ds =
    status_cons d.status d (by_status added ds) (by_status removed ds) (by_status changed ds)

differs-IsSame : (fb fa : FlowRow) → (not (differs fb fa) ≡ true) ↔ IsSame (some fb) (some fa)
differs-IsSame fb fa =
    let i = text_eq_iff fa.state fb.state in
    (λ h. (ground arith, (ground arith, ground (arith, i))), λ (p, (b, s)). ground (arith, i))

pub both_iff : (b c : Bool) → (b && c ≡ true) ↔ ((b ≡ true) × (c ≡ true))
both_iff true c = (λ h. (refl, h), λ h. h.1)
both_iff false c = (λ h. cc, λ h. h.0)

if_unchanged : (b : Bool) → same_status (if b then changed else unchanged) unchanged ≡ not b
if_unchanged true = refl
if_unchanged false = refl

pub flows_same-onto :
    (k : Key) (o p : Option FlowRow) (ds : List FlowDelta)
    → (flows_same (delta_onto k o p ds) ≡ true) ↔ (IsSame o p × (flows_same ds ≡ true))
flows_same-onto k none none ds = (λ h. (tt, h), λ h. h.1)
flows_same-onto k none (some fa) ds =
    (λ h. absurd (wrong (sym (flows_same-cons _ ds) ∙ h)), λ h. elim h.0 [ ])
flows_same-onto k (some fb) none ds =
    (λ h. absurd (wrong (sym (flows_same-cons _ ds) ∙ h)), λ h. elim h.0 [ ])
flows_same-onto k (some fb) (some fa) ds =
    let e = flows_same-cons _ ds ∙ ap (λ b. b && flows_same ds) (if_unchanged (differs fb fa)) in
    let i = both_iff (not (differs fb fa)) (flows_same ds) in
    let j = differs-IsSame fb fa in
    (λ h. let (x, y) = i.0 (sym e ∙ h) in (j.0 x, y), λ (x, y). e ∙ i.1 (j.1 x, y))
