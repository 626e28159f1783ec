-- ===== src/Events/Chains.antt =====
-- `ancestors` of the event graph of netreplay/core/events/models.py. The loop has fuel.
use net_replay.Common.{
  ℕ, zero, suc, ◌≤◌, ◌<◌, ◌≡◌, refl, ap, sym, ◌∙◌, Bool, true, false, Option, none, some, List, [],
  ◌∷◌, ◌++◌, if◌then◌else◌, length, arith, Bool-cases, inl, inr,
}
use net_replay.Common.Dict.{Dict, lookup}
use net_replay.Common.Text.{text_eq, text_eq-eq, text_eq_self}
use net_replay.Replay.Bytes.{bytes_eq}
use net_replay.Events.Graph.{Text, NetworkEvent, EventGraph}

-- `p in seen`
abbrev pub is_in : Text → List Text → Bool
is_in p [] = false
is_in p (s ∷ seen) = let rest = is_in p seen in if text_eq s p then true else rest

-- The loop of `ancestors`, from the event's parent on: what is appended to `chain`.
abbrev pub chain_next :
    (List Text → NetworkEvent → List NetworkEvent)
    → List Text
    → Text
    → Bool
    → Option NetworkEvent
    → List NetworkEvent
chain_next rest seen p true parent = []
chain_next rest seen p false none = []
chain_next rest seen p false (some e) = e ∷ rest (p ∷ seen) e

abbrev pub chain_of_parent :
    (List Text → NetworkEvent → List NetworkEvent)
    → Dict Text NetworkEvent
    → List Text
    → Option Text
    → List NetworkEvent
chain_of_parent rest d seen none = []
chain_of_parent rest d seen (some p) = chain_next rest seen p (is_in p seen) (lookup p d)

unfoldable pub chain : ℕ → Dict Text NetworkEvent → List Text → NetworkEvent → List NetworkEvent
chain zero d seen cur = []
chain (suc f) d seen cur = chain_of_parent (chain f d) d seen cur.parent_id

abbrev pub reversed {ℓ} : {A : Type ℓ} → List A → List A
reversed [] = []
reversed (x ∷ xs) = reversed xs ++ x ∷ []

unfoldable pub ancestors : EventGraph → Text → List NetworkEvent
ancestors g event_id = elim (lookup event_id g.by_id) [
  | none ↦ []
  | some cur ↦ reversed (chain (suc (length g.by_id)) g.by_id [] cur)
]

-- The ids that were not seen yet.
abbrev pub unseen : List Text → Dict Text NetworkEvent → ℕ
unseen seen [] = 0
unseen seen ((k, e) ∷ d) = let rest = unseen seen d in if is_in k seen then rest else suc rest

unseen-length : (d : Dict Text NetworkEvent) → unseen [] d ≡ length d
unseen-length [] = refl
unseen-length ((k, e) ∷ d) = ap suc (unseen-length d)

unseen_more :
    (p : Text) (seen : List Text) (d : Dict Text NetworkEvent) → unseen (p ∷ seen) d ≤ unseen seen d
unseen_more p seen [] = omega arith
unseen_more p seen ((k, e) ∷ d) = ground (arith, unseen_more p seen d)

tail_of :
    (b : Bool) (v e : NetworkEvent) (o : Option NetworkEvent)
    → b ≡ false
    → (if b then some v else o) ≡ some e
    → o ≡ some e
tail_of true v e o h l = cc
tail_of false v e o h l = l

-- An id that is found and was not seen is one less to see.
unseen_less :
    (p : Text) (seen : List Text) (e : NetworkEvent) (d : Dict Text NetworkEvent)
    → is_in p seen ≡ false
    → lookup p d ≡ some e
    → unseen (p ∷ seen) d < unseen seen d
unfolding lookup
unseen_less p seen e [] h l = cc
unseen_less p seen e ((k, v) ∷ d) h l = elim (Bool-cases (text_eq k p)) [
  | inl x ↦
      let same = text_eq-eq k p x in
      ground (
        arith,
        ap (λ q. text_eq q k) (sym same) ∙ text_eq_self k,
        ap (λ q. is_in q seen) same ∙ h,
        unseen_more p seen d,
      )
  | inr x ↦ ground (arith, unseen_less p seen e d h (tail_of (text_eq k p) v e (lookup p d) x l))
]

chain_next-same :
    (r q : List Text → NetworkEvent → List NetworkEvent) (seen : List Text) (p : Text) (b : Bool)
    (o : Option NetworkEvent)
    → ((e : NetworkEvent) → b ≡ false → o ≡ some e → r (p ∷ seen) e ≡ q (p ∷ seen) e)
    → chain_next r seen p b o ≡ chain_next q seen p b o
chain_next-same r q seen p true o h = refl
chain_next-same r q seen p false none h = refl
chain_next-same r q seen p false (some e) h = ap (λ es. e ∷ es) (h e refl refl)

chain_of_parent-same :
    (r q : List Text → NetworkEvent → List NetworkEvent) (d : Dict Text NetworkEvent)
    (seen : List Text) (o : Option Text)
    → ((p : Text) (e : NetworkEvent)
        → is_in p seen ≡ false
        → lookup p d ≡ some e
        → r (p ∷ seen) e ≡ q (p ∷ seen) e)
    → chain_of_parent r d seen o ≡ chain_of_parent q d seen o
chain_of_parent-same r q d seen none h = refl
chain_of_parent-same r q d seen (some p) h =
    chain_next-same r q seen p (is_in p seen) (lookup p d) (h p)

chain_fueled :
    (f g : ℕ) (d : Dict Text NetworkEvent) (seen : List Text) (cur : NetworkEvent)
    → unseen seen d < f
    → unseen seen d < g
    → chain f d seen cur ≡ chain g d seen cur
unfolding chain
chain_fueled zero g d seen cur hf hg = elim hf [ ]
chain_fueled (suc f) zero d seen cur hf hg = elim hg [ ]
chain_fueled (suc f) (suc g) d seen cur hf hg =
    chain_of_parent-same (chain f d) (chain g d) d seen cur.parent_id (λ p e n l.
      let less = unseen_less p seen e d n l in
      chain_fueled f g d (p ∷ seen) e (omega (arith, less)) (omega (arith, less)))

-- In any graph, also one whose parents form a cycle, the loop of `ancestors` ends: as many rounds as there are ids in the
-- graph, and one more, are enough, and more of them change nothing.
pub chain_enough :
    (g : EventGraph) (cur : NetworkEvent) (f : ℕ)
    → length g.by_id < f
    → chain f g.by_id [] cur ≡ chain (suc (length g.by_id)) g.by_id [] cur
chain_enough g cur f h =
    chain_fueled f (suc (length g.by_id)) g.by_id [] cur (omega (arith, h, unseen-length g.by_id))
      (omega (arith, unseen-length g.by_id))
