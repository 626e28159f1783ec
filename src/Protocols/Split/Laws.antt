-- ===== src/Protocols/Split/Laws.antt =====
-- The first occurrence of a separator: bytes that come behind it do not move it.
use mathlib.Core.Bool.{false≢true}
use net_replay.Common.{
  ℕ, ◌≤◌, ◌≡◌, refl, ap, sym, ◌∙◌, true, false, Option, none, some, [], ◌∷◌, ◌++◌, length, drop,
  arith, Bool-cases, inl, inr, drop-append,
}
use net_replay.Replay.Bytes.{Bytes}
use net_replay.Replay.Mutation.{starts_with}
use net_replay.Protocols.Split.{split_once, before, is_split}

starts_with-length : (old raw : Bytes) → starts_with old raw ≡ true → length old ≤ length raw
unfolding starts_with
starts_with-length [] raw h = omega arith
starts_with-length (b ∷ bs) [] h = cc
starts_with-length (b ∷ bs) (c ∷ raw) h = ground (arith, starts_with-length bs raw)

pub starts_with-append :
    (old raw more : Bytes)
    → length old ≤ length raw
    → starts_with old (raw ++ more) ≡ starts_with old raw
unfolding starts_with
starts_with-append [] raw more h = refl
starts_with-append (b ∷ bs) [] more h = absurd (omega arith)
starts_with-append (b ∷ bs) (c ∷ raw) more h =
    rw (starts_with-append bs raw more (omega arith)) refl

abbrev pub then_more : Bytes → Option (Bytes × Bytes) → Option (Bytes × Bytes)
then_more more none = none
then_more more (some (s, t)) = some (s, t ++ more)

is_split-before : (b : ℕ) (o : Option (Bytes × Bytes)) → is_split (before b o) ≡ is_split o
is_split-before b none = refl
is_split-before b (some p) = refl

before-then_more :
    (b : ℕ) (more : Bytes) (o : Option (Bytes × Bytes))
    → before b (then_more more o) ≡ then_more more (before b o)
before-then_more b more none = refl
before-then_more b more (some p) = refl

-- The split of a text that starts with a byte.
split_once-here :
    (sep : Bytes) (b : ℕ) (rest : Bytes)
    → starts_with sep (b ∷ rest) ≡ true
    → split_once sep (b ∷ rest) ≡ some ([], drop (length sep) (b ∷ rest))
unfolding split_once
split_once-here sep b rest e = rw e refl

split_once-later :
    (sep : Bytes) (b : ℕ) (rest : Bytes)
    → starts_with sep (b ∷ rest) ≡ false
    → split_once sep (b ∷ rest) ≡ before b (split_once sep rest)
unfolding split_once
split_once-later sep b rest e = rw e refl

split_once-nil : (sep : Bytes) → split_once sep [] ≡ none
unfolding split_once
split_once-nil sep = refl

split_once-length :
    (sep buf : Bytes) → is_split (split_once sep buf) ≡ true → length sep ≤ length buf
split_once-length sep [] h = absurd (false≢true (ap is_split (sym (split_once-nil sep)) ∙ h))
split_once-length sep (b ∷ rest) h = elim (Bool-cases (starts_with sep (b ∷ rest))) [
  | inl e ↦ starts_with-length sep (b ∷ rest) e
  | inr e ↦ omega (
    arith,
    split_once-length sep rest (
        sym (is_split-before b (split_once sep rest))
        ∙ ap is_split (sym (split_once-later sep b rest e))
        ∙ h),
  )
]

-- A separator that occurs keeps its place.
pub split_once-append :
    (sep buf more : Bytes)
    → is_split (split_once sep buf) ≡ true
    → split_once sep (buf ++ more) ≡ then_more more (split_once sep buf)
split_once-append sep [] more h = absurd (false≢true (ap is_split (sym (split_once-nil sep)) ∙ h))
split_once-append sep (b ∷ rest) more h = elim (Bool-cases (starts_with sep (b ∷ rest))) [
  | inl e ↦
      let l = starts_with-length sep (b ∷ rest) e in
      split_once-here sep b (rest ++ more) (starts_with-append sep (b ∷ rest) more l ∙ e)
      ∙ ap (λ t. some ([], t)) (drop-append (length sep) (b ∷ rest) more l)
      ∙ ap (then_more more) (sym (split_once-here sep b rest e))
  | inr e ↦
      let k =
        sym (is_split-before b (split_once sep rest))
        ∙ ap is_split (sym (split_once-later sep b rest e))
        ∙ h in
      split_once-later sep b (rest ++ more)
        (starts_with-append sep (b ∷ rest) more (omega (arith, split_once-length sep rest k)) ∙ e)
      ∙ ap (before b) (split_once-append sep rest more k)
      ∙ before-then_more b more (split_once sep rest)
      ∙ ap (then_more more) (sym (split_once-later sep b rest e))
]
