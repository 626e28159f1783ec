-- ===== src/Common/Dict.antt =====
-- Python's `dict`: entries in insertion order, for every type of keys with a Boolean equality.
use Prim.Native.String.{String}
use text.Mathlib.Text.{◌==◌ as str_eq}
use text.Mathlib.TextEquality.{eq_iff}
use Prim.Native.Nat.{ℕ, suc, ◌+◌}
use mathlib.Core.Path.{◌≡◌, refl}
use mathlib.Core.Logic.{◌↔◌}
use mathlib.Core.Bool.{Bool, true}
use mathlib.Core.Option.{Option, none, some}
use mathlib.Core.List.{List, [], ◌∷◌}
use native.Mathlib.Omega.{arith}
use net_replay.Common.Tests.{if◌then◌else◌, ==_iff, ◌==◌}
use net_replay.Common.Lists.{length, sum_of}

pub record Eq {ℓ} (A : Type ℓ) : Type ℓ where
  pub beq : A → A → Bool
  pub beq_iff : (a b : A) → (beq a b ≡ true) ↔ (a ≡ b)

instance abbrev pub string_eq : Eq String
string_eq = record { beq = str_eq; beq_iff = eq_iff }

instance abbrev pub nat_eq : Eq ℕ
nat_eq = record { beq = ◌==◌; beq_iff = ==_iff }

abbrev pub Dict {ℓ κ} : Type ℓ → Type κ → Type (ℓ ⊔ κ)
Dict K V = List (K × V)

-- What a write does to the number of entries, and what a value adds to a sum.
abbrev pub size_after {κ} : {V : Type κ} → Option V → ℕ → ℕ
size_after none n = suc n
size_after (some v) n = n

abbrev pub value_of {κ} : {V : Type κ} → (V → ℕ) → Option V → ℕ
value_of f none = 0
value_of f (some v) = f v

module _ {ℓ κ} {K : Type ℓ} {V : Type κ} ⦃e : Eq K⦄ where
  unfoldable pub lookup : K → Dict K V → Option V
  lookup k [] = none
  lookup k ((j, v) ∷ d) = if e.beq j k then some v else lookup k d

  -- `d[k] = v`
  unfoldable pub insert : K → V → Dict K V → Dict K V
  insert k v [] = (k, v) ∷ []
  insert k v ((j, w) ∷ d) = if e.beq j k then (j, v) ∷ d else (j, w) ∷ insert k v d

  pub lookup-insert :
      (k j : K) (v : V) (d : Dict K V)
      → lookup j (insert k v d) ≡ (if e.beq k j then some v else lookup j d)
  unfolding lookup insert
  lookup-insert k j v [] = refl
  lookup-insert k j v ((i, w) ∷ d) =
      ground (arith, lookup-insert k j v d, e.beq_iff k j, e.beq_iff i k, e.beq_iff i j)

  pub length-insert :
      (k : K) (v : V) (d : Dict K V) → length (insert k v d) ≡ size_after (lookup k d) (length d)
  unfolding lookup insert
  length-insert k v [] = refl
  length-insert k v ((i, w) ∷ d) = ground (arith, length-insert k v d)

  module _ (f : V → ℕ) where
    abbrev pub total : Dict K V → ℕ
    total = sum_of (λ (k, v). f v)

    pub total-insert :
        (k : K) (v : V) (d : Dict K V)
        → total (insert k v d) + value_of f (lookup k d) ≡ total d + f v
    unfolding lookup insert
    total-insert k v [] = omega arith
    total-insert k v ((i, w) ∷ d) = ground (arith, total-insert k v d)
