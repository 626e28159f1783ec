-- ===== src/Common/Sort.antt =====
-- Python's `list.sort(key=...)` and `sorted`: a stable sort by a numeric key.
use Prim.Native.Nat.{ℕ, suc, ◌+◌}
use mathlib.Core.Path.{◌≡◌, refl}
use mathlib.Core.List.{List, [], ◌∷◌, Perm}
use mathlib.Core.List.Perm
use native.Mathlib.Omega.{arith}
use mathlib.Core.Bool.{Bool, true, false}
use net_replay.Common.Tests.{ltb, ◌==◌, leb, if◌then◌else◌, Bool-cases}
use net_replay.Common.Lists.{All, length, sum_of}
use mathlib.Core.Logic.{inl, inr}

module _ {ℓ} {A : Type ℓ} (key : A → ℕ) where
  -- Goes before the first element with no smaller key.
  unfoldable pub insert_by : A → List A → List A
  insert_by x [] = x ∷ []
  insert_by x (y ∷ ys) = if leb (key x) (key y) then x ∷ y ∷ ys else y ∷ insert_by x ys

  unfoldable pub sort_by : List A → List A
  unfolding insert_by
  sort_by [] = []
  sort_by (x ∷ xs) = insert_by x (sort_by xs)

  pub insert_by-perm : (x : A) (xs : List A) → Perm (insert_by x xs) (x ∷ xs)
  unfolding insert_by
  insert_by-perm x [] = Perm.refl (x ∷ [])
  insert_by-perm x (y ∷ ys) = elim (Bool-cases (leb (key x) (key y))) [
    | inl e ↦ rw e (Perm.refl (x ∷ y ∷ ys))
    | inr e ↦ rw e (Perm.trans (Perm.cons y (insert_by-perm x ys)) (Perm.swap x y ys))
  ]

  pub sort_by-perm : (xs : List A) → Perm (sort_by xs) xs
  unfolding sort_by
  sort_by-perm [] = Perm.refl []
  sort_by-perm (x ∷ xs) = Perm.trans (insert_by-perm x (sort_by xs)) (Perm.cons x (sort_by-perm xs))

  insert_by-length : (x : A) (xs : List A) → length (insert_by x xs) ≡ suc (length xs)
  unfolding insert_by
  insert_by-length x [] = refl
  insert_by-length x (y ∷ ys) = ground (arith, insert_by-length x ys)

  pub length-sort_by : (xs : List A) → length (sort_by xs) ≡ length xs
  unfolding sort_by
  length-sort_by [] = refl
  length-sort_by (x ∷ xs) = omega (arith, insert_by-length x (sort_by xs), length-sort_by xs)

  -- A sum over the elements does not see the order.
  module _ (f : A → ℕ) where
    insert_by-sum : (x : A) (xs : List A) → sum_of f (insert_by x xs) ≡ f x + sum_of f xs
    unfolding insert_by
    insert_by-sum x [] = refl
    insert_by-sum x (y ∷ ys) = ground (arith, insert_by-sum x ys)

    pub sort_by-sum : (xs : List A) → sum_of f (sort_by xs) ≡ sum_of f xs
    unfolding sort_by
    sort_by-sum [] = refl
    sort_by-sum (x ∷ xs) = omega (arith, insert_by-sum x (sort_by xs), sort_by-sum xs)

module _ {ℓ κ} {A : Type ℓ} (key : A → ℕ) (P : A → Type κ) where
  insert_by-All : (x : A) (xs : List A) → P x → All P xs → All P (insert_by key x xs)
  unfolding insert_by
  insert_by-All x [] h k = (h, tt)
  insert_by-All x (y ∷ ys) h k = elim (Bool-cases (leb (key x) (key y))) [
    | inl e ↦ rw e (h, k)
    | inr e ↦ rw e (k.0, insert_by-All x ys h k.1)
  ]

  pub sort_by-All : (xs : List A) → All P xs → All P (sort_by key xs)
  unfolding sort_by
  sort_by-All [] h = tt
  sort_by-All (x ∷ xs) h = insert_by-All x (sort_by key xs) h.0 (sort_by-All xs h.1)

-- `s <= t` of two `str`, by code points.
unfoldable pub text_leb : List ℕ → List ℕ → Bool
text_leb [] t = true
text_leb (x ∷ xs) [] = false
text_leb (x ∷ xs) (y ∷ ys) = let rest = text_leb xs ys in if x == y then rest else ltb x y

-- The order of the pairs of a number and a text.
abbrev pub pair_leb : ℕ × List ℕ → ℕ × List ℕ → Bool
pair_leb (a, s) (b, t) = if ltb a b then true else (if a == b then text_leb s t else false)

-- A stable sort by a test of order.
module _ {ℓ} {A : Type ℓ} (at_most : A → A → Bool) where
  unfoldable pub insert_with : A → List A → List A
  insert_with x [] = x ∷ []
  insert_with x (y ∷ ys) =
      let rest = insert_with x ys in if at_most x y then x ∷ y ∷ ys else y ∷ rest

  unfoldable pub sort_with : List A → List A
  sort_with [] = []
  sort_with (x ∷ xs) = insert_with x (sort_with xs)
