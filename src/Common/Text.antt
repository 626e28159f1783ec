-- ===== src/Common/Text.antt =====
-- The order of Python's `str`: by code points, as the native texts compare.
use Prim.Native.Nat.{ℕ, Ordering, compare as compare_ℕ}
use Prim.Native.Char.{code}
use Prim.Native.String.compare
use Prim.Native.String.{String, [], ◌∷◌, compare, then}
use mathlib.Core.Path.{◌≡◌, refl}
use mathlib.Core.Bool.{Bool, true, false, ◌&&◌}
use mathlib.Core.List.{List}
use net_replay.Common.Tests.{◌==◌}
use native.Mathlib.Omega.{arith}

abbrev pub flip : Ordering → Ordering
flip Ordering.lt = Ordering.gt
flip Ordering.eq = Ordering.eq
flip Ordering.gt = Ordering.lt

flip_compare : (a b : ℕ) → compare_ℕ a b ≡ flip (compare_ℕ b a)
flip_compare a b = ground arith

then-flip : (o p : Ordering) → then (flip o) (flip p) ≡ flip (then o p)
then-flip Ordering.lt p = refl
then-flip Ordering.eq p = refl
then-flip Ordering.gt p = refl

pub compare-flip : (s t : String) → compare s t ≡ flip (compare t s)
compare-flip [] [] = refl
compare-flip [] (d ∷ t) = rw (compare.nil-cons, compare.cons-nil)
compare-flip (c ∷ s) [] = rw (compare.nil-cons, compare.cons-nil)
compare-flip (c ∷ s) (d ∷ t) =
    rw
      (
        compare.cons-cons c d s t,
        compare.cons-cons d c t s,
        flip_compare (code c) (code d),
        compare-flip s t,
      )
      (then-flip _ _)

-- Python's order of a pair of a text and a number.
abbrev pub compare_pair : String × ℕ → String × ℕ → Ordering
compare_pair a b = then (compare a.0 b.0) (compare_ℕ a.1 b.1)

-- The code points of a text.
abbrev pub codes : String → List ℕ
codes String.[] = List.[]
codes (String.◌∷◌ c s) = List.◌∷◌ (code c) (codes s)

-- Python's `==` on texts given by their code points.
abbrev pub text_eq : List ℕ → List ℕ → Bool
text_eq List.[] List.[] = true
text_eq (List.◌∷◌ x xs) (List.◌∷◌ y ys) = (x == y) && text_eq xs ys
text_eq _ _ = false

pub text_eq_self : (s : List ℕ) → text_eq s s ≡ true
text_eq_self List.[] = refl
text_eq_self (List.◌∷◌ x xs) = ground (arith, text_eq_self xs)

pub text_eq-eq : (s t : List ℕ) → text_eq s t ≡ true → s ≡ t
text_eq-eq List.[] List.[] h = refl
text_eq-eq List.[] (List.◌∷◌ y ys) h = cc
text_eq-eq (List.◌∷◌ x xs) List.[] h = cc
text_eq-eq (List.◌∷◌ x xs) (List.◌∷◌ y ys) h = ground (arith, text_eq-eq xs ys)
