-- ===== src/Replay/Checksum/Laws.antt =====
-- The folded sum, and a checksum written into its field.
use net_replay.Common.{
  ℕ, zero, suc, ◌+◌, ◌-◌, ◌/◌, ◌%◌, ◌≤◌, ◌<◌, ◌≡◌, refl, true, false, [], ◌∷◌, ◌++◌, ltb, ◌==◌,
  length, arith, Bool-cases, inl, inr, ◌∙◌, ap,
}
use native.Mathlib.Nat.{le_refl}
use net_replay.Replay.Bytes.{Bytes, two_bytes}
use net_replay.Replay.Checksum.{padded, word_sum, fold, checksum}

-- The folded sum is below 2^16, has the residue of the sum mod 2^16 - 1, and is 0 only if the sum is.
record Folded (f total : ℕ) : Type 0 where
  small : fold f total < 65536
  residue : fold f total % 65535 ≡ total % 65535
  positive : 0 < total → 0 < fold f total

fold_more :
    (f total : ℕ)
    → ltb 65535 total ≡ true
    → fold (suc f) total ≡ fold f (total % 65536 + total / 65536)
unfolding fold
fold_more f total e = rw (e, fold)

fold_done : (f total : ℕ) → ltb 65535 total ≡ false → fold (suc f) total ≡ total
unfolding fold
fold_done f total e = rw (e, fold)

fold-Folded : (f total : ℕ) → total ≤ f → Folded f total
fold-Folded zero total h = record {
  small = unfold fold in omega arith;
  residue = unfold fold in refl;
  positive = unfold fold in λ p. p;
}
fold-Folded (suc f) total h = elim (Bool-cases (ltb 65535 total)) [
  | inl e ↦
      let big : 65535 < total = ground arith in
      let r = fold-Folded f (total % 65536 + total / 65536) (omega arith) in
      record {
        small = rw (fold_more f total e) r.small;
        residue = rw (fold_more f total e) (r.residue ∙ omega arith);
        positive = λ p. rw (fold_more f total e) (r.positive (omega arith));
      }
  | inr e ↦
      let little : total ≤ 65535 = ground arith in
      record {
        small = rw (fold_done f total e) (omega arith);
        residue = rw (fold_done f total e);
        positive = λ p. rw (fold_done f total e) p;
      }
]

-- The loop of `_checksum` ends with a sum that fits 16 bits, on any bytes.
pub fold_fits : (total : ℕ) → fold total total < 65536
fold_fits total = (fold-Folded total total (omega arith)).small

word_sum-zero : (d : Bytes) → length d % 2 ≡ 1 → word_sum (d ++ 0 ∷ []) ≡ word_sum d
unfolding word_sum
word_sum-zero [] h = absurd (omega arith)
word_sum-zero (x ∷ []) h = omega arith
word_sum-zero (x ∷ y ∷ d) h = omega (arith, word_sum-zero d (omega arith))

word_sum-padded : (d : Bytes) → word_sum (padded d) ≡ word_sum d
unfolding padded
word_sum-padded d = elim (Bool-cases (length d % 2 == 0)) [
  | inl e ↦ rw e
  | inr e ↦ rw e (word_sum-zero d (ground arith))
]

checksum_lem : (d : Bytes) → checksum d ≡ 65535 - fold (word_sum d) (word_sum d)
unfolding checksum
checksum_lem d = rw (word_sum-padded d)

word_sum-append :
    (pre post : Bytes) → length pre % 2 ≡ 0 → word_sum (pre ++ post) ≡ word_sum pre + word_sum post
unfolding word_sum
word_sum-append [] post h = omega arith
word_sum-append (x ∷ []) post h = absurd (omega arith)
word_sum-append (x ∷ y ∷ pre) post h = omega (arith, word_sum-append pre post (omega arith))

word_sum_two : (c : ℕ) (post : Bytes) → word_sum (two_bytes c ++ post) ≡ c + word_sum post
unfolding word_sum
word_sum_two c post = omega arith

complement_pos : (t : ℕ) → 0 < t + (65535 - fold t t)
unfolding fold
complement_pos zero = omega arith
complement_pos (suc t) = omega arith

-- A sum and the complement of its folded sum fold to 65535.
fold_complement : (t : ℕ) → fold (t + (65535 - fold t t)) (t + (65535 - fold t t)) ≡ 65535
fold_complement t =
    let a = fold-Folded t t (le_refl t) in
    let n = t + (65535 - fold t t) in
    let b = fold-Folded n n (le_refl n) in
    omega (arith, a.small, a.residue, b.small, b.residue, b.positive (complement_pos t))

-- A checksum that is computed with its field zeroed and then written into that field, at an even
-- offset, makes the checksum of the whole 0: the receiver's test passes.
pub checksum_written :
    (pre post : Bytes)
    → length pre % 2 ≡ 0
    → checksum (pre ++ (two_bytes (checksum (pre ++ (two_bytes 0 ++ post))) ++ post)) ≡ 0
checksum_written pre post h =
    let c = checksum (pre ++ (two_bytes 0 ++ post)) in
    let t = word_sum pre + word_sum post in
    let zeroed : word_sum (pre ++ (two_bytes 0 ++ post)) ≡ t =
      omega (arith, word_sum-append pre (two_bytes 0 ++ post) h, word_sum_two 0 post) in
    let c_is : c ≡ 65535 - fold t t = checksum_lem _ ∙ ap (λ s. 65535 - fold s s) zeroed in
    let written : word_sum (pre ++ (two_bytes c ++ post)) ≡ t + (65535 - fold t t) =
      omega (arith, word_sum-append pre (two_bytes c ++ post) h, word_sum_two c post, c_is) in
    checksum_lem _ ∙ ap (λ s. 65535 - fold s s) written ∙ omega (arith, fold_complement t)

pub checksum_lt : (d : Bytes) → checksum d < 65536
checksum_lt d = omega (arith, checksum_lem d)
