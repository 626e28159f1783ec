-- ===== src/Replay/Mutation.antt =====
-- netreplay/core/replay/mutation.py: the mutations of a frame before it is replayed. `bytes.replace` is the scan that Python
-- documents: the leftmost occurrences that do not overlap.
use net_replay.Common.{
  ℕ, suc, zero, ◌-◌, ◌≤◌, ◌≡◌, refl, Bool, true, false, Option, none, some, List, [], ◌∷◌, ◌++◌,
  leb, ◌==◌, if◌then◌else◌, arith, length, length-take, length-append, length-replicate, leb→le,
  Bool-cases, inl, inr, ap, ==_iff, sym, ◌∙◌, take, drop, replicate,
}
use net_replay.Replay.Bytes.{Bytes}

pub data Mutation : Type 0 where
  truncate_payload : (max_length : ℕ) → Mutation
  replace_pattern : (old new : Bytes) → Mutation
  pad_to_length : (length : ℕ) → Mutation

-- `__post_init__`; `none` is the ValueError.
unfoldable pub mutation_of : Mutation → Option Mutation
mutation_of (truncate_payload n) = if n == 0 then none else some (truncate_payload n)
mutation_of (replace_pattern [] new) = none
mutation_of (replace_pattern (b ∷ bs) new) = some (replace_pattern (b ∷ bs) new)
mutation_of (pad_to_length n) = some (pad_to_length n)

unfoldable pub starts_with : Bytes → Bytes → Bool
starts_with [] raw = true
starts_with (b ∷ bs) [] = false
starts_with (b ∷ bs) (c ∷ raw) = if b == c then starts_with bs raw else false

-- `raw.replace(old, new)`, past the next `skip` bytes of an occurrence.
unfoldable pub replace : Bytes → Bytes → ℕ → Bytes → Bytes
replace old new skip [] = []
replace old new (suc skip) (b ∷ raw) = replace old new skip raw
replace old new zero (b ∷ raw) =
    let found = replace old new (length old - 1) raw in
    let rest = replace old new zero raw in
    if starts_with old (b ∷ raw) then new ++ found else b ∷ rest

unfoldable pub apply : Mutation → Bytes → Bytes
apply (truncate_payload n) raw = take n raw
apply (replace_pattern old new) raw = replace old new 0 raw
apply (pad_to_length n) raw =
    if leb n (length raw) then raw else raw ++ replicate (n - length raw) 0

unfoldable pub apply_all : List Mutation → Bytes → Bytes
apply_all [] raw = raw
apply_all (m ∷ ms) raw = apply_all ms (apply m raw)

starts_with-append :
    (old raw : Bytes) → starts_with old raw ≡ true → old ++ drop (length old) raw ≡ raw
unfolding starts_with
starts_with-append [] raw h = refl
starts_with-append (b ∷ bs) [] h = cc
starts_with-append (b ∷ bs) (c ∷ raw) h = elim (Bool-cases (b == c)) [
  | inl e ↦ rw ((==_iff b c).0 e) (
      ap (λ x. c ∷ x)
        (starts_with-append bs raw (ap (λ o. if o then starts_with bs raw else false) (sym e) ∙ h)))
  | inr e ↦ cc
]

suc_less : (n : ℕ) → suc n - 1 ≡ n
suc_less n = omega arith

-- Replacing a non-empty pattern by itself changes nothing, from any byte on.
pub replace_same :
    (c : ℕ) (old : Bytes) (skip : ℕ) (raw : Bytes)
    → replace (c ∷ old) (c ∷ old) skip raw ≡ drop skip raw
unfolding replace
replace_same c old zero [] = refl
replace_same c old (suc skip) [] = refl
replace_same c old (suc skip) (b ∷ raw) = replace_same c old skip raw
replace_same c old zero (b ∷ raw) = elim (Bool-cases (starts_with (c ∷ old) (b ∷ raw))) [
  | inl e ↦
      rw (e, suc_less (length old), replace_same c old (length old) raw)
        (starts_with-append (c ∷ old) (b ∷ raw) e)
  | inr e ↦ rw e (ap (λ x. b ∷ x) (replace_same c old zero raw))
]

-- `MutationPipeline.add`
unfoldable pub add : List Mutation → Mutation → List Mutation
add ms m = ms ++ m ∷ []

-- `MutationPipeline.is_empty`
unfoldable pub is_empty : List Mutation → Bool
is_empty [] = true
is_empty (m ∷ ms) = false

apply-last :
    (ms : List Mutation) (raw : Bytes) (m : Mutation)
    → apply_all (add ms m) raw ≡ apply m (apply_all ms raw)
unfolding apply_all add
apply-last [] raw m = refl
apply-last (k ∷ ms) raw m = apply-last ms (apply k raw) m

length_truncated : (n : ℕ) (raw : Bytes) → length (apply (truncate_payload n) raw) ≤ n
unfolding apply
length_truncated n raw = omega (arith, length-take n raw)

length_padded : (n : ℕ) (raw : Bytes) → n ≤ length (apply (pad_to_length n) raw)
unfolding apply
length_padded n raw = elim (Bool-cases (leb n (length raw))) [
  | inl e ↦ rw e (leb→le n (length raw) e)
  | inr e ↦ rw e (
      omega (
        arith,
        length-append raw (replicate (n - length raw) 0),
        length-replicate {A = ℕ} (n - length raw) 0,
      ))
]

-- A mutation that is added to a pipeline works on what the pipeline makes of a frame; so a last truncation bounds the frame
-- from above, and a last padding from below.
pub apply_all-add :
    (ms : List Mutation) (raw : Bytes) (m : Mutation) (n : ℕ)
    → (apply_all (add ms m) raw ≡ apply m (apply_all ms raw))
      × (length (apply_all (add ms (truncate_payload n)) raw) ≤ n)
      × (n ≤ length (apply_all (add ms (pad_to_length n)) raw))
apply_all-add ms raw m n = (
  apply-last ms raw m,
  rw (apply-last ms raw (truncate_payload n)) (length_truncated n (apply_all ms raw)),
  rw (apply-last ms raw (pad_to_length n)) (length_padded n (apply_all ms raw)),
)
