-- ===== src/Replay/Validate/Header.antt =====
-- The header of a frame whose checksum field is overwritten, as remap.py and validate.py of netreplay/core/replay do.
use net_replay.Common.{
  ℕ, zero, suc, ◌+◌, ◌-◌, ◌*◌, ◌/◌, ◌%◌, ◌≤◌, ◌≡◌, refl, ap, [], ◌∷◌, ◌++◌, length, take, drop,
  arith, length-take, length-drop,
}
use net_replay.Replay.Bytes.{Bytes, slice, set_slice, be16, from_bytes}
use net_replay.Replay.Checksum.{checksum}
use net_replay.Replay.Remap.{fix_header_checksum}

-- Facts of slices.
sub_zero : (b : ℕ) → b - 0 ≡ b
sub_zero b = omega arith

sub_suc : (b a : ℕ) → suc b - suc a ≡ b - a
sub_suc b a = omega arith

drop-take-append :
    (a b : ℕ) (xs ys : Bytes)
    → a ≤ b
    → b ≤ length xs
    → drop a (take b xs ++ ys) ≡ take (b - a) (drop a xs) ++ ys
drop-take-append zero b xs ys h k = rw (sub_zero b)
drop-take-append (suc a) zero xs ys h k = absurd (omega arith)
drop-take-append (suc a) (suc b) [] ys h k = absurd (omega arith)
drop-take-append (suc a) (suc b) (x ∷ xs) ys h k =
    rw (sub_suc b a) (drop-take-append a b xs ys (omega arith) (omega arith))

take-append :
    (n : ℕ) (xs ys : Bytes) → length xs ≤ n → take n (xs ++ ys) ≡ xs ++ take (n - length xs) ys
take-append n [] ys h = rw (sub_zero n)
take-append zero (x ∷ xs) ys h = absurd (omega arith)
take-append (suc n) (x ∷ xs) ys h = rw (sub_suc n (length xs), take-append n xs ys (omega arith))

drop-append : (xs ys : Bytes) → drop (length xs) (xs ++ ys) ≡ ys
drop-append [] ys = refl
drop-append (x ∷ xs) ys = drop-append xs ys

take_two : (n x y : ℕ) (zs : Bytes) → 2 ≤ n → take n (x ∷ y ∷ zs) ≡ x ∷ y ∷ take (n - 2) zs
take_two zero x y zs h = absurd (omega arith)
take_two (suc zero) x y zs h = absurd (omega arith)
take_two (suc (suc n)) x y zs h = rw (sub_suc (suc n) 1, sub_suc n 0, sub_zero n)

pub length-head : (buf : Bytes) → 34 ≤ length buf → length (slice buf 14 24) ≡ 10
unfolding slice
length-head buf h = omega (arith, length-take 10 (drop 14 buf), length-drop 14 buf)

abbrev pub tail_of : Bytes → ℕ → Bytes
tail_of buf ihl = take (ihl - 12) (drop 26 buf)

-- The header of a frame whose checksum field is overwritten: ten bytes, the field, the rest.
header_parts :
    (buf : Bytes) (ihl x y : ℕ)
    → 34 ≤ length buf
    → 20 ≤ ihl
    → slice (set_slice buf 24 26 (x ∷ y ∷ [])) 14 (14 + ihl)
      ≡ slice buf 14 24 ++ (x ∷ y ∷ tail_of buf ihl)
unfolding set_slice slice
header_parts buf ihl x y h k =
    let head : Bytes = take 10 (drop 14 buf) in
    let rest : Bytes = x ∷ y ∷ drop 26 buf in
    let n : length head ≡ 10 = omega (arith, length-take 10 (drop 14 buf), length-drop 14 buf) in
    let all : 14 + ihl - 14 ≡ ihl = omega arith in
    let two : ihl - 10 - 2 ≡ ihl - 12 = omega arith in
    rw (
      all,
      drop-take-append 14 24 buf rest (omega arith) (omega arith),
      take-append ihl head rest (omega arith),
      n,
      take_two (ihl - 10) x y (drop 26 buf) (omega arith),
      two,
    )

-- The field of such a header, and the header with the field overwritten.
pub read_field :
    (head tail : Bytes) (x y : ℕ)
    → length head ≡ 10
    → be16 (head ++ (x ∷ y ∷ tail)) 10 ≡ x * 256 + y
unfolding be16 slice from_bytes
read_field head tail x y h =
    let d : drop 10 (head ++ (x ∷ y ∷ tail)) ≡ x ∷ y ∷ tail = rw (← h) (drop-append head _) in
    rw d (omega arith)

take_head : (n : ℕ) (xs ys : Bytes) → length xs ≡ n → take n (xs ++ ys) ≡ xs
take_head zero [] ys h = refl
take_head (suc n) [] ys h = absurd (omega arith)
take_head zero (x ∷ xs) ys h = absurd (omega arith)
take_head (suc n) (x ∷ xs) ys h = ap (λ zs. x ∷ zs) (take_head n xs ys (omega arith))

drop_two :
    (n : ℕ) (xs zs : Bytes) (x y : ℕ) → length xs ≡ n → drop (suc (suc n)) (xs ++ (x ∷ y ∷ zs)) ≡ zs
drop_two zero [] zs x y h = refl
drop_two (suc n) [] zs x y h = absurd (omega arith)
drop_two zero (w ∷ xs) zs x y h = absurd (omega arith)
drop_two (suc n) (w ∷ xs) zs x y h = drop_two n xs zs x y (omega arith)

pub write_field :
    (head tail v : Bytes) (x y : ℕ)
    → length head ≡ 10
    → set_slice (head ++ (x ∷ y ∷ tail)) 10 12 v ≡ head ++ (v ++ tail)
unfolding set_slice
write_field head tail v x y h = rw (take_head 10 head (x ∷ y ∷ tail) h, drop_two 10 head tail x y h)

overwrite :
    (buf : Bytes) (x y : ℕ)
    → 26 ≤ length buf
    → set_slice (set_slice buf 24 26 (0 ∷ 0 ∷ [])) 24 26 (x ∷ y ∷ [])
      ≡ set_slice buf 24 26 (x ∷ y ∷ [])
unfolding set_slice
overwrite buf x y h =
    let n : length (take 24 buf) ≡ 24 = omega (arith, length-take 24 buf) in
    rw (
      take_head 24 (take 24 buf) (0 ∷ 0 ∷ drop 26 buf) n,
      drop_two 24 (take 24 buf) (drop 26 buf) 0 0 n,
    )

-- The header that the recomputation of its checksum leaves, and its checksum by the rule of the receiver.
pub fixed_header :
    (buf : Bytes) (ihl : ℕ)
    → 34 ≤ length buf
    → 20 ≤ ihl
    → let c = checksum (slice buf 14 24 ++ (0 ∷ 0 ∷ tail_of buf ihl)) in
      slice (fix_header_checksum buf ihl) 14 (14 + ihl)
      ≡ slice buf 14 24 ++ (c / 256 ∷ c % 256 ∷ tail_of buf ihl)
unfolding fix_header_checksum
fixed_header buf ihl h k =
    let c = checksum (slice buf 14 24 ++ (0 ∷ 0 ∷ tail_of buf ihl)) in
    rw
      (
        header_parts buf ihl 0 0 h k,
        overwrite buf (c / 256) (c % 256) (omega arith),
        header_parts buf ihl (c / 256) (c % 256) h k,
      )
      refl
