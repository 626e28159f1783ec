-- ===== src/Replay/Bytes.antt =====
-- Python's `bytes` and `bytearray`: slices, slice assignment, and big-endian integers.
use net_replay.Common.{
  ℕ, ◌+◌, ◌-◌, ◌*◌, ◌/◌, ◌%◌, ◌≤◌, ◌≡◌, ◌↔◌, refl, true, Option, none, some, List, [], ◌∷◌, ◌++◌,
  ltb, if◌then◌else◌, arith, length, get_or, take, drop, length-append, length-take, length-drop,
  take-append, drop-append, take-length, drop-length, suc, ap, ◌∙◌,
}
use net_replay.Common.Text.{text_eq, text_eq_self, text_eq-eq}
use net_replay.Common.Dict.{Eq}

abbrev pub Bytes : Type 0
Bytes = List ℕ

-- `raw[i]`, read only where the length has been checked.
abbrev pub byte : Bytes → ℕ → ℕ
byte raw i = get_or raw i 0

-- `raw[a:b]`
unfoldable pub slice : Bytes → ℕ → ℕ → Bytes
slice raw a b = take (b - a) (drop a raw)

-- `buf[a:b] = v`
unfoldable pub set_slice : Bytes → ℕ → ℕ → Bytes → Bytes
set_slice buf a b v = take a buf ++ (v ++ drop b buf)

-- `int.from_bytes(…, "big")`
unfoldable pub from_bytes : ℕ → Bytes → ℕ
from_bytes acc [] = acc
from_bytes acc (b ∷ bs) = from_bytes (acc * 256 + b) bs

-- The 16-bit integer at an offset.
unfoldable pub be16 : Bytes → ℕ → ℕ
be16 raw offset = from_bytes 0 (slice raw offset (offset + 2))

-- `n.to_bytes(2, "big")` of a number below 2^16.
abbrev pub two_bytes : ℕ → Bytes
two_bytes n = n / 256 ∷ n % 256 ∷ []

-- `n.to_bytes(2, "big")`; `none` is an OverflowError.
abbrev pub to_bytes2 : ℕ → Option Bytes
to_bytes2 n = if ltb n 65536 then some (two_bytes n) else none

pub text_eq_iff : (a b : Bytes) → (text_eq a b ≡ true) ↔ (a ≡ b)
text_eq_iff a b = (text_eq-eq a b, λ e. rw e (text_eq_self b))

instance abbrev pub bytes_eq : Eq Bytes
bytes_eq = record { beq = text_eq; beq_iff = text_eq_iff }

-- A value of the slice's size leaves the length as it is.
pub length-set_slice :
    (buf : Bytes) (a b : ℕ) (v : Bytes)
    → a ≤ b
    → b ≤ length buf
    → length v ≡ b - a
    → length (set_slice buf a b v) ≡ length buf
unfolding set_slice
length-set_slice buf a b v h k e = omega (
  arith,
  length-append (take a buf) (v ++ drop b buf),
  length-append v (drop b buf),
  length-take a buf,
  length-drop b buf,
)

-- What stands within a buffer does not change when bytes come behind it.
pub slice-append :
    (buf more : Bytes) (a b : ℕ) → a ≤ b → b ≤ length buf → slice (buf ++ more) a b ≡ slice buf a b
unfolding slice
slice-append buf more a b h k =
    rw (drop-append a buf more (omega arith))
      (take-append (b - a) (drop a buf) more (omega (arith, length-drop a buf)))

pub be16-append :
    (buf more : Bytes) (i : ℕ) → i + 2 ≤ length buf → be16 (buf ++ more) i ≡ be16 buf i
unfolding be16
be16-append buf more i h = rw (slice-append buf more i (i + 2) (omega arith) h) refl

sub-add : (a b : ℕ) → (a + b) - a ≡ b
sub-add a b = omega arith

zero_plus : (n : ℕ) → 0 + n ≡ n
zero_plus n = omega arith

suc_plus : (m n : ℕ) → suc m + n ≡ suc (m + n)
suc_plus m n = omega arith

-- The payload behind a header, and what follows it.
pub slice_payload :
    (header payload more : Bytes)
    → slice (header ++ (payload ++ more)) (length header) (length header + length payload) ≡ payload
unfolding slice
slice_payload header payload more = rw (drop-length header (payload ++ more)) (
    ap (λ n. take n (payload ++ more)) (sub-add (length header) (length payload))
    ∙ take-length payload more)

pub drop_payload :
    (header payload more : Bytes)
    → drop (length header + length payload) (header ++ (payload ++ more)) ≡ more
drop_payload [] payload more = rw (zero_plus (length payload)) (drop-length payload more)
drop_payload (h ∷ header) payload more =
    rw (suc_plus (length header) (length payload)) (drop_payload header payload more)

two_lem : (n : ℕ) → from_bytes 0 (two_bytes n) ≡ n
unfolding from_bytes
two_lem n = omega arith

-- The byte, and the 16-bit number, behind a header.
pub byte_behind :
    (header : Bytes) (b : ℕ) (rest : Bytes) → byte (header ++ b ∷ rest) (length header) ≡ b
byte_behind [] b rest = refl
byte_behind (h ∷ header) b rest = byte_behind header b rest

pub be16_behind :
    (header : Bytes) (n : ℕ) (rest : Bytes)
    → be16 (header ++ (two_bytes n ++ rest)) (length header) ≡ n
unfolding be16
be16_behind header n rest = ap (from_bytes 0) (slice_payload header (two_bytes n) rest) ∙ two_lem n
