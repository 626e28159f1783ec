-- ===== src/Protocols/Split.antt =====
-- The methods of Python's `bytes` and `str` that the HTTP parsers of netreplay/core/protocols call: `find`, `rfind`,
-- `split`, `partition`, `strip`, `lower` and `int`. Patterns are not empty. A Latin-1 text is its bytes.
pub mod Laws
use net_replay.Common.{
  ℕ, zero, suc, ◌+◌, ◌-◌, ◌*◌, Bool, true, false, ◌||◌, ◌&&◌, Option, none, some, List, [], ◌∷◌,
  ◌++◌, ltb, leb, ◌==◌, if◌then◌else◌, length, drop, map,
}
use net_replay.Replay.Bytes.{Bytes}
use net_replay.Replay.Mutation.{starts_with}

abbrev pub crlf : Bytes
crlf = 13 ∷ 10 ∷ []

-- `split(sep, 1)` where the separator occurs: what stands before it and behind it.
abbrev pub before : ℕ → Option (Bytes × Bytes) → Option (Bytes × Bytes)
before b none = none
before b (some (s, t)) = some (b ∷ s, t)

unfoldable pub split_once : Bytes → Bytes → Option (Bytes × Bytes)
split_once sep [] = none
split_once sep (b ∷ rest) =
    let later = before b (split_once sep rest) in
    if starts_with sep (b ∷ rest) then some ([], drop (length sep) (b ∷ rest)) else later

-- `split(sep, 1)[0]`
abbrev pub first_of : Bytes → Option (Bytes × Bytes) → Bytes
first_of whole none = whole
first_of whole (some (s, t)) = s

-- `sep in buf`
abbrev pub is_split : Option (Bytes × Bytes) → Bool
is_split none = false
is_split (some p) = true

abbrev pub onto_first : ℕ → List Bytes → List Bytes
onto_first b [] = (b ∷ []) ∷ []
onto_first b (p ∷ ps) = (b ∷ p) ∷ ps

-- `split(sep)`, past the next `skip` bytes of a separator.
unfoldable pub split : Bytes → ℕ → Bytes → List Bytes
split sep skip [] = [] ∷ []
split sep (suc skip) (b ∷ rest) = split sep skip rest
split sep zero (b ∷ rest) =
    let cut = [] ∷ split sep (length sep - 1) rest in
    let kept = onto_first b (split sep zero rest) in
    if starts_with sep (b ∷ rest) then cut else kept

-- `rfind`; `none` is -1.
abbrev pub last_or_here : Bool → Option ℕ → Option ℕ
last_or_here here (some i) = some (i + 1)
last_or_here true none = some 0
last_or_here false none = none

unfoldable pub rfind : Bytes → Bytes → Option ℕ
rfind pattern [] = none
rfind pattern (b ∷ rest) = last_or_here (starts_with pattern (b ∷ rest)) (rfind pattern rest)

-- What `bytes.strip` and `str.strip` take off, of the characters of Latin-1.
unfoldable pub is_byte_space : ℕ → Bool
is_byte_space c = leb 9 c && leb c 13 || c == 32

unfoldable pub is_latin_space : ℕ → Bool
is_latin_space c = is_byte_space c || leb 28 c && leb c 31 || c == 133 || c == 160

unfoldable pub lstrip : (ℕ → Bool) → Bytes → Bytes
lstrip space [] = []
lstrip space (c ∷ rest) = let later = lstrip space rest in if space c then later else c ∷ rest

abbrev pub unless_blank : Bool → ℕ → Bytes → Bytes
unless_blank true c [] = []
unless_blank true c (d ∷ rest) = c ∷ d ∷ rest
unless_blank false c rest = c ∷ rest

unfoldable pub rstrip : (ℕ → Bool) → Bytes → Bytes
rstrip space [] = []
rstrip space (c ∷ rest) = unless_blank (space c) c (rstrip space rest)

unfoldable pub strip : (ℕ → Bool) → Bytes → Bytes
strip space t = rstrip space (lstrip space t)

-- `bytes.lower`, and `str.lower` of Latin-1.
unfoldable pub byte_lower : ℕ → ℕ
byte_lower c = if leb b'A' c && leb c b'Z' then c + 32 else c

unfoldable pub latin_lower : ℕ → ℕ
latin_lower c = if leb 192 c && leb c 214 || leb 216 c && leb c 222 then c + 32 else byte_lower c

unfoldable pub is_digit : ℕ → Bool
is_digit c = leb b'0' c && leb c b'9'

abbrev pub all_digits : Bytes → Bool
all_digits [] = true
all_digits (c ∷ rest) = is_digit c && all_digits rest

-- `isdigit()`
unfoldable pub isdigit : Bytes → Bool
isdigit [] = false
isdigit (c ∷ rest) = all_digits (c ∷ rest)

-- `int` of digits.
unfoldable pub int_of_digits : ℕ → Bytes → ℕ
int_of_digits acc [] = acc
int_of_digits acc (c ∷ rest) = int_of_digits (acc * 10 + (c - 48)) rest

-- `negsuc n` is -(n + 1).
pub data ℤ : Type 0 where
  pos negsuc : ℕ → ℤ

-- The digits of `int(text)`, with single underscores between them; `none` is a ValueError.
unfoldable pub int_digits : Bool → ℕ → Bytes → Option ℕ
int_digits after_digit acc [] = if after_digit then some acc else none
int_digits after_digit acc (c ∷ rest) =
    let more = int_digits true (acc * 10 + (c - 48)) rest in
    let joined = int_digits false acc rest in
    if is_digit c then more else (if c == b'_' && after_digit then joined else none)

abbrev pub negated : Option ℕ → Option ℤ
negated none = none
negated (some zero) = some (pos 0)
negated (some (suc n)) = some (negsuc n)

abbrev pub as_int : Option ℕ → Option ℤ
as_int none = none
as_int (some n) = some (pos n)

-- `int(value)` of stripped bytes.
unfoldable pub parse_int : Bytes → Option ℤ
parse_int [] = none
parse_int (c ∷ rest) =
    if c == b'-'
    then negated (int_digits false 0 rest)
    else (if c == b'+'
        then as_int (int_digits false 0 rest)
        else as_int (int_digits false 0 (c ∷ rest)))
