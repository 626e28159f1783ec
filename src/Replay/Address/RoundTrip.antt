-- ===== src/Replay/Address/RoundTrip.antt =====
-- `MacAddress.parse` and `Ipv4Address.parse` of netreplay/core/replay/remap.py on what the two `__str__` print.
use net_replay.Common.{
  ℕ, zero, suc, ◌<◌, ◌≡◌, refl, ap, ◌∙◌, Bool, true, false, not, ◌&&◌, Option, none, some, [], ◌∷◌,
  ◌++◌, ◌==◌, ==_iff, if◌then◌else◌, map, arith, All, Bool-cases, inl, inr,
}
use net_replay.Replay.Bytes.{Bytes}
use net_replay.Replay.Mutation.{starts_with}
use net_replay.Protocols.Hex.{Text}
use net_replay.Protocols.Split.{
  split, strip, lstrip, rstrip, is_latin_space, is_byte_space, byte_lower, is_digit, int_digits, ℤ,
  pos, negsuc, parse_int,
}
use net_replay.Protocols.Tls.{decimal}
use net_replay.Filter.Eval.{digits}
use net_replay.Replay.Address.{
  hex_value, hex_number, without_prefix, signed_hex, parse_hex, byte_and, bytes_of, tidied,
  parse_mac, four_bytes, parse_ipv4, join, hex02, mac_text, ipv4_text,
}

abbrev all_below : ℕ → (ℕ → Bool) → Bool
all_below zero test = true
all_below (suc n) test = let rest = all_below n test in if test n then rest else false

all_below_sound : (n k : ℕ) (test : ℕ → Bool) → all_below n test ≡ true → k < n → test k ≡ true
all_below_sound zero k test h l = elim l [ ]
all_below_sound (suc n) k test h l = elim (Bool-cases (k == n)) [
  | inl e ↦ rw ((==_iff k n).0 e) ground arith
  | inr e ↦ all_below_sound n k test (ground arith) (ground arith)
]

-- No character of the text is the separator; every character is left alone by `strip` and by the tidying.
abbrev pub avoids : ℕ → Text → Bool
avoids sep [] = true
avoids sep (c ∷ t) = let rest = avoids sep t in if sep == c then false else rest

abbrev plain_char : ℕ → Bool
plain_char c = not (is_latin_space c) && tidied c == c

abbrev plain : Text → Bool
plain [] = true
plain (c ∷ t) = let rest = plain t in if plain_char c then rest else false

split-part :
    (sep : ℕ) (p rest : Text)
    → avoids sep p ≡ true
    → split (sep ∷ []) 0 (p ++ sep ∷ rest) ≡ p ∷ split (sep ∷ []) 0 rest
unfolding split starts_with
split-part sep [] rest h = ground arith
split-part sep (c ∷ p) rest h = ground (arith, split-part sep p rest)

split-last : (sep : ℕ) (p : Text) → avoids sep p ≡ true → split (sep ∷ []) 0 p ≡ p ∷ []
unfolding split starts_with
split-last sep [] h = refl
split-last sep (c ∷ p) h = ground (arith, split-last sep p)

-- A number that a text stands for.
abbrev reads : Option ℤ → ℕ → Bool
reads none k = false
reads (some (negsuc n)) k = false
reads (some (pos n)) k = n == k

abbrev good_decimal : ℕ → Bool
good_decimal k = avoids b'.' (decimal k) && reads (parse_int (strip is_latin_space (decimal k))) k

abbrev good_hex : ℕ → Bool
good_hex k = avoids b':' (hex02 k) && plain (hex02 k) && reads (parse_hex (hex02 k)) k

all_good_decimal : all_below 256 good_decimal ≡ true
unfolding is_latin_space is_byte_space strip lstrip rstrip is_digit int_digits parse_int digits
all_good_decimal = refl

all_good_hex : all_below 256 good_hex ≡ true
unfolding is_latin_space is_byte_space strip lstrip rstrip is_digit hex02 parse_hex signed_hex
    hex_number hex_value without_prefix tidied byte_lower
all_good_hex = refl

-- What the printed parts are.
decimal-reads : (k : ℕ) → k < 256 → reads (parse_int (strip is_latin_space (decimal k))) k ≡ true
decimal-reads k h = ground (arith, all_below_sound 256 k good_decimal all_good_decimal h)

decimal-avoids : (k : ℕ) → k < 256 → avoids b'.' (decimal k) ≡ true
decimal-avoids k h = ground (arith, all_below_sound 256 k good_decimal all_good_decimal h)

hex02-reads : (k : ℕ) → k < 256 → reads (parse_hex (hex02 k)) k ≡ true
hex02-reads k h = ground (arith, all_below_sound 256 k good_hex all_good_hex h)

hex02-avoids : (k : ℕ) → k < 256 → avoids b':' (hex02 k) ≡ true
hex02-avoids k h = ground (arith, all_below_sound 256 k good_hex all_good_hex h)

hex02-plain : (k : ℕ) → k < 256 → plain (hex02 k) ≡ true
hex02-plain k h = ground (arith, all_below_sound 256 k good_hex all_good_hex h)

abbrev pub IsBytes : Bytes → Type 0
IsBytes raw = All (λ b. b < 256) raw

byte_and-reads :
    (o : Option ℤ) (k : ℕ) (raw : Bytes)
    → k < 256
    → reads o k ≡ true
    → byte_and o (some raw) ≡ some (k ∷ raw)
byte_and-reads none k raw l h = cc
byte_and-reads (some (negsuc n)) k raw l h = cc
byte_and-reads (some (pos n)) k raw l h = ground arith

-- Parsing the printed parts gives the bytes back.
bytes_of-printed :
    (print : ℕ → Text) (read : Text → Option ℤ) (raw : Bytes)
    → ((k : ℕ) → k < 256 → reads (read (print k)) k ≡ true)
    → IsBytes raw
    → bytes_of (map read (map print raw)) ≡ some raw
unfolding bytes_of
bytes_of-printed print read [] h b = refl
bytes_of-printed print read (k ∷ raw) h b =
    ap (byte_and (read (print k))) (bytes_of-printed print read raw h b.1)
    ∙ byte_and-reads (read (print k)) k raw b.0 (h k b.0)

split-join :
    (sep : ℕ) (print : ℕ → Text) (k : ℕ) (raw : Bytes)
    → ((j : ℕ) → j < 256 → avoids sep (print j) ≡ true)
    → k < 256
    → IsBytes raw
    → split (sep ∷ []) 0 (join sep (map print (k ∷ raw))) ≡ map print (k ∷ raw)
unfolding join
split-join sep print k [] h l b = split-last sep (print k) (h k l)
split-join sep print k (j ∷ raw) h l b =
    split-part sep (print k) (join sep (map print (j ∷ raw))) (h k l)
    ∙ ap (λ ps. print k ∷ ps) (split-join sep print j raw h b.0 b.1)

plain-append : (s t : Text) → plain s ≡ true → plain t ≡ true → plain (s ++ t) ≡ true
plain-append [] t h k = k
plain-append (c ∷ s) t h k = ground (arith, plain-append s t)

plain_colon : (t : Text) → plain t ≡ true → plain (b':' ∷ t) ≡ true
unfolding is_latin_space is_byte_space tidied byte_lower
plain_colon t h = h

plain-join :
    (k : ℕ) (raw : Bytes) → k < 256 → IsBytes raw → plain (join b':' (map hex02 (k ∷ raw))) ≡ true
unfolding join
plain-join k [] l b = hex02-plain k l
plain-join k (j ∷ raw) l b =
    plain-append (hex02 k) (b':' ∷ join b':' (map hex02 (j ∷ raw))) (hex02-plain k l)
      (plain_colon (join b':' (map hex02 (j ∷ raw))) (plain-join j raw b.0 b.1))

map-tidied : (t : Text) → plain t ≡ true → map tidied t ≡ t
map-tidied [] h = refl
map-tidied (c ∷ t) h = ground (arith, map-tidied t)

lstrip-plain : (t : Text) → plain t ≡ true → lstrip is_latin_space t ≡ t
unfolding lstrip
lstrip-plain [] h = refl
lstrip-plain (c ∷ t) h = ground arith

rstrip-plain : (t : Text) → plain t ≡ true → rstrip is_latin_space t ≡ t
unfolding rstrip
rstrip-plain [] h = refl
rstrip-plain (c ∷ t) h = ground (arith, rstrip-plain t)

strip-plain : (t : Text) → plain t ≡ true → strip is_latin_space t ≡ t
unfolding strip
strip-plain t h = ap (rstrip is_latin_space) (lstrip-plain t h) ∙ rstrip-plain t h

pub parse_ipv4-ipv4_text :
    (a b c d : ℕ)
    → IsBytes (a ∷ b ∷ c ∷ d ∷ [])
    → parse_ipv4 (ipv4_text (a ∷ b ∷ c ∷ d ∷ [])) ≡ some (a ∷ b ∷ c ∷ d ∷ [])
unfolding parse_ipv4 ipv4_text
parse_ipv4-ipv4_text a b c d h =
    ap (λ ps. four_bytes (bytes_of (map (λ p. parse_int (strip is_latin_space p)) ps)))
      (split-join b'.' decimal a (b ∷ c ∷ d ∷ []) decimal-avoids h.0 h.1)
    ∙ ap four_bytes (
        bytes_of-printed decimal (λ p. parse_int (strip is_latin_space p)) (a ∷ b ∷ c ∷ d ∷ [])
          decimal-reads h)

pub parse_mac-mac_text :
    (a b c d e f : ℕ)
    → IsBytes (a ∷ b ∷ c ∷ d ∷ e ∷ f ∷ [])
    → parse_mac (mac_text (a ∷ b ∷ c ∷ d ∷ e ∷ f ∷ [])) ≡ some (a ∷ b ∷ c ∷ d ∷ e ∷ f ∷ [])
unfolding parse_mac mac_text
parse_mac-mac_text a b c d e f h =
    let raw = a ∷ b ∷ c ∷ d ∷ e ∷ f ∷ [] in
    let text = join b':' (map hex02 raw) in
    let p = plain-join a (b ∷ c ∷ d ∷ e ∷ f ∷ []) h.0 h.1 in
    rw
      (
        strip-plain text p,
        map-tidied text p,
        split-join b':' hex02 a (b ∷ c ∷ d ∷ e ∷ f ∷ []) hex02-avoids h.0 h.1,
      )
      (bytes_of-printed hex02 parse_hex raw hex02-reads h)

-- Parsing what `__str__` prints of a MAC address of six bytes, or of an IPv4 address of four, gives the address back.
pub parse_printed :
    (a b c d e f : ℕ)
    → IsBytes (a ∷ b ∷ c ∷ d ∷ e ∷ f ∷ [])
    → (parse_mac (mac_text (a ∷ b ∷ c ∷ d ∷ e ∷ f ∷ [])) ≡ some (a ∷ b ∷ c ∷ d ∷ e ∷ f ∷ []))
      × (parse_ipv4 (ipv4_text (a ∷ b ∷ c ∷ d ∷ [])) ≡ some (a ∷ b ∷ c ∷ d ∷ []))
parse_printed a b c d e f h = (
  parse_mac-mac_text a b c d e f h,
  parse_ipv4-ipv4_text a b c d (h.0, (h.1.0, (h.1.1.0, (h.1.1.1.0, tt)))),
)
