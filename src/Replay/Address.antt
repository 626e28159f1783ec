-- ===== src/Replay/Address.antt =====
-- `MacAddress`, `Ipv4Address` and `RemapConfig.build` of netreplay/core/replay/remap.py. A text is its code points, below
-- 128; `none` is the ValueError. A map that is None is empty, and the keys of the map of ports are natural numbers.
pub mod Laws
pub mod RoundTrip
use net_replay.Common.{
  ℕ, zero, suc, ◌+◌, ◌-◌, ◌*◌, ◌/◌, ◌%◌, Bool, true, false, ◌||◌, ◌&&◌, Option, none, some, List,
  [], ◌∷◌, ◌++◌, ltb, leb, ◌==◌, if◌then◌else◌, length, map,
}
use net_replay.Common.Dict.{Dict, Eq, insert, nat_eq}
use net_replay.Replay.Bytes.{Bytes, bytes_eq}
use net_replay.Replay.Remap.{RemapConfig}
use net_replay.Protocols.Hex.{Text, hex_digit}
use net_replay.Protocols.Split.{
  split, strip, is_latin_space, byte_lower, is_digit, ℤ, pos, negsuc, negated, as_int, parse_int,
}
use net_replay.Protocols.Tls.{decimal}

-- A hexadecimal digit of a lowered text.
unfoldable pub hex_value : ℕ → Option ℕ
hex_value c =
    if is_digit c then some (c - 48) else (if leb b'a' c && leb c b'f' then some (c - 87) else none)

-- The digits of `int(text, 16)`, with single underscores between them.
unfoldable pub hex_number : Bool → ℕ → Text → Option ℕ
hex_number after_digit acc [] = if after_digit then some acc else none
hex_number after_digit acc (c ∷ rest) =
    let joined = hex_number false acc rest in
    elim (hex_value c) [
      | some d ↦ hex_number true (acc * 16 + d) rest
      | none ↦ if c == b'_' && after_digit then joined else none
    ]

-- The prefix `0x`, which an underscore may follow, is passed over.
unfoldable pub without_prefix : Text → Text
without_prefix [] = []
without_prefix (a ∷ []) = a ∷ []
without_prefix (a ∷ b ∷ []) = if a == b'0' && b == b'x' then [] else a ∷ b ∷ []
without_prefix (a ∷ b ∷ c ∷ rest) =
    if a == b'0' && b == b'x' then (if c == b'_' then rest else c ∷ rest) else a ∷ b ∷ c ∷ rest

-- `int(p, 16)`
unfoldable pub signed_hex : Text → Option ℤ
signed_hex [] = none
signed_hex (c ∷ rest) =
    if c == b'-'
    then negated (hex_number false 0 (without_prefix rest))
    else (if c == b'+'
        then as_int (hex_number false 0 (without_prefix rest))
        else as_int (hex_number false 0 (without_prefix (c ∷ rest))))

unfoldable pub parse_hex : Text → Option ℤ
parse_hex p = signed_hex (strip is_latin_space p)

-- `bytes(…)` of the numbers: each must be there and be a byte.
abbrev pub byte_and : Option ℤ → Option Bytes → Option Bytes
byte_and (some (pos n)) (some bs) = if ltb n 256 then some (n ∷ bs) else none
byte_and _ _ = none

unfoldable pub bytes_of : List (Option ℤ) → Option Bytes
bytes_of [] = some []
bytes_of (n ∷ ns) = byte_and n (bytes_of ns)

-- `.lower().replace("-", ":")`, character by character.
unfoldable pub tidied : ℕ → ℕ
tidied c = if byte_lower c == b'-' then b':' else byte_lower c

-- `MacAddress.parse` and `Ipv4Address.parse`
unfoldable pub parse_mac : Text → Option Bytes
parse_mac text =
    let parts = split (b':' ∷ []) 0 (map tidied (strip is_latin_space text)) in
    if length parts == 6 then bytes_of (map parse_hex parts) else none

-- What `struct` takes: four bytes.
abbrev pub four_bytes : Option Bytes → Option Bytes
four_bytes none = none
four_bytes (some raw) = if length raw == 4 then some raw else none

unfoldable pub parse_ipv4 : Text → Option Bytes
parse_ipv4 text =
    four_bytes (bytes_of (map (λ p. parse_int (strip is_latin_space p)) (split (b'.' ∷ []) 0 text)))

-- `sep.join(parts)`
unfoldable pub join : ℕ → List Text → Text
join sep [] = []
join sep (p ∷ []) = p
join sep (p ∷ q ∷ ps) = p ++ sep ∷ join sep (q ∷ ps)

-- `f"{b:02x}"` of a byte, and the two `__str__`.
unfoldable pub hex02 : ℕ → Text
hex02 b = hex_digit b'a' (b / 16) ∷ hex_digit b'a' (b % 16) ∷ []

unfoldable pub mac_text : Bytes → Text
mac_text raw = join b':' (map hex02 raw)

unfoldable pub ipv4_text : Bytes → Text
ipv4_text raw = join b'.' (map decimal raw)

-- A dict comprehension that parses keys and values: a later entry replaces an earlier one with its key.
abbrev pub put_parsed :
    Option Bytes → Option Bytes → Option (Dict Bytes Bytes) → Option (Dict Bytes Bytes)
put_parsed (some k) (some v) (some d) = some (insert k v d)
put_parsed _ _ _ = none

unfoldable pub parse_entries :
    (Text → Option Bytes)
    → (Text → Option Bytes)
    → Dict Text Text
    → Dict Bytes Bytes
    → Option (Dict Bytes Bytes)
parse_entries key value [] acc = some acc
parse_entries key value ((k, v) ∷ entries) acc = elim (put_parsed (key k) (value v) (some acc)) [
  | none ↦ none
  | some d ↦ parse_entries key value entries d
]

-- The range check over the values of `ports`.
unfoldable pub ports_in_range : Dict ℕ ℤ → Option (Dict ℕ ℕ)
ports_in_range [] = some []
ports_in_range ((k, negsuc n) ∷ ports) = none
ports_in_range ((k, pos n) ∷ ports) =
    let rest = ports_in_range ports in
    if leb n 65535 then elim rest [ none ↦ none | some d ↦ some ((k, n) ∷ d) ] else none

-- `RemapConfig.build`
abbrev pub config_of :
    Option (Dict Bytes Bytes) → Option (Dict Bytes Bytes) → Option (Dict ℕ ℕ) → Option RemapConfig
config_of (some macs) (some ips) (some ports) =
    some (record { mac_map = macs; ip_map = ips; port_map = ports })
config_of _ _ _ = none

unfoldable pub build : Dict Text Text → Dict Text Text → Dict ℕ ℤ → Option RemapConfig
build mac_map ip_map port_map =
    config_of (parse_entries parse_mac parse_mac mac_map [])
      (parse_entries parse_ipv4 parse_ipv4 ip_map []) (ports_in_range port_map)
