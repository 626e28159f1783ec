-- ===== src/Sanitize.antt =====
-- netreplay/core/sanitize.py: `Redactor`, `_observe_frame`. A text is its
-- code points; the two regular expressions are a parameter, and `none` is an exception.
pub mod Tokens
pub mod Growth
pub mod Session
mod Tests
use net_replay.Common.{
  ℕ, zero, suc, ◌+◌, ◌-◌, ◌*◌, ◌/◌, ◌%◌, Bool, true, false, not, ◌||◌, ◌&&◌, Option, none, some,
  List, [], ◌∷◌, ◌++◌, ltb, leb, ◌==◌, if◌then◌else◌, length, map,
}
use net_replay.Common.Dict.{Dict, Eq, lookup, insert}
use net_replay.Common.Text.{codes, text_eq}
use net_replay.Replay.Bytes.{Bytes, byte, slice, bytes_eq}
use net_replay.Replay.Remap.{RemapConfig, remap_frame}
use net_replay.Replay.Address.{parse_mac, parse_ipv4, hex_value, hex02, ipv4_text, parse_entries}
use net_replay.Protocols.Hex.{Text, hex_digits}
use net_replay.Protocols.Tls.{decimal}

pub record RedactionPolicy : Type 0 where
  pub redact_ips : Bool
  pub redact_macs : Bool
  pub redact_domains : Bool

pub record Redactor : Type 0 where
  pub policy : RedactionPolicy
  pub ips : Dict Text Text
  pub macs : Dict Text Text
  pub domains : Dict Text Text

abbrev pub new_redactor : RedactionPolicy → Redactor
new_redactor policy = record { policy = policy; ips = []; macs = []; domains = [] }

-- The tokens by index: `f"10.255.{index // 256}.{index % 256}"` and the others; `f"{n:02x}"` of any number.
unfoldable pub ip_token : ℕ → Text
ip_token index = codes "10.255." ++ decimal (index / 256) ++ b'.' ∷ decimal (index % 256)

unfoldable pub hex_padded : ℕ → Text
hex_padded n = if ltb n 256 then hex02 n else hex_digits b'a' (suc n) n []

unfoldable pub mac_token : ℕ → Text
mac_token index =
    codes "02:00:00:00:" ++ hex_padded (index / 256) ++ b':' ∷ hex_padded (index % 256)

unfoldable pub domain_token : ℕ → Text
domain_token index = codes "host-" ++ decimal index ++ codes ".example"

-- `if key not in d: d[key] = token(len(d))`, and then `d[key]`.
abbrev pub token_of : (ℕ → Text) → Dict Text Text → Option Text → Text
token_of token d none = token (length d)
token_of token d (some t) = t

abbrev pub noted : (ℕ → Text) → Text → Dict Text Text → Option Text → Dict Text Text
noted token key d none = insert key (token (length d)) d
noted token key d (some t) = d

unfoldable pub pseudonym : (ℕ → Text) → Text → Dict Text Text → Text
pseudonym token key d = token_of token d (lookup key d)

unfoldable pub note : (ℕ → Text) → Text → Dict Text Text → Dict Text Text
note token key d = noted token key d (lookup key d)

-- `ip`
unfoldable pub redact_ip : Option Text → Redactor → Option Text × Redactor
redact_ip none r = (none, r)
redact_ip (some []) r = (some [], r)
redact_ip (some (c ∷ cs)) r =
    if r.policy.redact_ips
    then (some (pseudonym ip_token (c ∷ cs) r.ips), record r { ips = note ip_token (c ∷ cs) r.ips })
    else (some (c ∷ cs), r)

-- `raw.hex()`, and `bytes.fromhex` of digits without spaces.
unfoldable pub hex_key : Bytes → Text
hex_key [] = []
hex_key (b ∷ raw) = hex02 b ++ hex_key raw

abbrev pub byte_from : Option ℕ → Option ℕ → Option Bytes → Option Bytes
byte_from (some h) (some l) (some bs) = some ((h * 16 + l) ∷ bs)
byte_from _ _ _ = none

unfoldable pub from_hex : Text → Option Bytes
from_hex [] = some []
from_hex (h ∷ []) = none
from_hex (h ∷ l ∷ rest) = byte_from (hex_value h) (hex_value l) (from_hex rest)

-- `mac`: the result, unless its parsing raises, and the redactor.
unfoldable pub redact_mac : Bytes → Redactor → Option Bytes × Redactor
redact_mac raw r =
    if r.policy.redact_macs
    then (
      parse_mac (pseudonym mac_token (hex_key raw) r.macs),
      record r { macs = note mac_token (hex_key raw) r.macs },
    )
    else (some raw, r)

-- `domain`
unfoldable pub redact_domain : Text → Redactor → Text × Redactor
redact_domain value r =
    if r.policy.redact_domains
    then (
      pseudonym domain_token value r.domains,
      record r { domains = note domain_token value r.domains },
    )
    else (value, r)

-- How a regular expression cuts a text: what lies between its matches, and the matches.
pub data Piece : Type 0 where
  between matched : Text → Piece

pub record Patterns : Type 0 where
  pub hosts : Text → List Piece
  pub addresses : Text → List Piece

-- `sub` with a function that takes the redactor along.
unfoldable pub sub : (Text → Redactor → Text × Redactor) → List Piece → Redactor → Text × Redactor
sub f [] r = ([], r)
sub f (between t ∷ ps) r = let (rest, r') = sub f ps r in (t ++ rest, r')
sub f (matched t ∷ ps) r = let (s, r') = f t r in let (rest, r'') = sub f ps r' in (s ++ rest, r'')

-- `self.ip(m.group(1)) or m.group(1)`
abbrev pub or_same : Text → Option Text → Text
or_same t none = t
or_same t (some []) = t
or_same t (some (c ∷ cs)) = c ∷ cs

abbrev pub sub_ip : Text → Redactor → Text × Redactor
sub_ip t r = let (s, r') = redact_ip (some t) r in (or_same t s, r')

-- `text`
unfoldable pub redact_text : Patterns → Option Text → Redactor → Option Text × Redactor
redact_text patterns none r = (none, r)
redact_text patterns (some value) r =
    let (s, r1) =
      if r.policy.redact_domains then sub redact_domain (patterns.hosts value) r else (value, r) in
    let (t, r2) = if r.policy.redact_ips then sub sub_ip (patterns.addresses s) r1 else (s, r1) in
    (some t, r2)

-- `counts`
abbrev pub counts : Redactor → ℕ × (ℕ × ℕ)
counts r = (length r.ips, (length r.macs, length r.domains))

-- `remap_config`: every address that was seen and its token, parsed.
abbrev pub config_from : Option (Dict Bytes Bytes) → Option (Dict Bytes Bytes) → Option RemapConfig
config_from (some ip_map) (some mac_map) =
    some (record { mac_map = mac_map; ip_map = ip_map; port_map = [] })
config_from _ _ = none

unfoldable pub remap_config : Redactor → Option RemapConfig
remap_config r =
    config_from (parse_entries parse_ipv4 parse_ipv4 r.ips [])
      (parse_entries from_hex parse_mac r.macs [])

-- `_observe_frame`: the redactor after it.
abbrev pub observe_mac : Bytes → Redactor → Option Redactor
observe_mac raw r = let (m, r') = redact_mac raw r in elim m [ none ↦ none | some token ↦ some r' ]

abbrev pub observe_macs : Bytes → Redactor → Option Redactor
observe_macs raw r = elim (observe_mac (slice raw 0 6) r) [
  | none ↦ none
  | some r' ↦ observe_mac (slice raw 6 12) r'
]

abbrev pub observe_ips : Bytes → Redactor → Redactor
observe_ips raw r =
    (redact_ip (some (ipv4_text (slice raw 30 34)))
      (redact_ip (some (ipv4_text (slice raw 26 30))) r).1).1

unfoldable pub observe_frame : Bytes → Redactor → Option Redactor
observe_frame raw r =
    if ltb (length raw) 14
    then some r
    else (let macs = if r.policy.redact_macs then observe_macs raw r else some r in
        let with_ips =
          leb 34 (length raw) && text_eq (slice raw 12 14) (8 ∷ 0 ∷ []) && r.policy.redact_ips in
        if with_ips then elim macs [ none ↦ none | some r' ↦ some (observe_ips raw r') ] else macs)
