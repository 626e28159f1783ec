-- ===== src/Sanitize/Session/Errors.antt =====
-- `sanitize_session` of netreplay/core/sanitize.py on a session with an address that is not an IPv4 address.
use mathlib.Core.Path.{subst}
use net_replay.Common.{
  ℕ, ◌≡◌, refl, ap, sym, ◌∙◌, true, Option, none, some, List, [], ◌∷◌, ◌++◌, Bool-cases, inl, inr,
}
use net_replay.Common.Dict.{Dict, lookup}
use net_replay.Common.Text.{text_eq, text_eq-eq}
use net_replay.Replay.Bytes.{Bytes, bytes_eq}
use net_replay.Replay.Address.{parse_mac, parse_ipv4, parse_entries, put_parsed}
use net_replay.Protocols.Hex.{Text}
use net_replay.Sanitize.{
  RedactionPolicy, Redactor, new_redactor, Patterns, from_hex, remap_config, config_from,
}
use net_replay.Sanitize.Tokens.{lookup_tail}
use net_replay.Sanitize.Session.{
  StoredPacket, SanitizedPacket, new_report, Endpoints, visit_all, visit_flows, finish, from_flows,
  rewrite_with, sanitize_session,
}
use net_replay.Sanitize.Session.Aliases.{
  IsAlias, Pairwise, Visited, visit_all-Visited, visit_flows-Grows,
}

-- The keys that are there are parsed, and one that does not parse raises.
next_entry :
    (k v : Option Bytes) (acc : Dict Bytes Bytes)
    (rest : Dict Bytes Bytes → Option (Dict Bytes Bytes))
    → ((acc' : Dict Bytes Bytes) → rest acc' ≡ none)
    → elim (put_parsed k v (some acc)) as (λ _. Option (Dict Bytes Bytes)) [
      | none ↦ none
      | some acc' ↦ rest acc'
    ]
      ≡ none
next_entry none v acc rest h = refl
next_entry (some k) none acc rest h = refl
next_entry (some k) (some v) acc rest h = h _

bad_entry :
    (k v : Option Bytes) (acc : Dict Bytes Bytes)
    (rest : Dict Bytes Bytes → Option (Dict Bytes Bytes))
    → k ≡ none
    → elim (put_parsed k v (some acc)) as (λ _. Option (Dict Bytes Bytes)) [
      | none ↦ none
      | some acc' ↦ rest acc'
    ]
      ≡ none
bad_entry none v acc rest h = refl
bad_entry (some k) v acc rest h = cc

parse_entries-unparsed :
    (key value : Text → Option Bytes) (d : Dict Text Text) (acc : Dict Bytes Bytes) (k t : Text)
    → key k ≡ none
    → lookup k d ≡ some t
    → parse_entries key value d acc ≡ none
unfolding parse_entries lookup
parse_entries-unparsed key value [] acc k t b e = cc
parse_entries-unparsed key value ((j, v) ∷ d) acc k t b e = elim (Bool-cases (text_eq j k)) [
  | inl x ↦
      bad_entry (key j) (value v) acc (parse_entries key value d) (ap key (text_eq-eq j k x) ∙ b)
  | inr x ↦
      next_entry (key j) (value v) acc (parse_entries key value d)
        (λ acc'. parse_entries-unparsed key value d acc' k t b (sym (lookup_tail j k v d x) ∙ e))
]

remap_config-unparsed :
    (r : Redactor) (k t : Text)
    → parse_ipv4 k ≡ none
    → lookup k r.ips ≡ some t
    → remap_config r ≡ none
unfolding remap_config
remap_config-unparsed r k t b e =
    ap (λ o. config_from o (parse_entries from_hex parse_mac r.macs []))
      (parse_entries-unparsed parse_ipv4 parse_ipv4 r.ips [] k t b e)

-- The source of a packet that was visited is in the dictionary.
abbrev HasKey : Text → Redactor → Type 0
HasKey k r = (t : Text) × (lookup k r.ips ≡ some t)

Pairwise-HasKey :
    (r : Redactor) (ps : List StoredPacket) (p : StoredPacket) (more : List StoredPacket)
    (qs : List SanitizedPacket) (c : ℕ) (cs : Text)
    → p.source ≡ some (c ∷ cs)
    → Pairwise r (ps ++ p ∷ more) qs
    → HasKey (c ∷ cs) r
Pairwise-HasKey r [] p more [] c cs e h = elim h [ ]
Pairwise-HasKey r [] p more (q ∷ qs) c cs e h =
    (q.source, subst (λ o. IsAlias r o q.source) e h.0.0)
Pairwise-HasKey r (p' ∷ ps) p more [] c cs e h = elim h [ ]
Pairwise-HasKey r (p' ∷ ps) p more (q ∷ qs) c cs e h = Pairwise-HasKey r ps p more qs c cs e h.1

from_flows-unparsed :
    (patterns : Patterns) (flows : List Endpoints) (events : List (Option Text)) (r0 : Redactor)
    (ps : List StoredPacket) (p : StoredPacket) (more : List StoredPacket) (c : ℕ) (cs : Text)
    (o : Option (List SanitizedPacket × Redactor))
    → r0.policy.redact_ips ≡ true
    → p.source ≡ some (c ∷ cs)
    → parse_ipv4 (c ∷ cs) ≡ none
    → Visited r0 (ps ++ p ∷ more) o
    → from_flows patterns flows events o ≡ none
from_flows-unparsed patterns flows events r0 ps p more c cs none h e b v = refl
from_flows-unparsed patterns flows events r0 ps p more c cs (some (qs, r)) h e b v =
    let (t, f) = Pairwise-HasKey r ps p more qs c cs e (v.1 h) in
    let (endpoints, report, r') = visit_flows flows new_report r in
    ap (λ o. finish patterns endpoints events r' (rewrite_with o qs report))
      (remap_config-unparsed r' (c ∷ cs) t b
        ((visit_flows-Grows flows new_report r).keeps_ips (c ∷ cs) t f))

-- With redaction of addresses, a session in which some packet has a source that `Ipv4Address.parse` refuses, as an IPv6
-- address, is not sanitized: an exception is raised, whatever else the session holds.
pub sanitize_session-unparsed :
    (patterns : Patterns) (policy : RedactionPolicy) (ps : List StoredPacket) (p : StoredPacket)
    (more : List StoredPacket) (flows : List Endpoints) (events : List (Option Text)) (c : ℕ)
    (cs : Text)
    → policy.redact_ips ≡ true
    → p.source ≡ some (c ∷ cs)
    → parse_ipv4 (c ∷ cs) ≡ none
    → sanitize_session patterns policy (ps ++ p ∷ more) flows events ≡ none
unfolding sanitize_session
sanitize_session-unparsed patterns policy ps p more flows events c cs h e b =
    from_flows-unparsed patterns flows events (new_redactor policy) ps p more c cs
      (visit_all (ps ++ p ∷ more) (new_redactor policy)) h e b
      (visit_all-Visited (ps ++ p ∷ more) (new_redactor policy))
