-- ===== src/Sanitize/Tests.antt =====
-- The theorems on netreplay/core/sanitize.py at small sessions.
use net_replay.Common.{◌≡◌, refl, true, false, none, some, List, [], ◌∷◌, ◌++◌, arith}
use net_replay.Common.Dict.{lookup, insert}
use net_replay.Common.Text.{codes}
use net_replay.Replay.Bytes.{Bytes, bytes_eq}
use net_replay.Replay.Mutation.{starts_with}
use net_replay.Replay.Address.{parse_ipv4, bytes_of}
use net_replay.Protocols.Hex.{Text}
use net_replay.Protocols.Split.{
  split, parse_int, strip, rstrip, lstrip, is_latin_space, is_byte_space, int_digits, is_digit,
}
use net_replay.Filter.Eval.{digits}
use net_replay.Sanitize.{
  RedactionPolicy, Redactor, Patterns, between, redact_ip, pseudonym, note, ip_token, observe_frame,
}
use net_replay.Sanitize.Session.{
  StoredPacket, SanitizedPacket, Sanitized, visit, visit_all, sanitize_session,
}
use net_replay.Sanitize.Session.Aliases.{Pairwise, visit_all-aliases}
use net_replay.Sanitize.Session.Errors.{sanitize_session-unparsed}

abbrev everything : RedactionPolicy
everything = record { redact_ips = true; redact_macs = true; redact_domains = true }

abbrev only_ips : RedactionPolicy
only_ips = record { redact_ips = true; redact_macs = false; redact_domains = false }

-- Patterns that match nothing.
abbrev no_matches : Patterns
no_matches = record { hosts = λ t. between t ∷ []; addresses = λ t. between t ∷ [] }

abbrev ping : StoredPacket
ping = record {
  source = some (codes "10.0.0.1");
  destination = some (codes "10.0.0.2");
  raw = 1 ∷ 2 ∷ [];
}

abbrev pong : StoredPacket
pong = record {
  source = some (codes "10.0.0.2");
  destination = some (codes "10.0.0.1");
  raw = 3 ∷ [];
}

abbrev six : StoredPacket
six = record { source = some (codes "fe80::1"); destination = none; raw = [] }

sanitize_session-unparsed_example :
    sanitize_session no_matches everything
      ((ping ∷ []) ++ six ∷ pong ∷ [])
      []
      (some (codes "DNS") ∷ [])
    ≡ none
unfolding parse_ipv4 bytes_of split starts_with parse_int strip rstrip lstrip is_latin_space
    is_byte_space int_digits is_digit
sanitize_session-unparsed_example =
    sanitize_session-unparsed no_matches everything (ping ∷ []) six (pong ∷ []) []
      (some (codes "DNS") ∷ []) b'f' (codes "e80::1") refl refl refl

abbrev hidden : Text → Text → Bytes → SanitizedPacket
hidden source destination raw = record { source = source; destination = destination; raw = raw }

abbrev both : Redactor
both = record {
  policy = only_ips;
  ips = (codes "10.0.0.1", codes "10.255.0.0") ∷ (codes "10.0.0.2", codes "10.255.0.1") ∷ [];
  macs = [];
  domains = [];
}

abbrev hidden_packets : List SanitizedPacket
hidden_packets =
    hidden (codes "10.255.0.0") (codes "10.255.0.1") (1 ∷ 2 ∷ [])
    ∷ hidden (codes "10.255.0.1") (codes "10.255.0.0") (3 ∷ [])
    ∷ []

visit_all-aliases_example :
    Pairwise both (ping ∷ pong ∷ []) hidden_packets
    × ((a b s : Text) → lookup a both.ips ≡ some s → lookup b both.ips ≡ some s → a ≡ b)
unfolding visit_all visit observe_frame redact_ip pseudonym note lookup insert ip_token digits
visit_all-aliases_example =
    visit_all-aliases only_ips (ping ∷ pong ∷ []) hidden_packets both refl refl (omega arith)

abbrev copied : Sanitized
copied = record {
  flows = (codes "10.255.0.0", codes "10.255.0.1") ∷ [];
  packets = hidden_packets;
  events = codes "DNS" ∷ [];
  report = record {
    flows = 1;
    packets = 2;
    events = 1;
    ips_redacted = 2;
    macs_redacted = 0;
    domains_redacted = 0;
  };
}
