-- ===== src/Sanitize/Session.antt =====
-- `sanitize_session` of netreplay/core/sanitize.py between the two databases: the rows that are read are lists, and so are
-- those that are written. Of a row the fields that are rewritten are kept, the others are copied by the code.
pub mod Aliases
pub mod Copies
pub mod Errors
pub mod Sizes
use net_replay.Common.{ℕ, Bool, Option, none, some, List, [], ◌∷◌, ◌+◌}
use net_replay.Replay.Bytes.{Bytes}
use net_replay.Replay.Remap.{RemapConfig, remap_frame}
use net_replay.Protocols.Hex.{Text}
use net_replay.Sanitize.{
  RedactionPolicy, Redactor, new_redactor, Patterns, redact_ip, redact_text, remap_config, counts,
  observe_frame,
}

-- A packet and its frame; a flow's two addresses.
pub record StoredPacket : Type 0 where
  pub source : Option Text
  pub destination : Option Text
  pub raw : Bytes

abbrev pub Endpoints : Type 0
Endpoints = Option Text × Option Text

pub record SanitizedPacket : Type 0 where
  pub source : Text
  pub destination : Text
  pub raw : Bytes

pub record SanitizeReport : Type 0 where
  pub flows : ℕ
  pub packets : ℕ
  pub events : ℕ
  pub ips_redacted : ℕ
  pub macs_redacted : ℕ
  pub domains_redacted : ℕ

pub record Sanitized : Type 0 where
  pub flows : List (Text × Text)
  pub packets : List SanitizedPacket
  pub events : List Text
  pub report : SanitizeReport

-- `redactor.ip(value) or ""`
abbrev pub or_empty : Option Text → Text
or_empty none = []
or_empty (some t) = t

abbrev pub alias : Option Text → Redactor → Text × Redactor
alias value r = let (s, r') = redact_ip value r in (or_empty s, r')

-- The two calls whose results are dropped, and the two that fill the packet.
abbrev pub visit_endpoints : StoredPacket → Redactor → SanitizedPacket × Redactor
visit_endpoints p r =
    let r1 = (redact_ip p.source r).1 in
    let r2 = (redact_ip p.destination r1).1 in
    let (source, r3) = alias p.source r2 in
    let (destination, r4) = alias p.destination r3 in
    (record { source = source; destination = destination; raw = p.raw }, r4)

-- One round of the first loop, and the loop.
abbrev pub observed : StoredPacket → Option Redactor → Option (SanitizedPacket × Redactor)
observed p none = none
observed p (some r) = some (visit_endpoints p r)

unfoldable pub visit : StoredPacket → Redactor → Option (SanitizedPacket × Redactor)
visit p r = observed p (observe_frame p.raw r)

abbrev pub onto :
    SanitizedPacket
    → Option (List SanitizedPacket × Redactor)
    → Option (List SanitizedPacket × Redactor)
onto p none = none
onto p (some (ps, r)) = some (p ∷ ps, r)

abbrev pub go_on :
    (Redactor → Option (List SanitizedPacket × Redactor))
    → Option (SanitizedPacket × Redactor)
    → Option (List SanitizedPacket × Redactor)
go_on rest none = none
go_on rest (some (p, r)) = onto p (rest r)

unfoldable pub visit_all : List StoredPacket → Redactor → Option (List SanitizedPacket × Redactor)
visit_all [] r = some ([], r)
visit_all (p ∷ ps) r = go_on (visit_all ps) (visit p r)

abbrev pub new_report : SanitizeReport
new_report = record {
  flows = 0;
  packets = 0;
  events = 0;
  ips_redacted = 0;
  macs_redacted = 0;
  domains_redacted = 0;
}

-- `report.flows += 1`, `report.packets += 1` and `report.events += 1`
abbrev pub count_flow : SanitizeReport → SanitizeReport
count_flow report = record report { flows = report.flows + 1 }

abbrev pub count_packet : SanitizeReport → SanitizeReport
count_packet report = record report { packets = report.packets + 1 }

abbrev pub count_event : SanitizeReport → SanitizeReport
count_event report = record report { events = report.events + 1 }

-- The loop over the flows.
unfoldable pub visit_flows :
    List Endpoints → SanitizeReport → Redactor → List (Text × Text) × SanitizeReport × Redactor
visit_flows [] report r = ([], report, r)
visit_flows ((s, d) ∷ flows) report r =
    let (source, r1) = alias s r in
    let (destination, r2) = alias d r1 in
    let (rest, report', r3) = visit_flows flows (count_flow report) r2 in
    ((source, destination) ∷ rest, report', r3)

-- The loop that rewrites the frames.
abbrev pub with_raw :
    SanitizedPacket
    → Option Bytes
    → Option (List SanitizedPacket × SanitizeReport)
    → Option (List SanitizedPacket × SanitizeReport)
with_raw p (some raw) (some (ps, report)) = some (record p { raw = raw } ∷ ps, report)
with_raw p _ _ = none

unfoldable pub rewrite_all :
    RemapConfig
    → List SanitizedPacket
    → SanitizeReport
    → Option (List SanitizedPacket × SanitizeReport)
rewrite_all config [] report = some ([], report)
rewrite_all config (p ∷ ps) report =
    with_raw p (remap_frame p.raw config) (rewrite_all config ps (count_packet report))

-- The loop over the events, and their summaries.
unfoldable pub visit_events :
    Patterns
    → List (Option Text)
    → SanitizeReport
    → Redactor
    → List Text × SanitizeReport × Redactor
visit_events patterns [] report r = ([], report, r)
visit_events patterns (e ∷ events) report r =
    let (summary, r1) = redact_text patterns e r in
    let (rest, report', r2) = visit_events patterns events (count_event report) r1 in
    (or_empty summary ∷ rest, report', r2)

-- `ips, macs, domains = redactor.counts` and the three assignments after it.
abbrev pub with_counts : SanitizeReport → Redactor → SanitizeReport
with_counts report r = record report {
  ips_redacted = (counts r).0;
  macs_redacted = (counts r).1.0;
  domains_redacted = (counts r).1.1;
}

-- From the rewriting of the frames on, and from the flows on.
abbrev pub finish :
    Patterns
    → List (Text × Text)
    → List (Option Text)
    → Redactor
    → Option (List SanitizedPacket × SanitizeReport)
    → Option Sanitized
finish patterns flows events r none = none
finish patterns flows events r (some (packets, report)) =
    let (summaries, report', r') = visit_events patterns events report r in
    some (record {
      flows = flows;
      packets = packets;
      events = summaries;
      report = with_counts report' r';
    })

abbrev pub rewrite_with :
    Option RemapConfig
    → List SanitizedPacket
    → SanitizeReport
    → Option (List SanitizedPacket × SanitizeReport)
rewrite_with none packets report = none
rewrite_with (some config) packets report = rewrite_all config packets report

abbrev pub from_flows :
    Patterns
    → List Endpoints
    → List (Option Text)
    → Option (List SanitizedPacket × Redactor)
    → Option Sanitized
from_flows patterns flows events none = none
from_flows patterns flows events (some (packets, r)) =
    let (endpoints, report, r') = visit_flows flows new_report r in
    finish patterns endpoints events r' (rewrite_with (remap_config r') packets report)

unfoldable pub sanitize_session :
    Patterns
    → RedactionPolicy
    → List StoredPacket
    → List Endpoints
    → List (Option Text)
    → Option Sanitized
sanitize_session patterns policy packets flows events =
    from_flows patterns flows events (visit_all packets (new_redactor policy))
