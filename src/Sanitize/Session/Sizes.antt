-- ===== src/Sanitize/Session/Sizes.antt =====
-- What `sanitize_session` of netreplay/core/sanitize.py writes, and its report.
use net_replay.Common.{◌≡◌, true, Option, none, some, List, length}
use net_replay.Replay.Remap.{RemapConfig}
use net_replay.Replay.Bytes.{bytes_eq}
use net_replay.Protocols.Hex.{Text}
use net_replay.Sanitize.{RedactionPolicy, Redactor, remap_config}
use net_replay.Sanitize.Session.Aliases.{Pairwise}
use net_replay.Sanitize.Session.{StoredPacket, Endpoints, Sanitized}
use net_replay.Sanitize.Session.Copies.{stored_frames, frames, sizes, Remapped, Copies}

-- One redactor gives the addresses of all packets and rewrites all frames, with their sizes, and all that is read is
-- written and counted.
pub record IsFaithful (policy : RedactionPolicy) (ps : List StoredPacket) (flows : List Endpoints)
    (events : List (Option Text)) (out : Sanitized) : Type 0 where
  pub redactor : Redactor
  pub config : RemapConfig
  pub configured : remap_config redactor ≡ some config
  pub aliased : policy.redact_ips ≡ true → Pairwise redactor ps out.packets
  pub remapped : Remapped config (stored_frames ps) (frames out.packets)
  pub same_sizes : sizes (frames out.packets) ≡ sizes (stored_frames ps)
  pub all_flows : length out.flows ≡ length flows
  pub all_events : length out.events ≡ length events
  pub counted_packets : out.report.packets ≡ length ps
  pub counted_flows : out.report.flows ≡ length flows
  pub counted_events : out.report.events ≡ length events

abbrev FaithfulIfAny :
    RedactionPolicy
    → List StoredPacket
    → List Endpoints
    → List (Option Text)
    → Option Sanitized
    → Type 0
FaithfulIfAny policy ps flows events none = Unit
FaithfulIfAny policy ps flows events (some out) = IsFaithful policy ps flows events out
