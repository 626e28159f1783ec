-- ===== src/Sanitize/Session/Copies.antt =====
-- What the loops of `sanitize_session` of netreplay/core/sanitize.py keep, rewrite and count.
use net_replay.Common.{
  ℕ, suc, ◌+◌, ◌<◌, arith, ◌≡◌, refl, ap, ◌∙◌, Option, none, some, List, [], ◌∷◌, length, map, All,
}
use net_replay.Replay.Bytes.{Bytes}
use net_replay.Replay.Remap.{RemapConfig, remap_frame}
use net_replay.Replay.Remap.Laws.{Sized, IsBuilt, HasLength, length-remap_frame}
use net_replay.Replay.Address.{parse_mac, parse_ipv4, parse_entries}
use net_replay.Replay.Address.Laws.{
  parse_mac-size, parse_ipv4-size, parse_entries-Sized, Sized-none, AllPorts-none,
}
use net_replay.Replay.Bytes.{bytes_eq}
use net_replay.Common.Dict.{Dict}
use net_replay.Protocols.Hex.{Text}
use net_replay.Sanitize.{
  Redactor, Patterns, from_hex, remap_config, config_from, observe_frame, redact_text,
}
use net_replay.Sanitize.Session.Aliases.{IsAliased, Pairwise}
use net_replay.Sanitize.Session.{
  StoredPacket, SanitizedPacket, SanitizeReport, count_flow, count_packet, count_event, Endpoints,
  alias, visit_endpoints, observed, visit, onto, go_on, visit_all, visit_flows, with_raw,
  rewrite_all, visit_events,
}

config_from-IsBuilt :
    (ips macs : Option (Dict Bytes Bytes)) (config : RemapConfig)
    → ((d : Dict Bytes Bytes) → ips ≡ some d → Sized 4 d)
    → ((d : Dict Bytes Bytes) → macs ≡ some d → Sized 6 d)
    → config_from ips macs ≡ some config
    → IsBuilt config
config_from-IsBuilt none macs config i m e = cc
config_from-IsBuilt (some ips) none config i m e = cc
config_from-IsBuilt (some ips) (some macs) config i m e = record {
  macs = λ k v l. m macs refl k v cc;
  ips = λ k v l. i ips refl k v cc;
  ports = λ k v l. AllPorts-none k v cc;
}

pub remap_config-IsBuilt :
    (r : Redactor) (config : RemapConfig) → remap_config r ≡ some config → IsBuilt config
unfolding remap_config
remap_config-IsBuilt r config e =
    config_from-IsBuilt (parse_entries parse_ipv4 parse_ipv4 r.ips [])
      (parse_entries from_hex parse_mac r.macs []) config
      (λ d h.
        parse_entries-Sized 4 parse_ipv4 parse_ipv4 r.ips [] d parse_ipv4-size (Sized-none 4) h)
      (λ d h. parse_entries-Sized 6 from_hex parse_mac r.macs [] d parse_mac-size (Sized-none 6) h)
      e

-- The frames that are read and those that are written, with their sizes.
abbrev pub stored_frames : List StoredPacket → List Bytes
stored_frames ps = map (λ p. p.raw) ps

abbrev pub frames : List SanitizedPacket → List Bytes
frames ps = map (λ p. p.raw) ps

abbrev pub sizes : List Bytes → List ℕ
sizes fs = map length fs

abbrev pub FirstHasFrames : List Bytes → Option (List SanitizedPacket × Redactor) → Type 0
FirstHasFrames fs none = Unit
FirstHasFrames fs (some (qs, r)) = frames qs ≡ fs

FirstHasFrames-onto :
    (q : SanitizedPacket) (fs : List Bytes) (o : Option (List SanitizedPacket × Redactor))
    → FirstHasFrames fs o
    → FirstHasFrames (q.raw ∷ fs) (onto q o)
FirstHasFrames-onto q fs none h = tt
FirstHasFrames-onto q fs (some (qs, r)) h = ap (λ gs. q.raw ∷ gs) h

FirstHasFrames-observed :
    (p : StoredPacket) (ps : List StoredPacket) (o : Option Redactor)
    → ((r : Redactor) → FirstHasFrames (stored_frames ps) (visit_all ps r))
    → FirstHasFrames (stored_frames (p ∷ ps)) (go_on (visit_all ps) (observed p o))
FirstHasFrames-observed p ps none h = tt
FirstHasFrames-observed p ps (some s) h =
    FirstHasFrames-onto (visit_endpoints p s).0 (stored_frames ps)
      (visit_all ps (visit_endpoints p s).1) (h (visit_endpoints p s).1)

pub visit_all-frames :
    (ps : List StoredPacket) (r : Redactor) → FirstHasFrames (stored_frames ps) (visit_all ps r)
unfolding visit_all visit
visit_all-frames [] r = refl
visit_all-frames (p ∷ ps) r =
    FirstHasFrames-observed p ps (observe_frame p.raw r) (visit_all-frames ps)

-- Each frame is what `remap_frame` gives for the one that was read.
abbrev pub Remapped : RemapConfig → List Bytes → List Bytes → Type 0
Remapped config [] [] = Unit
Remapped config [] (g ∷ gs) = ⊥
Remapped config (f ∷ fs) [] = ⊥
Remapped config (f ∷ fs) (g ∷ gs) = (remap_frame f config ≡ some g) × Remapped config fs gs

-- What the loop over the frames leaves, and what it counts.
abbrev pub Copies :
    RemapConfig
    → List Bytes
    → SanitizeReport
    → Option (List SanitizedPacket × SanitizeReport)
    → Type 0
Copies config fs report none = Unit
Copies config fs report (some (qs, report')) =
    (sizes (frames qs) ≡ sizes fs)
    × Remapped config fs (frames qs)
    × (report' ≡ record report { packets = report.packets + length fs })

with_raw-Copies :
    (config : RemapConfig) (p : SanitizedPacket) (fs : List Bytes) (raw : Option Bytes)
    (report : SanitizeReport) (o : Option (List SanitizedPacket × SanitizeReport))
    → remap_frame p.raw config ≡ raw
    → HasLength (length p.raw) raw
    → Copies config fs (count_packet report) o
    → Copies config (p.raw ∷ fs) report (with_raw p raw o)
with_raw-Copies config p fs none report o e h k = elim h [ ]
with_raw-Copies config p fs (some raw) report none e h k = tt
with_raw-Copies config p fs (some raw) report (some (qs, report')) e h k = (
  ap (λ m. m ∷ sizes (frames qs)) h ∙ ap (λ ms. length p.raw ∷ ms) k.0,
  (e, k.1),
  k.2 ∙ ap (λ n. record report { packets = n }) (omega arith),
)

pub rewrite_all-Copies :
    (config : RemapConfig) (ps : List SanitizedPacket) (report : SanitizeReport)
    → IsBuilt config
    → All (λ n. n < 65536) (sizes (frames ps))
    → Copies config (frames ps) report (rewrite_all config ps report)
unfolding rewrite_all
rewrite_all-Copies config [] report b s =
    (refl, tt, ap (λ n. record report { packets = n }) (omega arith))
rewrite_all-Copies config (p ∷ ps) report b s =
    with_raw-Copies config p (frames ps) (remap_frame p.raw config) report
      (rewrite_all config ps (count_packet report)) refl (length-remap_frame p.raw config b s.0)
      (rewrite_all-Copies config ps (count_packet report) b s.1)

-- The addresses of the packets stay when their frames are rewritten.
abbrev pub WrittenPairwise :
    Redactor → List StoredPacket → Option (List SanitizedPacket × SanitizeReport) → Type 0
WrittenPairwise r ps none = Unit
WrittenPairwise r ps (some (qs, report)) = Pairwise r ps qs

with_raw-Pairwise :
    (r : Redactor) (p : StoredPacket) (ps : List StoredPacket) (q : SanitizedPacket)
    (raw : Option Bytes) (o : Option (List SanitizedPacket × SanitizeReport))
    → IsAliased r p q
    → WrittenPairwise r ps o
    → WrittenPairwise r (p ∷ ps) (with_raw q raw o)
with_raw-Pairwise r p ps q none none h k = tt
with_raw-Pairwise r p ps q none (some o) h k = tt
with_raw-Pairwise r p ps q (some raw) none h k = tt
with_raw-Pairwise r p ps q (some raw) (some (qs, report)) h k = (h, k)

pub rewrite_all-Pairwise :
    (config : RemapConfig) (r : Redactor) (ps : List StoredPacket) (qs : List SanitizedPacket)
    (report : SanitizeReport)
    → Pairwise r ps qs
    → WrittenPairwise r ps (rewrite_all config qs report)
unfolding rewrite_all
rewrite_all-Pairwise config r [] [] report h = tt
rewrite_all-Pairwise config r [] (q ∷ qs) report h = elim h [ ]
rewrite_all-Pairwise config r (p ∷ ps) [] report h = elim h [ ]
rewrite_all-Pairwise config r (p ∷ ps) (q ∷ qs) report h =
    with_raw-Pairwise r p ps q (remap_frame q.raw config)
      (rewrite_all config qs (count_packet report)) h.0
      (rewrite_all-Pairwise config r ps qs (count_packet report) h.1)

-- One endpoint pair for each flow, one summary for each event, and both are counted.
pub visit_flows-counted :
    (flows : List Endpoints) (report : SanitizeReport) (r : Redactor)
    → (length (visit_flows flows report r).0 ≡ length flows)
      × ((visit_flows flows report r).1 ≡ record report { flows = report.flows + length flows })
unfolding visit_flows
visit_flows-counted [] report r = (refl, ap (λ n. record report { flows = n }) (omega arith))
visit_flows-counted ((s, d) ∷ flows) report r =
    let (l, c) = visit_flows-counted flows (count_flow report) (alias d (alias s r).1).1 in
    (ap suc l, c ∙ ap (λ n. record report { flows = n }) (omega arith))

pub visit_events-counted :
    (patterns : Patterns) (events : List (Option Text)) (report : SanitizeReport) (r : Redactor)
    → (length (visit_events patterns events report r).0 ≡ length events)
      × ((visit_events patterns events report r).1
          ≡ record report { events = report.events + length events })
unfolding visit_events
visit_events-counted patterns [] report r =
    (refl, ap (λ n. record report { events = n }) (omega arith))
visit_events-counted patterns (e ∷ events) report r =
    let (l, c) =
      visit_events-counted patterns events (count_event report) (redact_text patterns e r).1 in
    (ap suc l, c ∙ ap (λ n. record report { events = n }) (omega arith))
