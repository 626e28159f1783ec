-- ===== src/Sanitize/Growth.antt =====
-- What the operations of the `Redactor` of netreplay/core/sanitize.py do to its dictionaries.
use net_replay.Common.{
  ◌≡◌, refl, ◌∙◌, Bool, true, false, ◌&&◌, Option, none, some, List, [], ◌∷◌, ltb, leb,
  if◌then◌else◌, length,
}
use net_replay.Common.Dict.{lookup}
use net_replay.Common.Text.{text_eq}
use net_replay.Replay.Bytes.{Bytes, slice, bytes_eq}
use net_replay.Replay.Address.{ipv4_text, parse_mac}
use net_replay.Protocols.Hex.{Text}
use net_replay.Sanitize.{
  Redactor, ip_token, mac_token, domain_token, pseudonym, note, redact_ip, redact_mac,
  redact_domain, hex_key, Piece, between, matched, Patterns, sub, sub_ip, redact_text, observe_mac,
  observe_macs, observe_ips, observe_frame,
}
use net_replay.Sanitize.Tokens.{Numbered, note-Numbered, note-keeps}

-- The policy stays, what was found stays, and numbered dictionaries stay numbered.
pub record Grows (r r' : Redactor) : Type 0 where
  pub same_policy : r'.policy ≡ r.policy
  pub keeps_ips : (k t : Text) → lookup k r.ips ≡ some t → lookup k r'.ips ≡ some t
  pub keeps_macs : (k t : Text) → lookup k r.macs ≡ some t → lookup k r'.macs ≡ some t
  pub numbers_ips : Numbered ip_token 0 r.ips → Numbered ip_token 0 r'.ips
  pub numbers_macs : Numbered mac_token 0 r.macs → Numbered mac_token 0 r'.macs

pub Grows-same : (r : Redactor) → Grows r r
Grows-same r = record {
  same_policy = refl;
  keeps_ips = λ k t h. h;
  keeps_macs = λ k t h. h;
  numbers_ips = λ h. h;
  numbers_macs = λ h. h;
}

pub Grows-then : (r s t : Redactor) → Grows r s → Grows s t → Grows r t
Grows-then r s t g h = record {
  same_policy = h.same_policy ∙ g.same_policy;
  keeps_ips = λ k v e. h.keeps_ips k v (g.keeps_ips k v e);
  keeps_macs = λ k v e. h.keeps_macs k v (g.keeps_macs k v e);
  numbers_ips = λ n. h.numbers_ips (g.numbers_ips n);
  numbers_macs = λ n. h.numbers_macs (g.numbers_macs n);
}

either_result :
    {A : Type 0}
    → (r : Redactor) (b : Bool) (x y : A × Redactor) → Grows r x.1
    → Grows r y.1
    → Grows r (if b then x else y).1
either_result r true x y g h = g
either_result r false x y g h = h

pub redact_ip-Grows : (value : Option Text) (r : Redactor) → Grows r (redact_ip value r).1
unfolding redact_ip
redact_ip-Grows none r = Grows-same r
redact_ip-Grows (some []) r = Grows-same r
redact_ip-Grows (some (c ∷ cs)) r =
    either_result r r.policy.redact_ips
      (some (pseudonym ip_token (c ∷ cs) r.ips), record r { ips = note ip_token (c ∷ cs) r.ips })
      (some (c ∷ cs), r)
      (record {
        same_policy = refl;
        keeps_ips = λ k t h. note-keeps ip_token (c ∷ cs) k t r.ips h;
        keeps_macs = λ k t h. h;
        numbers_ips = λ h. note-Numbered ip_token (c ∷ cs) r.ips h;
        numbers_macs = λ h. h;
      })
      (Grows-same r)

pub redact_mac-Grows : (raw : Bytes) (r : Redactor) → Grows r (redact_mac raw r).1
unfolding redact_mac
redact_mac-Grows raw r =
    either_result r r.policy.redact_macs
      (
        parse_mac (pseudonym mac_token (hex_key raw) r.macs),
        record r { macs = note mac_token (hex_key raw) r.macs },
      )
      (some raw, r)
      (record {
        same_policy = refl;
        keeps_ips = λ k t h. h;
        keeps_macs = λ k t h. note-keeps mac_token (hex_key raw) k t r.macs h;
        numbers_ips = λ h. h;
        numbers_macs = λ h. note-Numbered mac_token (hex_key raw) r.macs h;
      })
      (Grows-same r)

pub redact_domain-Grows : (value : Text) (r : Redactor) → Grows r (redact_domain value r).1
unfolding redact_domain
redact_domain-Grows value r =
    either_result r r.policy.redact_domains
      (
        pseudonym domain_token value r.domains,
        record r { domains = note domain_token value r.domains },
      )
      (value, r)
      (record {
        same_policy = refl;
        keeps_ips = λ k t h. h;
        keeps_macs = λ k t h. h;
        numbers_ips = λ h. h;
        numbers_macs = λ h. h;
      })
      (Grows-same r)

-- The redactor after some frame operation that may raise.
abbrev pub GrowsTo : Redactor → Option Redactor → Type 0
GrowsTo r none = Unit
GrowsTo r (some r') = Grows r r'

GrowsTo-after : (r s : Redactor) (o : Option Redactor) → Grows r s → GrowsTo s o → GrowsTo r o
GrowsTo-after r s none g h = tt
GrowsTo-after r s (some t) g h = Grows-then r s t g h

GrowsTo-then :
    (r : Redactor) (o : Option Redactor) (f : Redactor → Option Redactor)
    → GrowsTo r o
    → ((s : Redactor) → GrowsTo s (f s))
    → GrowsTo r (elim o [ none ↦ none | some s ↦ f s ])
GrowsTo-then r none f g h = tt
GrowsTo-then r (some s) f g h = GrowsTo-after r s (f s) g (h s)

kept_mac :
    (o : Option Bytes) (r r' : Redactor)
    → Grows r r'
    → GrowsTo r (elim o [ none ↦ none | some token ↦ some r' ])
kept_mac none r r' g = tt
kept_mac (some token) r r' g = g

observe_mac-GrowsTo : (raw : Bytes) (r : Redactor) → GrowsTo r (observe_mac raw r)
observe_mac-GrowsTo raw r =
    kept_mac (redact_mac raw r).0 r (redact_mac raw r).1 (redact_mac-Grows raw r)

observe_macs-GrowsTo : (raw : Bytes) (r : Redactor) → GrowsTo r (observe_macs raw r)
observe_macs-GrowsTo raw r =
    GrowsTo-then r (observe_mac (slice raw 0 6) r) (observe_mac (slice raw 6 12))
      (observe_mac-GrowsTo (slice raw 0 6) r) (observe_mac-GrowsTo (slice raw 6 12))

observe_ips-Grows : (raw : Bytes) (r : Redactor) → Grows r (observe_ips raw r)
observe_ips-Grows raw r =
    let s = (redact_ip (some (ipv4_text (slice raw 26 30))) r).1 in
    Grows-then r s (observe_ips raw r) (redact_ip-Grows (some (ipv4_text (slice raw 26 30))) r)
      (redact_ip-Grows (some (ipv4_text (slice raw 30 34))) s)

either_way :
    (r : Redactor) (b : Bool) (o p : Option Redactor)
    → GrowsTo r o
    → GrowsTo r p
    → GrowsTo r (if b then o else p)
either_way r true o p g h = g
either_way r false o p g h = h

pub observe_frame-GrowsTo : (raw : Bytes) (r : Redactor) → GrowsTo r (observe_frame raw r)
unfolding observe_frame
observe_frame-GrowsTo raw r =
    let macs : Option Redactor = if r.policy.redact_macs then observe_macs raw r else some r in
    let m =
      either_way r r.policy.redact_macs (observe_macs raw r) (some r) (observe_macs-GrowsTo raw r)
        (Grows-same r) in
    either_way r (ltb (length raw) 14) (some r) _ (Grows-same r) (
      either_way r
        (leb 34 (length raw) && text_eq (slice raw 12 14) (8 ∷ 0 ∷ []) && r.policy.redact_ips) _
        macs (GrowsTo-then r macs (λ s. some (observe_ips raw s)) m (observe_ips-Grows raw)) m)

-- The results of `sub` and of `text`.
sub-Grows :
    (f : Text → Redactor → Text × Redactor) (ps : List Piece) (r : Redactor)
    → ((t : Text) (s : Redactor) → Grows s (f t s).1)
    → Grows r (sub f ps r).1
unfolding sub
sub-Grows f [] r g = Grows-same r
sub-Grows f (between t ∷ ps) r g = sub-Grows f ps r g
sub-Grows f (matched t ∷ ps) r g =
    Grows-then r (f t r).1 (sub f ps (f t r).1).1 (g t r) (sub-Grows f ps (f t r).1 g)

pub redact_text-Grows :
    (patterns : Patterns) (value : Option Text) (r : Redactor)
    → Grows r (redact_text patterns value r).1
unfolding redact_text
redact_text-Grows patterns none r = Grows-same r
redact_text-Grows patterns (some value) r =
    let hosts : Text × Redactor =
      if r.policy.redact_domains then sub redact_domain (patterns.hosts value) r else (value, r) in
    let g =
      either_result r r.policy.redact_domains (sub redact_domain (patterns.hosts value) r)
        (value, r) (sub-Grows redact_domain (patterns.hosts value) r redact_domain-Grows)
        (Grows-same r) in
    Grows-then r hosts.1 _ g (
      either_result hosts.1 r.policy.redact_ips (sub sub_ip (patterns.addresses hosts.0) hosts.1)
        (hosts.0, hosts.1)
        (sub-Grows sub_ip (patterns.addresses hosts.0) hosts.1 (λ t s. redact_ip-Grows (some t) s))
        (Grows-same hosts.1))
