-- ===== src/Sanitize/Session/Aliases.antt =====
-- The addresses that the packets of `sanitize_session` of netreplay/core/sanitize.py get in its first loop.
use net_replay.Common.{
  ℕ, ◌≤◌, ◌≡◌, ap, ◌∙◌, Bool, true, false, Option, none, some, List, [], ◌∷◌, if◌then◌else◌, length,
  arith,
}
use mathlib.Core.Path.{subst}
use net_replay.Common.Dict.{lookup}
use net_replay.Replay.Bytes.{bytes_eq}
use net_replay.Protocols.Hex.{Text}
use net_replay.Sanitize.{
  RedactionPolicy, Redactor, new_redactor, ip_token, pseudonym, note, redact_ip, observe_frame,
}
use net_replay.Sanitize.Tokens.{lookup-note, Numbered-injective, ip_token-Distinct}
use net_replay.Sanitize.Growth.{
  Grows, Grows-same, Grows-then, GrowsTo, redact_ip-Grows, observe_frame-GrowsTo,
}
use net_replay.Sanitize.Session.{
  StoredPacket, SanitizedPacket, SanitizeReport, count_flow, Endpoints, visit_flows, or_empty,
  alias, visit_endpoints, observed, visit, onto, go_on, visit_all,
}

-- An address that is redacted is found with the given alias.
abbrev pub IsAlias : Redactor → Option Text → Text → Type 0
IsAlias r none s = Unit
IsAlias r (some []) s = Unit
IsAlias r (some (c ∷ cs)) s = lookup (c ∷ cs) r.ips ≡ some s

redacted :
    (b : Bool) (c : ℕ) (cs : Text) (r : Redactor)
    → b ≡ true
    → let e : Option Text × Redactor =
        if b
        then (
          some (pseudonym ip_token (c ∷ cs) r.ips),
          record r { ips = note ip_token (c ∷ cs) r.ips },
        )
        else (some (c ∷ cs), r) in
      lookup (c ∷ cs) e.1.ips ≡ some (or_empty e.0)
redacted true c cs r h = lookup-note ip_token (c ∷ cs) r.ips
redacted false c cs r h = cc

pub alias-IsAlias :
    (value : Option Text) (r : Redactor)
    → r.policy.redact_ips ≡ true
    → IsAlias (alias value r).1 value (alias value r).0
unfolding redact_ip
alias-IsAlias none r h = tt
alias-IsAlias (some []) r h = tt
alias-IsAlias (some (c ∷ cs)) r h = redacted r.policy.redact_ips c cs r h

Grows-IsAlias :
    (r r' : Redactor) (value : Option Text) (s : Text)
    → Grows r r'
    → IsAlias r value s
    → IsAlias r' value s
Grows-IsAlias r r' none s g h = tt
Grows-IsAlias r r' (some []) s g h = tt
Grows-IsAlias r r' (some (c ∷ cs)) s g h = g.keeps_ips (c ∷ cs) s h

-- Both ends of a packet.
abbrev pub IsAliased : Redactor → StoredPacket → SanitizedPacket → Type 0
IsAliased r p q = IsAlias r p.source q.source × IsAlias r p.destination q.destination

Grows-IsAliased :
    (r r' : Redactor) (p : StoredPacket) (q : SanitizedPacket)
    → Grows r r'
    → IsAliased r p q
    → IsAliased r' p q
Grows-IsAliased r r' p q g (a, b) =
    (Grows-IsAlias r r' p.source q.source g a, Grows-IsAlias r r' p.destination q.destination g b)

abbrev after_two : StoredPacket → Redactor → Redactor
after_two p r = (redact_ip p.destination (redact_ip p.source r).1).1

after_two-Grows : (p : StoredPacket) (r : Redactor) → Grows r (after_two p r)
after_two-Grows p r =
    let s = (redact_ip p.source r).1 in
    Grows-then r s (after_two p r) (redact_ip-Grows p.source r) (redact_ip-Grows p.destination s)

pub visit_endpoints-Grows : (p : StoredPacket) (r : Redactor) → Grows r (visit_endpoints p r).1
visit_endpoints-Grows p r =
    let s = after_two p r in
    let t = (redact_ip p.source s).1 in
    Grows-then r s (visit_endpoints p r).1 (after_two-Grows p r) (
      Grows-then s t (visit_endpoints p r).1 (redact_ip-Grows p.source s)
        (redact_ip-Grows p.destination t))

pub visit_endpoints-IsAliased :
    (p : StoredPacket) (r : Redactor)
    → r.policy.redact_ips ≡ true
    → IsAliased (visit_endpoints p r).1 p (visit_endpoints p r).0
visit_endpoints-IsAliased p r h =
    let s = after_two p r in
    let t = (redact_ip p.source s).1 in
    let hs = ap (λ q. q.redact_ips) (after_two-Grows p r).same_policy ∙ h in
    let ht = ap (λ q. q.redact_ips) (redact_ip-Grows p.source s).same_policy ∙ hs in
    (
      Grows-IsAlias t (redact_ip p.destination t).1 p.source _ (redact_ip-Grows p.destination t)
          (alias-IsAlias p.source s hs),
      alias-IsAlias p.destination t ht,
    )

-- Each packet with what was made of it.
abbrev pub Pairwise : Redactor → List StoredPacket → List SanitizedPacket → Type 0
Pairwise r [] [] = Unit
Pairwise r [] (q ∷ qs) = ⊥
Pairwise r (p ∷ ps) [] = ⊥
Pairwise r (p ∷ ps) (q ∷ qs) = IsAliased r p q × Pairwise r ps qs

-- A loop that ended.
abbrev pub Visited :
    Redactor → List StoredPacket → Option (List SanitizedPacket × Redactor) → Type 0
Visited r ps none = Unit
Visited r ps (some (qs, r')) = Grows r r' × (r.policy.redact_ips ≡ true → Pairwise r' ps qs)

Visited-onto :
    (r s : Redactor) (p : StoredPacket) (ps : List StoredPacket)
    (o : Option (List SanitizedPacket × Redactor))
    → Grows r s
    → Grows s (visit_endpoints p s).1
    → Visited (visit_endpoints p s).1 ps o
    → Visited r (p ∷ ps) (onto (visit_endpoints p s).0 o)
Visited-onto r s p ps none g v h = tt
Visited-onto r s p ps (some (qs, r')) g v h =
    let u = (visit_endpoints p s).1 in
    (
      Grows-then r u r' (Grows-then r s u g v) h.0,
      λ e.
          let es = ap (λ q. q.redact_ips) g.same_policy ∙ e in
          let eu = ap (λ q. q.redact_ips) v.same_policy ∙ es in
          (
            Grows-IsAliased u r' p (visit_endpoints p s).0 h.0 (visit_endpoints-IsAliased p s es),
            h.1 eu,
          ),
    )

visit_then :
    (r : Redactor) (p : StoredPacket) (ps : List StoredPacket) (o : Option Redactor)
    → GrowsTo r o
    → ((s : Redactor) → Visited s ps (visit_all ps s))
    → Visited r (p ∷ ps) (go_on (visit_all ps) (observed p o))
visit_then r p ps none g h = tt
visit_then r p ps (some s) g h =
    Visited-onto r s p ps (visit_all ps (visit_endpoints p s).1) g (visit_endpoints-Grows p s)
      (h (visit_endpoints p s).1)

pub visit_all-Visited : (ps : List StoredPacket) (r : Redactor) → Visited r ps (visit_all ps r)
unfolding visit_all visit
visit_all-Visited [] r = (Grows-same r, λ e. tt)
visit_all-Visited (p ∷ ps) r =
    visit_then r p ps (observe_frame p.raw r) (observe_frame-GrowsTo p.raw r) (visit_all-Visited ps)

-- The loop over the flows only adds to the dictionaries, and what they give stays.
pub visit_flows-Grows :
    (flows : List Endpoints) (report : SanitizeReport) (r : Redactor)
    → Grows r (visit_flows flows report r).2
unfolding visit_flows
visit_flows-Grows [] report r = Grows-same r
visit_flows-Grows ((s, d) ∷ flows) report r =
    let r1 = (redact_ip s r).1 in
    let r2 = (redact_ip d r1).1 in
    let r3 = (visit_flows flows (count_flow report) r2).2 in
    Grows-then r r1 r3 (redact_ip-Grows s r)
      (Grows-then r1 r2 r3 (redact_ip-Grows d r1) (visit_flows-Grows flows (count_flow report) r2))

pub Grows-Pairwise :
    (r r' : Redactor) (ps : List StoredPacket) (qs : List SanitizedPacket)
    → Grows r r'
    → Pairwise r ps qs
    → Pairwise r' ps qs
Grows-Pairwise r r' [] [] g h = tt
Grows-Pairwise r r' [] (q ∷ qs) g h = elim h [ ]
Grows-Pairwise r r' (p ∷ ps) [] g h = elim h [ ]
Grows-Pairwise r r' (p ∷ ps) (q ∷ qs) g h =
    (Grows-IsAliased r r' p q g h.0, Grows-Pairwise r r' ps qs g h.1)

-- With redaction of addresses, when the first loop ends, the addresses of the packets are what one dictionary gives for
-- the original ones, and up to 65536 of them the dictionary gives different ones to different addresses.
pub visit_all-aliases :
    (policy : RedactionPolicy) (ps : List StoredPacket) (qs : List SanitizedPacket) (r : Redactor)
    → policy.redact_ips ≡ true
    → visit_all ps (new_redactor policy) ≡ some (qs, r)
    → length r.ips ≤ 65536
    → Pairwise r ps qs
      × ((a b s : Text) → lookup a r.ips ≡ some s → lookup b r.ips ≡ some s → a ≡ b)
visit_all-aliases policy ps qs r h e l =
    let (g, f) : Visited (new_redactor policy) ps (some (qs, r)) =
      subst (λ o. Visited (new_redactor policy) ps o) e
        (visit_all-Visited ps (new_redactor policy)) in
    (
      f h,
      λ a b s.
          Numbered-injective ip_token 65536 0 a b s r.ips ip_token-Distinct (omega arith)
            (g.numbers_ips tt),
    )
