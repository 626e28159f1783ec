-- ===== src/Sanitize/Tokens.antt =====
-- The pseudonyms of netreplay/core/sanitize.py: how the dictionaries of a redactor grow.
use net_replay.Common.{
  ℕ, suc, ◌+◌, ◌/◌, ◌%◌, ◌≤◌, ◌<◌, ◌≡◌, refl, ap, sym, ◌∙◌, true, false, Option, none, some, [],
  ◌∷◌, ◌++◌, lt→ltb, length, arith, Bool-cases, inl, inr,
}
use net_replay.Common.Dict.{Dict, lookup, insert, lookup-insert}
use net_replay.Common.Text.{text_eq, text_eq_self, text_eq-eq}
use net_replay.Replay.Bytes.{bytes_eq}
use net_replay.Replay.Address.{parse_mac, parse_ipv4, ipv4_text, mac_text, join, hex02}
use net_replay.Replay.Address.RoundTrip.{parse_ipv4-ipv4_text, parse_mac-mac_text}
use net_replay.Protocols.Hex.{Text}
use net_replay.Filter.Eval.{digits}
use net_replay.Sanitize.{ip_token, mac_token, hex_padded, pseudonym, note, noted, token_of}

-- The values are the tokens of the places, counted from `i`.
abbrev pub Numbered : (ℕ → Text) → ℕ → Dict Text Text → Type 0
Numbered token i [] = Unit
Numbered token i ((k, v) ∷ d) = (v ≡ token i) × Numbered token (suc i) d

-- Below the bound, no two places have the same token.
abbrev pub Distinct : (ℕ → Text) → ℕ → Type 0
Distinct token n = (i j : ℕ) → i < n → j < n → token i ≡ token j → i ≡ j

some_injective : {A : Type 0} {a b : A} → some a ≡ some b → a ≡ b
some_injective e = cc

insert_new : (k v : Text) (d : Dict Text Text) → lookup k d ≡ none → insert k v d ≡ d ++ (k, v) ∷ []
unfolding lookup insert
insert_new k v [] e = refl
insert_new k v ((j, w) ∷ d) e = ground (arith, insert_new k v d)

suc_shift : (i n : ℕ) → suc i + n ≡ i + suc n
suc_shift i n = omega arith

Numbered-append :
    (token : ℕ → Text) (i : ℕ) (k : Text) (d : Dict Text Text)
    → Numbered token i d
    → Numbered token i (d ++ (k, token (i + length d)) ∷ [])
Numbered-append token i k [] h = (ap token (omega arith), tt)
Numbered-append token i k ((j, v) ∷ d) h =
    (h.0, rw (sym (suc_shift i (length d))) (Numbered-append token (suc i) k d h.1))

zero_shift : (n : ℕ) → 0 + n ≡ n
zero_shift n = omega arith

noted-Numbered :
    (token : ℕ → Text) (k : Text) (d : Dict Text Text) (o : Option Text)
    → lookup k d ≡ o
    → Numbered token 0 d
    → Numbered token 0 (noted token k d o)
noted-Numbered token k d (some t) e h = h
noted-Numbered token k d none e h =
    rw (insert_new k (token (length d)) d e, sym (ap token (zero_shift (length d))))
      (Numbered-append token 0 k d h)

pub note-Numbered :
    (token : ℕ → Text) (k : Text) (d : Dict Text Text)
    → Numbered token 0 d
    → Numbered token 0 (note token k d)
unfolding note
note-Numbered token k d h = noted-Numbered token k d (lookup k d) refl h

-- Keys that are there keep their values.
lookup-append :
    (k t : Text) (d e : Dict Text Text) → lookup k d ≡ some t → lookup k (d ++ e) ≡ some t
unfolding lookup
lookup-append k t [] e h = cc
lookup-append k t ((j, v) ∷ d) e h = ground (arith, lookup-append k t d e)

noted-keeps :
    (token : ℕ → Text) (k j t : Text) (d : Dict Text Text) (o : Option Text)
    → lookup k d ≡ o
    → lookup j d ≡ some t
    → lookup j (noted token k d o) ≡ some t
noted-keeps token k j t d (some s) e h = h
noted-keeps token k j t d none e h =
    rw (insert_new k (token (length d)) d e) (lookup-append j t d ((k, token (length d)) ∷ []) h)

pub note-keeps :
    (token : ℕ → Text) (k j t : Text) (d : Dict Text Text)
    → lookup j d ≡ some t
    → lookup j (note token k d) ≡ some t
unfolding note
note-keeps token k j t d h = noted-keeps token k j t d (lookup k d) refl h

noted_here :
    (token : ℕ → Text) (k : Text) (d : Dict Text Text) (o : Option Text)
    → lookup k d ≡ o
    → lookup k (noted token k d o) ≡ some (token_of token d o)
noted_here token k d (some t) e = e
noted_here token k d none e = lookup-insert k k (token (length d)) d ∙ rw (text_eq_self k) refl

-- The pseudonym that was returned is the one that is kept.
pub lookup-note :
    (token : ℕ → Text) (k : Text) (d : Dict Text Text)
    → lookup k (note token k d) ≡ some (pseudonym token k d)
unfolding note pseudonym
lookup-note token k d = noted_here token k d (lookup k d) refl

lookup_head :
    (j k v : Text) (d : Dict Text Text) → text_eq j k ≡ true → lookup k ((j, v) ∷ d) ≡ some v
unfolding lookup
lookup_head j k v d e = rw e refl

pub lookup_tail :
    (j k v : Text) (d : Dict Text Text) → text_eq j k ≡ false → lookup k ((j, v) ∷ d) ≡ lookup k d
unfolding lookup
lookup_tail j k v d e = rw e refl

-- A value that is found is the token of a place.
abbrev HasPlace : (ℕ → Text) → ℕ → ℕ → Text → Type 0
HasPlace token i n s = (p : ℕ) × ((i ≤ p) × (p < i + n) × (s ≡ token p))

place_of :
    (token : ℕ → Text) (i : ℕ) (k s : Text) (d : Dict Text Text)
    → Numbered token i d
    → lookup k d ≡ some s
    → HasPlace token i (length d) s
unfolding lookup
place_of token i k s [] h e = cc
place_of token i k s ((j, v) ∷ d) h e = elim (Bool-cases (text_eq j k)) [
  | inl x ↦ (i, (omega arith, omega arith, some_injective (sym e ∙ lookup_head j k v d x) ∙ h.0))
  | inr x ↦
      let (p, (lo, hi, q)) = place_of token (suc i) k s d h.1 (sym (lookup_tail j k v d x) ∙ e) in
      (p, (omega arith, omega arith, q))
]

clash :
    (token : ℕ → Text) (n i : ℕ) (j a b s v : Text) (d : Dict Text Text)
    → Distinct token n
    → i + suc (length d) ≤ n
    → Numbered token i ((j, v) ∷ d)
    → text_eq j a ≡ true
    → lookup a ((j, v) ∷ d) ≡ some s
    → lookup b d ≡ some s
    → ⊥
clash token n i j a b s v d t l h x ea eb =
    let (p, (lo, hi, q)) = place_of token (suc i) b s d h.1 eb in
    let same =
      t i p (omega arith) (omega arith)
        (sym (some_injective (sym ea ∙ lookup_head j a v d x) ∙ h.0) ∙ q) in
    omega arith

pub Numbered-injective :
    (token : ℕ → Text) (n i : ℕ) (a b s : Text) (d : Dict Text Text)
    → Distinct token n
    → i + length d ≤ n
    → Numbered token i d
    → lookup a d ≡ some s
    → lookup b d ≡ some s
    → a ≡ b
unfolding lookup
Numbered-injective token n i a b s [] t l h ea eb = cc
Numbered-injective token n i a b s ((j, v) ∷ d) t l h ea eb =
    let first = clash token n i j a b s v d t l h in
    let second = clash token n i j b a s v d t l h in
    let in_tail = λ (x : text_eq j a ≡ false) (y : text_eq j b ≡ false).
      Numbered-injective token n (suc i) a b s d t (omega arith) h.1
        (sym (lookup_tail j a v d x) ∙ ea) (sym (lookup_tail j b v d y) ∙ eb) in
    elim (Bool-cases (text_eq j a)) [
      | inl x ↦ elim (Bool-cases (text_eq j b)) [
        | inl y ↦ sym (text_eq-eq j a x) ∙ text_eq-eq j b y
        | inr y ↦ absurd (first x ea (sym (lookup_tail j b v d y) ∙ eb))
      ]
      | inr x ↦ elim (Bool-cases (text_eq j b)) [
        | inl y ↦ absurd (second y eb (sym (lookup_tail j a v d x) ∙ ea))
        | inr y ↦ in_tail x y
      ]
    ]

-- Tokens of up to 65536 places.
ip_token-ipv4_text : (i : ℕ) → ip_token i ≡ ipv4_text (10 ∷ 255 ∷ i / 256 ∷ i % 256 ∷ [])
unfolding ip_token ipv4_text digits join
ip_token-ipv4_text i = refl

mac_token-mac_text :
    (i : ℕ) → i < 65536 → mac_token i ≡ mac_text (2 ∷ 0 ∷ 0 ∷ 0 ∷ i / 256 ∷ i % 256 ∷ [])
unfolding mac_token mac_text hex_padded join hex02
mac_token-mac_text i h =
    rw (lt→ltb (i / 256) 256 (omega arith), lt→ltb (i % 256) 256 (omega arith)) refl

same_parts : (i j : ℕ) → i / 256 ≡ j / 256 → i % 256 ≡ j % 256 → i ≡ j
same_parts i j d m = omega arith

last_two : (i j : ℕ) → i / 256 ∷ i % 256 ∷ [] ≡ j / 256 ∷ j % 256 ∷ [] → i ≡ j
last_two i j e =
    let d : i / 256 ≡ j / 256 = cc in let m : i % 256 ≡ j % 256 = cc in same_parts i j d m

parse_token :
    (i : ℕ) → i < 65536 → parse_ipv4 (ip_token i) ≡ some (10 ∷ 255 ∷ i / 256 ∷ i % 256 ∷ [])
parse_token i h =
    ap parse_ipv4 (ip_token-ipv4_text i)
    ∙ parse_ipv4-ipv4_text 10 255 (i / 256) (i % 256)
        (omega arith, (omega arith, (omega arith, (omega arith, tt))))

parse_mac_token :
    (i : ℕ) → i < 65536 → parse_mac (mac_token i) ≡ some (2 ∷ 0 ∷ 0 ∷ 0 ∷ i / 256 ∷ i % 256 ∷ [])
parse_mac_token i h =
    ap parse_mac (mac_token-mac_text i h)
    ∙ parse_mac-mac_text 2 0 0 0 (i / 256) (i % 256)
        (omega arith, (omega arith, (omega arith, (omega arith, (omega arith, (omega arith, tt))))))

pub ip_token-Distinct : Distinct ip_token 65536
ip_token-Distinct i j hi hj e =
    let p : some (10 ∷ 255 ∷ i / 256 ∷ i % 256 ∷ []) ≡ some (10 ∷ 255 ∷ j / 256 ∷ j % 256 ∷ []) =
      sym (parse_token i hi) ∙ ap parse_ipv4 e ∙ parse_token j hj in
    last_two i j cc

pub mac_token-Distinct : Distinct mac_token 65536
mac_token-Distinct i j hi hj e =
    let p : some (2 ∷ 0 ∷ 0 ∷ 0 ∷ i / 256 ∷ i % 256 ∷ [])
        ≡ some (2 ∷ 0 ∷ 0 ∷ 0 ∷ j / 256 ∷ j % 256 ∷ []) =
      sym (parse_mac_token i hi) ∙ ap parse_mac e ∙ parse_mac_token j hj in
    last_two i j cc
