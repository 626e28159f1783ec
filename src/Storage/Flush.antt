-- ===== src/Storage/Flush.antt =====
-- netreplay/core/storage/flush.py: when a batch of packets is committed. Times are microseconds, naturals, and `now` is not before `since`; a mode
-- that the code does not name keeps its text.
use mathlib.Core.Path.{subst}
use net_replay.Common.{
  ℕ, ◌-◌, ◌≡◌, refl, Bool, true, false, Option, none, some, List, ltb, leb, ◌==◌, if◌then◌else◌,
}

pub data Mode : Type 0 where
  by_packets by_time never : Mode
  other : List ℕ → Mode

pub record FlushPolicy : Type 0 where
  pub mode : Mode
  pub packets : ℕ
  pub seconds : ℕ

abbrev pub default_policy : FlushPolicy
default_policy = record { mode = by_packets; packets = 256; seconds = 1000000 }

abbrev pub flushes : Mode → ℕ → ℕ → ℕ → ℕ → Bool
flushes never packets seconds pending waited = false
flushes by_time packets seconds pending waited = leb seconds waited
flushes by_packets packets seconds pending waited = leb packets pending
flushes (other name) packets seconds pending waited = leb 1 pending

unfoldable pub should_flush : FlushPolicy → ℕ → ℕ → ℕ → Bool
should_flush p pending since now = flushes p.mode p.packets p.seconds pending (now - since)

abbrev pub is_known : Mode → Bool
is_known (other name) = false
is_known _ = true

-- `none` is the ValueError.
unfoldable pub validate : FlushPolicy → Option FlushPolicy
validate p =
    if is_known p.mode
    then (if ltb p.packets 1 then none else (if p.seconds == 0 then none else some p))
    else none

abbrev pub or_default : Option ℕ → ℕ → ℕ
or_default none d = d
or_default (some n) d = n

abbrev pub overridden : Mode → Option ℕ → Option ℕ → FlushPolicy
overridden mode packets seconds = record {
  mode = mode;
  packets = or_default packets 256;
  seconds = or_default seconds 1000000;
}

unfoldable pub parse : Option Mode → Option ℕ → Option ℕ → Option FlushPolicy
parse none packets seconds = some default_policy
parse (some never) packets seconds = some (record default_policy { mode = never })
parse (some by_packets) packets seconds = validate (overridden by_packets packets seconds)
parse (some by_time) packets seconds = validate (overridden by_time packets seconds)
parse (some (other name)) packets seconds = none

passed_is :
    (p q : FlushPolicy) (b c d : Bool)
    → (if b then (if c then none else (if d then none else some p)) else none) ≡ some q
    → p ≡ q
passed_is p q true true d h = cc
passed_is p q true false true h = cc
passed_is p q true false false h = cc
passed_is p q false c d h = cc

validate_self : (p q : FlushPolicy) → validate p ≡ some q → validate q ≡ some q
unfolding validate
validate_self p q h =
    subst (λ r. validate r ≡ some q)
      (passed_is p q (is_known p.mode) (ltb p.packets 1) (p.seconds == 0) h) h

inner : (a b : FlushPolicy) → some a ≡ some b → a ≡ b
inner a b h = cc

-- Every policy that `parse` returns passes `validate`, which returns it as it is.
pub parse-validate :
    (mode : Option Mode) (packets seconds : Option ℕ) (p : FlushPolicy)
    → parse mode packets seconds ≡ some p
    → validate p ≡ some p
unfolding parse validate
parse-validate none packets seconds p h =
    subst (λ r. validate r ≡ some r) (inner default_policy p h) refl
parse-validate (some never) packets seconds p h =
    subst (λ r. validate r ≡ some r) (inner (record default_policy { mode = never }) p h) refl
parse-validate (some by_packets) packets seconds p h =
    validate_self (overridden by_packets packets seconds) p h
parse-validate (some by_time) packets seconds p h =
    validate_self (overridden by_time packets seconds) p h
parse-validate (some (other name)) packets seconds p h = cc
