-- ===== src/Ai/Breaker.antt =====
-- `CircuitBreaker`. The readings of the monotonic clock are natural numbers of its smallest unit.
use mathlib.Core.Path.{subst}
use mirageby_ai.Common.{
  ℕ, ◌+◌, ◌≤◌, ◌<◌, Bool, true, false, ◌≡◌, Option, none, some, leb, if◌then◌else◌, ◌&&◌, arith,
  List, [], ◌∷◌, ◌++◌, length, refl, ◌∙◌, ◌↔◌,
}

pub record CircuitBreaker : Type 0 where
  pub failure_threshold : ℕ
  pub reset_seconds : ℕ
  pub failures : ℕ
  pub opened_at : Option ℕ

abbrev closed : CircuitBreaker → CircuitBreaker
closed b = record b { failures = 0; opened_at = none }

-- now - opened_at >= reset_seconds, on readings that do not go back
unfoldable pub allow : ℕ → CircuitBreaker → Bool × CircuitBreaker
allow now b = elim b.opened_at [
  | none ↦ (true, b)
  | some at ↦ if leb (at + b.reset_seconds) now then (true, closed b) else (false, b)
]

unfoldable pub success : CircuitBreaker → CircuitBreaker
success b = closed b

abbrev is_closed : Option ℕ → Bool
is_closed none = true
is_closed (some at) = false

unfoldable pub failure : ℕ → CircuitBreaker → CircuitBreaker
failure now b =
    let n = b.failures + 1 in
    if leb b.failure_threshold n && is_closed b.opened_at
    then record b { failures = n; opened_at = some now }
    else record b { failures = n }

-- Failures one after the other, at these readings of the clock.
abbrev pub failures_at : List ℕ → CircuitBreaker → CircuitBreaker
failures_at [] b = b
failures_at (t ∷ ts) b = failures_at ts (failure t b)

failure-open :
    (u t : ℕ) (b : CircuitBreaker)
    → b.opened_at ≡ some t
    → ((failure u b).opened_at ≡ some t) × ((failure u b).reset_seconds ≡ b.reset_seconds)
unfolding failure
failure-open u t b h = ground arith

stays_open :
    (ts : List ℕ) (t : ℕ) (b : CircuitBreaker)
    → b.opened_at ≡ some t
    → ((failures_at ts b).opened_at ≡ some t) × ((failures_at ts b).reset_seconds ≡ b.reset_seconds)
stays_open [] t b h = (h, refl)
stays_open (u ∷ us) t b h =
    let (unmoved, reset) = failure-open u t b h in
    let (still, same) = stays_open us t (failure u b) unmoved in (still, same ∙ reset)

-- What a failure below the threshold, and the one that meets it, does to a closed breaker.
failure_below :
    (t : ℕ) (b : CircuitBreaker)
    → b.failures + 1 < b.failure_threshold
    → failure t b ≡ record b { failures = b.failures + 1 }
unfolding failure
failure_below t b h = ground arith

failure_meets :
    (t : ℕ) (b : CircuitBreaker)
    → b.opened_at ≡ none
    → b.failures + 1 ≡ b.failure_threshold
    → failure t b ≡ record b { failures = b.failures + 1; opened_at = some t }
unfolding failure
failure_meets t b h e = ground arith

opens :
    (before after : List ℕ) (t : ℕ) (b : CircuitBreaker)
    → b.opened_at ≡ none
    → b.failures + length before + 1 ≡ b.failure_threshold
    → ((failures_at (before ++ t ∷ after) b).opened_at ≡ some t)
      × ((failures_at (before ++ t ∷ after) b).reset_seconds ≡ b.reset_seconds)
opens [] after t b h n =
    rw (failure_meets t b h (omega arith), failures_at)
      (stays_open after t (record b { failures = b.failures + 1; opened_at = some t }) refl)
opens (u ∷ us) after t b h n =
    rw (failure_below u b (omega arith), failures_at)
      (opens us after t (record b { failures = b.failures + 1 }) h (omega arith))

allow_open :
    (b : CircuitBreaker) (t now : ℕ)
    → b.opened_at ≡ some t
    → ((allow now b).0 ≡ true) ↔ (t + b.reset_seconds ≤ now)
unfolding allow
allow_open b t now h = ground arith

-- A closed breaker opens at the failure that fills its threshold and stays open through the later
-- ones: whatever failures follow, without a success or a call let through in between, a call is
-- let through exactly when the reset time has passed since that failure.
pub allow-failures_at :
    (before after : List ℕ) (t now : ℕ) (b : CircuitBreaker)
    → b.opened_at ≡ none
    → b.failures + length before + 1 ≡ b.failure_threshold
    → ((allow now (failures_at (before ++ t ∷ after) b)).0 ≡ true) ↔ (t + b.reset_seconds ≤ now)
allow-failures_at before after t now b h n =
    let (opened, same) = opens before after t b h n in
    subst (λ n. ((allow now (failures_at (before ++ t ∷ after) b)).0 ≡ true) ↔ (t + n ≤ now)) same
      (allow_open (failures_at (before ++ t ∷ after) b) t now opened)
