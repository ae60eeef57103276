-- ===== src/Ai/Orchestrator/Bounded.antt =====
-- The end of a request of the orchestrator, and its budget.
use mirageby_ai.Common.{
  ℕ, zero, suc, ◌+◌, ◌≤◌, ◌<◌, ◌≡◌, refl, ap, sym, ◌∙◌, Bool, true, false, Option, none, some, List,
  [], ◌∷◌, leb, arith, Bool-cases, not, inl, inr, if◌then◌else◌,
}
use mathlib.Core.Path.{subst}
use mirageby_ai.Ai.Budget.{BudgetLedger, record_cost, IsWithin, record_cost-IsWithin}
use mirageby_ai.Ai.Budget
use mirageby_ai.Ai.Breaker.{CircuitBreaker}
use mirageby_ai.Ai.Breaker
use mirageby_ai.Ai.Orchestrator.{
  Proposal, Outcome, proposed, fell_back, raised, Answer, Provider, Orchestrator, Request, Fallback,
  budget_stop, circuit_open, is_own, accept, answered, failed, retried, handle, attempt, propose,
  response, value_error, timeout_error, transport_error, uncaught,
}

module _ {Raw W : Type 0} (provider : Provider Raw W) where
  -- What an outcome says about the retries and the budget.
  abbrev pub Settles : Request → Orchestrator → Outcome × Orchestrator × W → Type 0
  Settles q o (proposed p n, o', w) =
      (n ≤ o.max_retries)
      × (is_own q p ≡ true)
      × ((raw : Raw) × (provider.validate_proposal raw q.now ≡ some p))
      × (o'.budget ≡ record_cost q.case_id q.estimated_cost_gbp q.now o.budget)
  Settles q o (fell_back reason n, o', w) = (n ≤ o.max_retries) × (o'.budget ≡ o.budget)
  Settles q o (raised e, o', w) = o'.budget ≡ o.budget

  -- Within the module: the loop's result is there and settles the request.
  Ends : Request → Orchestrator → Option (Outcome × Orchestrator × W) → Type 0
  Ends q o r = (x : Outcome × Orchestrator × W) × (r ≡ some x) × Settles q o x

  ends :
      (q : Request) (o : Orchestrator) (x : Outcome × Orchestrator × W)
      → Settles q o x
      → Ends q o (some x)
  unfolding Ends
  ends q o x h = (x, refl, h)

  -- The outcome does not tell a breaker from another.
  Settles-breaker :
      (q : Request) (o : Orchestrator) (b : CircuitBreaker) (x : Outcome × Orchestrator × W)
      → Settles q (record o { breaker = b }) x
      → Settles q o x
  Settles-breaker q o b (proposed p n, o', w) h = h
  Settles-breaker q o b (fell_back reason n, o', w) h = h
  Settles-breaker q o b (raised e, o', w) h = h

  Ends-breaker :
      (q : Request) (o : Orchestrator) (b : CircuitBreaker)
      (r : Option (Outcome × Orchestrator × W))
      → Ends q (record o { breaker = b }) r
      → Ends q o r
  unfolding Ends
  Ends-breaker q o b r (x, e, h) = (x, e, Settles-breaker q o b x h)

  answered-Settles :
      (q : Request) (raw : Raw) (retries : ℕ) (o : Orchestrator) (w : W) (v : Option Proposal)
      → provider.validate_proposal raw q.now ≡ v
      → retries ≤ o.max_retries
      → Settles q o (answered provider q (accept provider v q) retries o w)
  answered-Settles q raw retries o w none e h = (h, refl)
  answered-Settles q raw retries o w (some p) e h = elim (Bool-cases (is_own q p)) [
    | inl own ↦ rw own (h, own, (raw, e), refl)
    | inr foreign ↦ rw foreign (h, refl)
  ]

  Again :
      Request → ℕ → Orchestrator → (Orchestrator → W → Option (Outcome × Orchestrator × W)) → Type 0
  Again q retries o again =
      (b : CircuitBreaker) (w : W)
      → retries < o.max_retries
      → Ends q (record o { breaker = b }) (again (record o { breaker = b }) w)

  retried-Ends :
      (q : Request) (reason : Fallback) (retries : ℕ) (o : Orchestrator) (w : W)
      (again : Orchestrator → W → Option (Outcome × Orchestrator × W))
      → retries ≤ o.max_retries
      → Again q retries o again
      → Ends q o (retried provider q reason retries o w again)
  unfolding Again
  retried-Ends q reason retries o w again h later = elim (Bool-cases (leb o.max_retries retries)) [
    | inl over ↦ rw over (ends q o (fell_back reason retries, failed provider w o, w) (h, refl))
    | inr under ↦ rw under (
        Ends-breaker q o (failed provider w o).breaker
          (again (failed provider w o) (provider.pause q.case_id (retries + 1) w))
          (later (failed provider w o).breaker (provider.pause q.case_id (retries + 1) w)
            (ground arith)))
  ]

  handle-Ends :
      (q : Request) (answer : Answer Raw) (retries : ℕ) (o : Orchestrator) (w : W)
      (again : Orchestrator → W → Option (Outcome × Orchestrator × W))
      → retries ≤ o.max_retries
      → Again q retries o again
      → Ends q o (handle provider q answer retries o w again)
  handle-Ends q (response raw) retries o w again h later =
      ends q o
        (answered provider q (accept provider (provider.validate_proposal raw q.now) q) retries o w)
        (answered-Settles q raw retries o w (provider.validate_proposal raw q.now) refl h)
  handle-Ends q value_error retries o w again h later =
      ends q o (answered provider q none retries o w) (h, refl)
  handle-Ends q timeout_error retries o w again h later = retried-Ends q _ retries o w again h later
  handle-Ends q transport_error retries o w again h later =
      retried-Ends q _ retries o w again h later
  handle-Ends q (uncaught e) retries o w again h later = ends q o (raised e, o, w) refl

  attempt-Ends :
      (fuel : ℕ) (q : Request) (retries : ℕ) (o : Orchestrator) (w : W)
      → retries ≤ o.max_retries
      → o.max_retries < retries + fuel
      → Ends q o (attempt provider fuel q retries o w)
  unfolding attempt Again
  attempt-Ends zero q retries o w h k = absurd (omega arith)
  attempt-Ends (suc fuel) q retries o w h k =
      handle-Ends q (provider.propose w).0 retries o (provider.propose w).1
        (λ o' w'. attempt provider fuel q (suc retries) o' w') h
        λ b w' more.
          attempt-Ends fuel q (suc retries) (record o { breaker = b }) w' (omega arith)
            (omega arith)

  propose-Ends : (q : Request) (o : Orchestrator) (w : W) → Ends q o (propose provider q o w)
  unfolding propose
  propose-Ends q o w =
      elim (Bool-cases (Budget.allow q.case_id q.estimated_cost_gbp q.now o.budget)) [
        | inr stopped ↦ rw stopped (ends q o (fell_back budget_stop 0, o, w) (omega arith, refl))
        | inl fits ↦ rw fits (passed (Breaker.allow (provider.monotonic w) o.breaker))
      ]
    where
      passed :
          (x : Bool × CircuitBreaker)
          → Ends q o (
              if not x.0
              then some (fell_back circuit_open 0, record o { breaker = x.1 }, w)
              else attempt provider (suc o.max_retries) q 0 (record o { breaker = x.1 }) w)
      passed (false, b) =
          ends q o (fell_back circuit_open 0, record o { breaker = b }, w) (omega arith, refl)
      passed (true, b) =
          Ends-breaker q o b (attempt provider (suc o.max_retries) q 0 (record o { breaker = b }) w)
            (attempt-Ends (suc o.max_retries) q 0 (record o { breaker = b }) w (omega arith)
              (omega arith))

  -- Every request comes to an outcome, whatever the provider does. A proposal that is returned has
  -- passed the validation at the request's time and is for the request's own case and snapshot;
  -- the retries are at most the configured number; and the budget is charged with the estimated
  -- cost, once, exactly when a proposal is returned.
  pub propose-Settles :
      (q : Request) (o : Orchestrator) (w : W)
      → (x : Outcome × Orchestrator × W) × (propose provider q o w ≡ some x) × Settles q o x
  unfolding Ends
  propose-Settles q o w = propose-Ends q o w

  abbrev and_then :
      (Orchestrator → W → Option (Orchestrator × W))
      → Option (Outcome × Orchestrator × W)
      → Option (Orchestrator × W)
  and_then next none = none
  and_then next (some (x, o, w)) = next o w

  -- Requests one after the other.
  abbrev pub propose_all : List Request → Orchestrator → W → Option (Orchestrator × W)
  propose_all [] o w = some (o, w)
  propose_all (q ∷ qs) o w = and_then (propose_all qs) (propose provider q o w)

  refused :
      (q : Request) (o : Orchestrator) (w : W)
      → Budget.allow q.case_id q.estimated_cost_gbp q.now o.budget ≡ false
      → propose provider q o w ≡ some (fell_back budget_stop 0, o, w)
  unfolding propose
  refused q o w stopped = rw stopped refl

  kept-IsWithin :
      (q : Request) (o : Orchestrator) (x : Outcome × Orchestrator × W)
      → Budget.allow q.case_id q.estimated_cost_gbp q.now o.budget ≡ true
      → Settles q o x
      → IsWithin o.budget
      → IsWithin x.1.budget
  kept-IsWithin q o (proposed p n, o', w) fits s h =
      subst IsWithin (sym s.3)
        (record_cost-IsWithin q.case_id q.estimated_cost_gbp q.now o.budget fits h)
  kept-IsWithin q o (fell_back reason n, o', w) fits s h = subst IsWithin (sym s.1) h
  kept-IsWithin q o (raised e, o', w) fits s h = subst IsWithin (sym s) h

  propose-IsWithin :
      (q : Request) (o : Orchestrator) (w : W)
      → IsWithin o.budget
      → (x : Outcome × Orchestrator × W) × (propose provider q o w ≡ some x) × IsWithin x.1.budget
  propose-IsWithin q o w h =
      elim (Bool-cases (Budget.allow q.case_id q.estimated_cost_gbp q.now o.budget)) [
        | inr stopped ↦ ((fell_back budget_stop 0, o, w), refused q o w stopped, h)
        | inl fits ↦ let (x, e, s) = propose-Settles q o w in (x, e, kept-IsWithin q o x fits s h)
      ]

  -- Requests that are made one after the other never bring a day, a month or a case over the limit
  -- of the budget, whatever the provider answers and however often it fails: all of them come to
  -- an outcome, and afterwards the ledger is within its limits, if it was so before.
  pub propose_all-IsWithin :
      (qs : List Request) (o : Orchestrator) (w : W)
      → IsWithin o.budget
      → (x : Orchestrator × W) × (propose_all qs o w ≡ some x) × IsWithin x.0.budget
  propose_all-IsWithin [] o w h = ((o, w), refl, h)
  propose_all-IsWithin (q ∷ qs) o w h =
      let (x, e, h') = propose-IsWithin q o w h in
      let (y, e', h'') = propose_all-IsWithin qs x.1 x.2 h' in
      (y, ap (and_then (propose_all qs)) e ∙ e', h'')
