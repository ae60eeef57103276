-- ===== src/Ai/Orchestrator.antt =====
-- `AIOrchestrator.propose`: the retries of one request, the breaker and the budget around them.
-- The provider, the pauses between retries, the clock and the validation of an answer are
-- parameters. Calls come one after the other: the semaphore and the metrics are left out.
pub mod Bounded
pub mod Validated
use mirageby_ai.Common.{
  ℕ, zero, suc, ◌+◌, String, Bool, true, false, ◌&&◌, Option, none, some, leb, str_eq, not,
  if◌then◌else◌,
}
use mirageby_ai.Ai.Budget.{Moment, BudgetLedger, record_cost}
use mirageby_ai.Ai.Breaker.{CircuitBreaker, success, failure}
use mirageby_ai.Ai.Budget
use mirageby_ai.Ai.Breaker

-- What `propose` reads of a proposal; its other fields are the validation's.
pub record Proposal : Type 0 where
  pub case_id : String
  pub snapshot_id : String

pub data Fallback : Type 0 where
  budget_stop circuit_open invalid_response ai_timeout provider_failure : Fallback

-- What a call of the provider under the timeout comes to. The last is an exception that `propose`
-- does not catch, as httpx.HTTPStatusError of `raise_for_status`.
pub data Answer (Raw : Type 0) : Type 0 where
  response : Raw → Answer Raw
  value_error timeout_error transport_error : Answer Raw
  uncaught : String → Answer Raw

-- `OrchestrationResult`, without the latency
pub data Outcome : Type 0 where
  proposed : Proposal → ℕ → Outcome
  fell_back : Fallback → ℕ → Outcome
  raised : String → Outcome

-- The provider and the process around it; the fields that are functions read or move a world W.
pub record Provider (Raw W : Type 0) : Type 0 where
  pub propose : W → Answer Raw × W
  pub validate_proposal : Raw → Moment → Option Proposal
  pub monotonic : W → ℕ
  pub pause : String → ℕ → W → W

pub record Orchestrator : Type 0 where
  pub budget : BudgetLedger
  pub max_retries : ℕ
  pub breaker : CircuitBreaker

pub record Request : Type 0 where
  pub case_id : String
  pub snapshot_id : String
  pub estimated_cost_gbp : ℕ
  pub now : Moment

-- The proposal is the answer's, for this case and this snapshot.
abbrev pub is_own : Request → Proposal → Bool
is_own q p = str_eq p.case_id q.case_id && str_eq p.snapshot_id q.snapshot_id

module _ {Raw W : Type 0} (provider : Provider Raw W) where
  abbrev pub accept : Option Proposal → Request → Option Proposal
  accept none q = none
  accept (some p) q = if is_own q p then some p else none

  -- One call of the provider, and what stands in the handlers of its exceptions.
  abbrev pub failed : W → Orchestrator → Orchestrator
  failed w o = record o { breaker = failure (provider.monotonic w) o.breaker }

  abbrev pub succeeded : Request → Orchestrator → Orchestrator
  succeeded q o = record o {
    breaker = success o.breaker;
    budget = record_cost q.case_id q.estimated_cost_gbp q.now o.budget;
  }

  abbrev pub answered :
      Request → Option Proposal → ℕ → Orchestrator → W → Outcome × Orchestrator × W
  answered q (some p) retries o w = (proposed p retries, succeeded q o, w)
  answered q none retries o w = (fell_back invalid_response retries, failed w o, w)

  abbrev pub retried :
      Request
      → Fallback
      → ℕ
      → Orchestrator
      → W
      → (Orchestrator → W → Option (Outcome × Orchestrator × W))
      → Option (Outcome × Orchestrator × W)
  retried q reason retries o w again =
      let o' = failed w o in
      let next = again o' (provider.pause q.case_id (retries + 1) w) in
      if leb o.max_retries retries then some (fell_back reason retries, o', w) else next

  -- What the loop does with an answer: returns, or goes on to the next call.
  abbrev pub handle :
      Request
      → Answer Raw
      → ℕ
      → Orchestrator
      → W
      → (Orchestrator → W → Option (Outcome × Orchestrator × W))
      → Option (Outcome × Orchestrator × W)
  handle q (response raw) retries o w again =
      some (answered q (accept (provider.validate_proposal raw q.now) q) retries o w)
  handle q value_error retries o w again = some (answered q none retries o w)
  handle q timeout_error retries o w again = retried q ai_timeout retries o w again
  handle q transport_error retries o w again = retried q provider_failure retries o w again
  handle q (uncaught e) retries o w again = some (raised e, o, w)

  -- `while True`, on fuel
  pub attempt : ℕ → Request → ℕ → Orchestrator → W → Option (Outcome × Orchestrator × W)
  attempt zero q retries o w = none
  attempt (suc fuel) q retries o w =
      let (answer, w') = provider.propose w in
      handle q answer retries o w' λ o' w''. attempt fuel q (suc retries) o' w''

  pub propose : Request → Orchestrator → W → Option (Outcome × Orchestrator × W)
  propose q o w =
      if not (Budget.allow q.case_id q.estimated_cost_gbp q.now o.budget)
      then some (fell_back budget_stop 0, o, w)
      else (let (passes, b) = Breaker.allow (provider.monotonic w) o.breaker in
          let o' = record o { breaker = b } in
          if not passes
          then some (fell_back circuit_open 0, o', w)
          else attempt (suc o.max_retries) q 0 o' w)
