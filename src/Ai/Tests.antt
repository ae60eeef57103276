-- ===== src/Ai/Tests.antt =====
-- The budget, the breaker, the policy and the orchestrator at one provider that fails once.
use mirageby_ai.Common.Exec.{ok, err}
use mirageby_ai.Ai.Credentials.{
  ProviderSecret, AiConfig, post_init, provider_from_secret, configured_external, RefreshingSecret,
  Refresh,
}
use mirageby_ai.Common.{
  List, ℕ, ◌+◌, ◌≡◌, ◌↔◌, refl, true, false, ◌&&◌, none, some, [], ◌∷◌, ◌==◌, if◌then◌else◌, arith,
}
use mirageby_ai.Ai.Budget.{Moment, BudgetLedger, IsWithin}
use mirageby_ai.Ai.Breaker.{CircuitBreaker}
use mirageby_ai.Ai.Policy.{
  ActionType, place_artifact, Classification, inert, PolicyContext, evaluate_policy, is_warranted,
  evaluate_policy_allows,
}
use mirageby_ai.Ai.Policy
use mirageby_ai.Ai.Strategy.{Progress}
use mirageby_ai.Ai.Orchestrator.{
  Proposal, Outcome, response, timeout_error, Provider, Orchestrator, Request, propose,
}
use mirageby_ai.Ai.Orchestrator.Bounded.{
  Settles, propose-Settles, propose_all, propose_all-IsWithin,
}

abbrev proposal : Proposal
proposal = record { case_id = "case"; snapshot_id = "snap" }

-- The world is the number of calls.
abbrev provider : Provider ℕ ℕ
provider = record {
  propose = λ n. (if n == 0 then timeout_error else response 7, n + 1);
  validate_proposal = λ raw now. some proposal;
  monotonic = λ n. n;
  pause = λ k n w. w;
}

abbrev today : Moment
today = record { year = 2026; month = 7; day = 1; second_of_day = 0 }

abbrev ledger : BudgetLedger
ledger = record { daily_limit_gbp = 10; monthly_limit_gbp = 100; per_case_limit = 5; entries = [] }

ledger-IsWithin : IsWithin ledger
ledger-IsWithin = record {
  daily = λ t. omega arith;
  monthly = λ t. omega arith;
  per_case = λ k. omega arith;
}

abbrev breaker : CircuitBreaker
breaker = record { failure_threshold = 3; reset_seconds = 60; failures = 0; opened_at = none }

abbrev orchestrator : Orchestrator
orchestrator = record { budget = ledger; max_retries = 2; breaker = breaker }

abbrev request : Request
request = record { case_id = "case"; snapshot_id = "snap"; estimated_cost_gbp = 6; now = today }

propose-Settles_example :
    (x : Outcome × Orchestrator × ℕ) × (propose provider request orchestrator 0 ≡ some x)
    × Settles provider request orchestrator x
propose-Settles_example = propose-Settles provider request orchestrator 0

propose_all-IsWithin_example :
    (x : Orchestrator × ℕ) × (propose_all provider (request ∷ request ∷ []) orchestrator 0 ≡ some x)
    × IsWithin x.0.budget
propose_all-IsWithin_example =
    propose_all-IsWithin provider (request ∷ request ∷ []) orchestrator 0 ledger-IsWithin

abbrev context : PolicyContext
context = record {
  sandbox_healthy = true;
  spider_healthy = true;
  evidence_storage_healthy = true;
  artifact_approved = true;
  artifact_classification = some inert;
  analyst_approval = false;
  rate_limit_ok = true;
  destination_allowed = true;
  identity_critical_change = false;
  rollback_available = false;
}

evaluate_policy_allows_example : (evaluate_policy place_artifact context ≡ Policy.allow) ↔ (
    (context.sandbox_healthy && (context.rate_limit_ok && is_warranted place_artifact context))
    ≡ true)
evaluate_policy_allows_example = evaluate_policy_allows place_artifact context

abbrev progress : Progress
progress = record {
  evidence_count = 3;
  confidence_below_threshold = true;
  artifact_ready = false;
  verification_complete = false;
  containment_triggered = false;
  analyst_approval = false;
}

abbrev secret : ProviderSecret
secret = record {
  provider = "openai";
  api_key = "k";
  model = "m";
  base_url = "u";
  organisation = none;
  project = none;
}

abbrev loaded : RefreshingSecret
loaded = record {
  refresh_interval = 300;
  current = some secret;
  last_refresh_at = some 10;
  last_error = none;
}

abbrev attempts : List Refresh
attempts =
    record { force = true; now = 20; answer = err "timeout" }
    ∷ record { force = false; now = 900; answer = ok (record secret { api_key = "k2" }) }
    ∷ []

abbrev config : AiConfig
config = record {
  provider_secret_arn = "arn";
  timeout = 10000;
  max_concurrent_requests = 4;
  max_input_tokens = 4000;
  max_output_tokens = 1000;
  usage_alert_percent = 80;
  allow_external_provider = true;
  model_allowlist = "m" ∷ [];
  per_case_request_limit = 100;
}

config_is_valid : post_init config ≡ ok tt
unfolding post_init
config_is_valid = refl

external_chosen : provider_from_secret secret config ≡ ok (configured_external secret 10000)
unfolding provider_from_secret
external_chosen = refl
