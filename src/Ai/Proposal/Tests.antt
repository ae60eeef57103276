-- ===== src/Ai/Proposal/Tests.antt =====
-- The validation of a proposal that moves an artifact, and of ones that hide a command.
use mirageby_ai.Common.{ℕ, none, ◌+◌, ◌==◌, if◌then◌else◌, ◌≡◌, ◌↔◌, refl, true, false, some, []}
use mirageby_ai.Common.Exec.{ok, err}
use mirageby_ai.Contracts.Json.{Json, Fields, end, entry}
use mirageby_ai.Contracts.Text.{codes}
use mirageby_ai.Ai.Utf8.{Text, encode, encode_char}
use mirageby_ai.Ai.Snapshot.{thousandths}
use mirageby_ai.Ai.Proposal.{
  Proposal, Libraries, invalid_proposal, raw, validate_proposal, is_valid, all_keys,
}
use mirageby_ai.Ai.Orchestrator.{Outcome, response, timeout_error, Orchestrator, Request, propose}
use mirageby_ai.Ai.Orchestrator.Validated.{Host, validating, IsBacked, propose-IsBacked}
use mirageby_ai.Ai.Proposal.Commands.{search, matches, after, spaces_then_c}
use mirageby_ai.Ai.Proposal.Acceptance.{IsAcceptable, validate_proposal_iff}

abbrev identifier : Text
identifier = codes "01J00000000000000000000000"

abbrev proposal : Fields → Proposal
proposal params = record {
  proposal_id = identifier;
  case_id = identifier;
  snapshot_id = identifier;
  strategy_phase = "ENGAGE";
  action_type = "MOVE_ARTIFACT";
  params = params;
  rationale = codes "because";
  confidence = thousandths 700;
  supporting_event_ids = [];
  expected_effect = codes "seen";
  rollback_required = true;
  policy_reference = codes "P1";
  expires_at = 10;
}

abbrev libraries : Fields → Libraries
libraries params = record {
  loads = λ s. some Json.null;
  typed = λ j. some (proposal params);
  canonical = λ j. codes "{\"source\":\"a\"}";
  lower = λ s. s;
}

abbrev move : Fields
move = entry "source" (Json.text "a") end

abbrev nested : Fields
nested = entry "source" (Json.obj (entry "argv" Json.null end)) end

accepted_run : validate_proposal (libraries move) (raw (codes "{}")) 5 ≡ ok (proposal move)
unfolding validate_proposal is_valid all_keys search matches after spaces_then_c encode encode_char
accepted_run = refl

nested_run : validate_proposal (libraries nested) (raw (codes "{}")) 5 ≡ err invalid_proposal
unfolding validate_proposal is_valid all_keys search matches after spaces_then_c encode encode_char
nested_run = refl

validate_proposal_iff_example :
    (validate_proposal (libraries move) (raw (codes "{}")) 5 ≡ ok (proposal move))
    ↔ IsAcceptable (libraries move) (raw (codes "{}")) 5 (proposal move)
validate_proposal_iff_example =
    validate_proposal_iff (libraries move) (raw (codes "{}")) 5 (proposal move)

shell_found : search (codes "{\"a\":\"run C:\\\\CmD.eXe  /C dir\"}") ≡ true
unfolding search matches after spaces_then_c
shell_found = refl

-- A tab in a JSON text is written as an escape, which \s does not match.
escaped_tab_missed : search (codes "{\"a\":\"cmd\\t/c dir\"}") ≡ false
unfolding search matches after spaces_then_c
escaped_tab_missed = refl

-- A provider that fails once and then sends the proposal
abbrev host : Host ℕ
host = record {
  propose = λ n. (if n == 0 then timeout_error else response (raw (codes "{}")), n + 1);
  monotonic = λ n. n;
  pause = λ k n w. w;
  text_of = λ s. "id";
  timestamp = λ t. t.day;
}

abbrev orchestrator : Orchestrator
orchestrator = record {
  budget = record {
    daily_limit_gbp = 10;
    monthly_limit_gbp = 100;
    per_case_limit = 5;
    entries = [];
  };
  max_retries = 2;
  breaker = record { failure_threshold = 3; reset_seconds = 60; failures = 0; opened_at = none };
}

abbrev request : Request
request = record {
  case_id = "id";
  snapshot_id = "id";
  estimated_cost_gbp = 6;
  now = record { year = 2026; month = 7; day = 5; second_of_day = 0 };
}

propose-IsBacked_example :
    (x : Outcome × Orchestrator × ℕ) × (propose
        (validating (libraries move) host)
        request
        orchestrator
        0
      ≡ some x)
    × IsBacked (libraries move) host request x.0
propose-IsBacked_example = propose-IsBacked (libraries move) host request orchestrator 0
