-- ===== src/CaseLifecycle/Tests.antt =====
-- The state machine on a case that is armed.
use mirageby_ai.Common.{◌+◌, ◌≤◌, ◌≡◌, refl, none, [], ◌∷◌, All}
use mirageby_ai.Common.Exec.{ok, err}
use mirageby_ai.Samples.{runtime, created_db}
use mirageby_ai.Database.{
  Db, CaseRow, case_not_found, invalid_transition, CaseState, created, armed, monitoring, destroyed,
  optimistic_lock_conflict, select_case, transaction,
}
use mirageby_ai.CaseLifecycle.{TransitionRequest, TransitionResult, transition_case}
use mirageby_ai.CaseLifecycle.Atomicity.{Moved, transition_case_moves, correlated}
use mirageby_ai.CaseLifecycle.History.{HasHistory, attempts, attempts-HasHistory}
use mirageby_ai.CaseLifecycle.Versions.{rank, attempts_versions}
use mirageby_ai.CaseLifecycle.Replay.{transition_case_once}

abbrev arming : TransitionRequest
arming = record {
  case_id = "case";
  expected_version = 1;
  actor = "ana";
  actor_type = "ANALYST";
  reason = "ready";
  correlation_id = none;
}

abbrev armed_result : TransitionResult
armed_result = record {
  case_id = "case";
  from_state = created;
  to_state = armed;
  new_version = 2;
  correlation_id = "01ARZ3NDEKTSV4RRFFQ69G5FAV";
}

abbrev armed_db : Db
armed_db = (transition_case runtime arming created_db).1

arming_runs : transition_case runtime arming created_db ≡ (ok armed_result, armed_db)
unfolding transition_case mirageby_ai.CaseLifecycle.apply_transition
    mirageby_ai.CaseLifecycle.announce_transition mirageby_ai.Database.emit
    mirageby_ai.Contracts.Envelope.validate_event
    mirageby_ai.Contracts.Versions.parse_schema_version
    mirageby_ai.Contracts.Subjects.subject_for_event_type mirageby_ai.Database.insert_audit
arming_runs = refl

transition_case_moves_example : Moved arming created_db armed_db armed_result
transition_case_moves_example =
    transition_case_moves runtime arming created_db armed_db armed_result arming_runs

transition_case_once_example :
    transition_case runtime arming armed_db
    ≡ (err (optimistic_lock_conflict "case" 1 2), correlated runtime arming armed_db)
transition_case_once_example =
    transition_case_once runtime arming arming created_db armed_db armed_result arming_runs refl
      refl

created-HasHistory : HasHistory created_db
created-HasHistory = ((refl, refl), tt)

attempts-HasHistory_example : HasHistory (attempts runtime (arming ∷ arming ∷ []) created_db)
attempts-HasHistory_example =
    attempts-HasHistory runtime (arming ∷ arming ∷ []) created_db created-HasHistory

attempts_versions_example :
    All
      (λ c. (c.version ≡ rank c.state + 1) × (c.version ≤ 10))
      (attempts runtime (arming ∷ []) created_db).cases
attempts_versions_example = attempts_versions runtime (arming ∷ []) created_db created-HasHistory
