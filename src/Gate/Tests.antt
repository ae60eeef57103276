-- ===== src/Gate/Tests.antt =====
-- The gate on a sandbox with one MUST check.
use mirageby_ai.Common.{
  ℕ, ◌+◌, ◌≡◌, ◌≢◌, refl, String, Bool, true, false, none, some, [], ◌∷◌, length, inl,
}
use mirageby_ai.Common.Exec.{ok, err}
use mirageby_ai.Samples.{runtime, waiting_db, case_row}
use mirageby_ai.Database.{Db, CaseState, sandbox_active, engaging, fingerprint_gate_blocked}
use mirageby_ai.Fingerprint.{Check, must, Baseline, Report, run_fingerprint_check, report_passed}
use mirageby_ai.Fingerprint.Comparators.{text}
use mirageby_ai.CaseLifecycle.{TransitionResult}
use mirageby_ai.Common.Exec.{is_ok}
use mirageby_ai.Gate.Soundness.{identified, identifier}
use mirageby_ai.Gate.{
  announce_evaluation, Session, GateRequest, observed, rollback,
  enforce_fingerprint_gate_before_engaging,
}
use mirageby_ai.Gate.Soundness.{gate_sound}
use mirageby_ai.Gate.Durability.{gate_blocks_durably}

abbrev matches : String → String → Bool
matches p s = false

abbrev baseline : Baseline
baseline = record {
  target_id = "win";
  baseline_version = "1";
  checks =
      record {
        name = "host";
        comparator = "exact";
        level = must;
        expected = ("value", text "a") ∷ [];
      }
      ∷ [];
}

abbrev request : GateRequest
request = record {
  case_id = "case";
  sandbox_id = "box";
  baseline = baseline;
  expected_version = 5;
  actor = "ana";
  actor_type = "ANALYST";
  correlation_id = some "corr";
}

-- A snapshot that agrees with the baseline, and none.
abbrev good_db : Db
good_db = record waiting_db {
  snapshots =
      record { sandbox_id = "box"; checks = ("host", some (("value", text "a") ∷ [])) ∷ [] } ∷ [];
}

abbrev good : Session
good = record { db = good_db; durable = good_db }

abbrev blind : Session
blind = record { db = waiting_db; durable = waiting_db }

abbrev passing_result : TransitionResult
passing_result = record {
  case_id = "case";
  from_state = sandbox_active;
  to_state = engaging;
  new_version = 6;
  correlation_id = "corr";
}

abbrev passing_session : Session
passing_session = (enforce_fingerprint_gate_before_engaging matches runtime request good).1

gate_runs :
    enforce_fingerprint_gate_before_engaging matches runtime request good
    ≡ (ok passing_result, passing_session)
unfolding enforce_fingerprint_gate_before_engaging mirageby_ai.Gate.advance_past_gate
    mirageby_ai.Gate.evaluate_and_record run_fingerprint_check
    mirageby_ai.Fingerprint.run_comparator announce_evaluation mirageby_ai.Database.emit
    mirageby_ai.Contracts.Envelope.validate_event
    mirageby_ai.Contracts.Versions.parse_schema_version
    mirageby_ai.Contracts.Subjects.subject_for_event_type mirageby_ai.Database.insert_audit
    mirageby_ai.CaseLifecycle.transition_case mirageby_ai.CaseLifecycle.apply_transition
    mirageby_ai.CaseLifecycle.announce_transition
gate_runs = refl

gate_sound_example :
    (p : Report) × (run_fingerprint_check matches baseline (observed "box" good_db) ≡ some p)
    × (report_passed p ≡ true)
    × (sandbox_active ≡ sandbox_active)
    × (engaging ≡ engaging)
gate_sound_example =
    gate_sound matches runtime request good passing_session (case_row "case" sandbox_active 5)
      passing_result refl refl gate_runs

abbrev failing_report : Report
failing_report = record {
  target_id = "win";
  baseline_version = "1";
  results = record { check_name = "host"; level = must; passed = false } ∷ [];
}

failing_check :
    run_fingerprint_check matches baseline (observed "box" waiting_db) ≡ some failing_report
unfolding run_fingerprint_check
failing_check = refl

told_check :
    is_ok
      (announce_evaluation runtime "case" "box"
        (identifier runtime request waiting_db)
        failing_report
        (identified runtime request waiting_db)).0
    ≡ true
unfolding announce_evaluation mirageby_ai.Common.Exec.◌>>=◌ mirageby_ai.Database.emit
    mirageby_ai.Contracts.Envelope.validate_event
    mirageby_ai.Contracts.Versions.parse_schema_version
    mirageby_ai.Contracts.Subjects.subject_for_event_type mirageby_ai.Database.insert_audit
told_check = refl

gate_blocks_durably_example :
    let (res, after) = enforce_fingerprint_gate_before_engaging matches runtime request blind in
    (res ≡ err (fingerprint_gate_blocked "case" failing_report))
    × ((rollback after).db.cases ≡ waiting_db.cases)
    × ((rollback after).db.transitions ≡ waiting_db.transitions)
    × (length (rollback after).db.outbox ≡ length waiting_db.outbox + 1)
    × (length (rollback after).db.audit ≡ length waiting_db.audit + 1)
gate_blocks_durably_example =
    gate_blocks_durably matches runtime request blind (case_row "case" sandbox_active 5)
      failing_report refl refl refl failing_check refl told_check
