-- ===== src/Gate.antt =====
-- libs/mirage_common/fingerprint_gate.py: SANDBOX_ACTIVE to ENGAGING only behind a fingerprint
-- check that passes. The connection is the working tables and what has been committed.
pub mod Soundness
pub mod Durability
pub mod Tests
use mirageby_ai.Common.{
  ℕ, String, Bool, true, false, not, Option, none, some, List, [], ◌∷◌, ◌==◌, str_eq, find,
  if◌then◌else◌,
}
use mirageby_ai.Common.Exec.{
  Result, ok, err, Exec, pure, raise, gets, or_raise, raise_if, ◌>>=◌, ◌>>◌,
}
use mirageby_ai.Contracts.Text.{concat}
use mirageby_ai.Contracts.Json.{text, flag, ratio, texts, dict}
use mirageby_ai.Contracts.Envelope.{Runtime}
use mirageby_ai.Fingerprint.{
  Baseline, Observations, Report, run_fingerprint_check, report_passed, all_must_passed,
  should_pass_ratio, failed_must_checks,
}
use mirageby_ai.Database.{
  CaseState, sandbox_active, Db, Error, case_not_found, optimistic_lock_conflict,
  fingerprint_gate_blocked, malformed_baseline, Tx, SnapshotRow, select_case, insert_audit,
  non_empty, or_generated, emit,
}
use mirageby_ai.CaseLifecycle.{TransitionRequest, TransitionResult, transition_case}

pub record Session : Type 0 where
  pub db : Db
  pub durable : Db

abbrev pub OnSession : Type 0 → Type 0
OnSession = Exec Error Session

-- Statements on the connection, which commit nothing.
abbrev pub on_db : {A : Type 0} → Tx A → OnSession A
on_db m s = let (res, after) = m s.db in (res, record s { db = after })

-- conn.commit()
abbrev pub commit : OnSession (Unit {0})
commit s = (ok tt, record s { durable = s.db })

-- conn.rollback(), or the connection's end without a commit
abbrev pub rollback : Session → Session
rollback s = record s { db = s.durable }

pub record GateRequest : Type 0 where
  pub case_id : String
  pub sandbox_id : String
  pub baseline : Baseline
  pub expected_version : ℕ
  pub actor : String
  pub actor_type : String
  pub correlation_id : Option String

-- A missing snapshot is an empty one.
abbrev checks_of : Option SnapshotRow → Observations
checks_of none = []
checks_of (some row) = row.checks

abbrev pub observed : String → Db → Observations
observed sandbox_id db =
    checks_of (find (λ (row : SnapshotRow). str_eq row.sandbox_id sandbox_id) db.snapshots)

abbrev quoted : List String → List String
quoted [] = []
quoted (s ∷ []) = "'" ∷ s ∷ "'" ∷ []
quoted (s ∷ t ∷ rest) = "'" ∷ s ∷ "', " ∷ quoted (t ∷ rest)

abbrev is_gated : CaseState → Bool
is_gated sandbox_active = true
is_gated _ = false

-- The request that is passed on to the state machine.
abbrev pub passed_on : GateRequest → String → String → TransitionRequest
passed_on g reason correlation_id = record {
  case_id = g.case_id;
  expected_version = g.expected_version;
  actor = g.actor;
  actor_type = g.actor_type;
  reason = reason;
  correlation_id = some correlation_id;
}

abbrev pub not_applicable : String
not_applicable = "advance (fingerprint gate not applicable to this transition)"

abbrev pub passed_reason : String
passed_reason = "fingerprint gate passed (§6.5: MUST=100%, SHOULD>=75%)"

module _ (r : Runtime) where
  -- The event and the audit row of an evaluation.
  pub announce_evaluation : String → String → String → Report → Tx (Unit {0})
  announce_evaluation case_id sandbox_id correlation_id p = do
    emit r "fingerprint.gate_evaluated"
        (dict (
          ("case_id", text case_id)
          ∷ ("sandbox_id", text sandbox_id)
          ∷ ("baseline_version", text p.baseline_version)
          ∷ ("passed", flag (report_passed p))
          ∷ ("all_must_passed", flag (all_must_passed p))
          ∷ ("should_pass_ratio", ratio (should_pass_ratio p).0 (should_pass_ratio p).1)
          ∷ ("failed_must_checks", texts (failed_must_checks p))
          ∷ ("blocked", flag (not (report_passed p)))
          ∷ []))
        "mirage_common.fingerprint_gate" 1 "SYSTEM" "EVIDENCE" (some case_id)
    insert_audit (record {
      actor = "mirage_common.fingerprint_gate";
      actor_type = "SYSTEM";
      action = if report_passed p then "fingerprint_gate.passed" else "fingerprint_gate.blocked";
      target = case_id;
      outcome = if report_passed p then "SUCCESS" else "FAILURE";
      correlation_id = correlation_id;
      detail =
          if report_passed p
          then "MUST=100%, SHOULD>=75%"
          else concat ("failed MUST checks: [" ∷ concat (quoted (failed_must_checks p)) ∷ "]" ∷ []);
    })

module _ (pattern_matches : String → String → Bool) (r : Runtime) where
  -- `_evaluate_and_record`
  pub evaluate_and_record : String → String → Baseline → String → Tx Report
  unfolding ◌>>=◌
  evaluate_and_record case_id sandbox_id baseline correlation_id = do
    seen ← gets (observed sandbox_id)
    p ← or_raise (run_fingerprint_check pattern_matches baseline seen) malformed_baseline
    announce_evaluation r case_id sandbox_id correlation_id p
    pure p

  pub advance_past_gate : GateRequest → String → OnSession TransitionResult
  unfolding ◌>>=◌
  advance_past_gate g correlation_id = do
    p ← on_db (evaluate_and_record g.case_id g.sandbox_id g.baseline correlation_id)
    if report_passed p
        then on_db (transition_case r (passed_on g passed_reason correlation_id))
        else (do commit; raise (fingerprint_gate_blocked g.case_id p))

  pub enforce_fingerprint_gate_before_engaging : GateRequest → OnSession TransitionResult
  unfolding ◌>>=◌ or_generated
  enforce_fingerprint_gate_before_engaging g = do
    correlation_id ← on_db (or_generated r (non_empty g.correlation_id))
    row ← on_db (gets (select_case g.case_id))
    c ← on_db (or_raise row (case_not_found g.case_id))
    if is_gated c.state
        then (do
          raise_if (not (c.version == g.expected_version))
              (optimistic_lock_conflict g.case_id g.expected_version c.version)
          advance_past_gate g correlation_id)
        else on_db (transition_case r (passed_on g not_applicable correlation_id))
