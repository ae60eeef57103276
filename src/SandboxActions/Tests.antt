-- ===== src/SandboxActions/Tests.antt =====
-- Two actions that are opened against version 3 of a sandbox.
use mirageby_ai.Common.{◌+◌, some, none, ◌≡◌, refl, String, none, [], ◌∷◌, length}
use mirageby_ai.Common.Exec.{ok, err}
use mirageby_ai.Samples.{runtime, empty_db}
use mirageby_ai.Contracts.Json.{null}
use mirageby_ai.Database.{Db, SandboxRow, sandbox_not_found, state_version_conflict}
use mirageby_ai.SandboxActions.{
  select_sandbox, pending_row, open_pending_action, record_action_result,
}
use mirageby_ai.SandboxActions.Types.{PendingAction, ActionRequest}
use mirageby_ai.SandboxActions.Versions.{
  Advanced, record_action_result-Advanced, record_action_result_once,
}

abbrev lower : String → String
lower s = s

abbrev box : SandboxRow
box = record {
  sandbox_id = "box";
  case_id = "case";
  image_id = "win";
  state_version = 3;
  network_identity = none;
}

abbrev box_db : Db
box_db = record empty_db { sandboxes = box ∷ [] }

abbrev action : PendingAction
action = record {
  action_id = "act";
  command_id = "cmd";
  sandbox_id = "box";
  case_id = "case";
  action_type = "MOVE_ARTIFACT";
  action_params = null;
  expected_state_version = 3;
  issued_by = "ana";
  policy_decision_id = "pol";
}

abbrev other : PendingAction
other = record action { action_id = "act2"; command_id = "cmd2"; action_type = "SOFT_RESET" }

abbrev recorded_db : Db
recorded_db = (record_action_result lower runtime action "SUCCESS" none none none box_db).1

result_runs :
    record_action_result lower runtime action "SUCCESS" none none none box_db ≡ (ok 4, recorded_db)
unfolding record_action_result mirageby_ai.SandboxActions.advance_version
    mirageby_ai.SandboxActions.announce_result mirageby_ai.Database.emit
    mirageby_ai.Contracts.Envelope.validate_event
    mirageby_ai.Contracts.Versions.parse_schema_version
    mirageby_ai.Contracts.Subjects.subject_for_event_type mirageby_ai.Database.insert_audit
result_runs = refl

record_action_result-Advanced_example :
    Advanced action "SUCCESS" box_db.sandboxes 4 recorded_db.sandboxes
    × (length recorded_db.outbox ≡ length box_db.outbox + 1)
    × (length recorded_db.audit ≡ length box_db.audit + 1)
record_action_result-Advanced_example =
    record_action_result-Advanced lower runtime action "SUCCESS" none none none box_db recorded_db 4
      result_runs

record_action_result_once_example :
    (record_action_result lower runtime other "SUCCESS"
      (some "DECOY_SERVICE_OUTPUT")
      none
      none
      recorded_db).0
    ≡ err (state_version_conflict "box" 3 3)
record_action_result_once_example =
    record_action_result_once lower runtime action other none none none
      (some "DECOY_SERVICE_OUTPUT") none none box_db recorded_db 4 refl refl refl refl result_runs

abbrev request : ActionRequest
request = record {
  sandbox_id = "box";
  case_id = "case";
  action_type = "SOFT_RESET";
  action_params = null;
  expected_state_version = 3;
  issued_by = "ana";
  policy_decision_id = none;
}
