-- ===== src/SandboxActions.antt =====
-- libs/mirage_common/sandbox_actions.py: the sandboxes' state versions and the actions that are
-- opened against them and recorded when the controller has answered.
pub mod Types
pub mod Opening
pub mod Versions
pub mod Tests
use mirageby_ai.Common.{
  ℕ, ◌+◌, String, Bool, true, false, not, ◌&&◌, ◌||◌, Option, none, some, List, [], ◌∷◌, ◌++◌,
  str_eq, ◌==◌, any, find, count, update, if◌then◌else◌,
}
use mirageby_ai.Common.Exec.{
  ok, err, Exec, pure, raise, raise_if, or_raise, gets, modify, ◌>>=◌, ◌>>◌,
}
use mirageby_ai.Contracts.Text.{concat}
use mirageby_ai.Contracts.Json.{Json, text, optional, dict}
use mirageby_ai.Contracts.Envelope.{Runtime, Command}
use mirageby_ai.Contracts.Subjects.{subject_for_command_type}
use mirageby_ai.Database.{
  Db, Tx, SandboxRow, ActionRow, DeploymentRow, ArtifactRow, command, insert_audit, insert_outbox,
  generate_ulid, non_empty, or_generated, raise_unmapped, emit, sandbox_not_found,
  state_version_conflict,
}
use mirageby_ai.SandboxActions.Types.{is_state_mutating, PendingAction, ActionRequest}

abbrev pub by_sandbox_id : String → SandboxRow → Bool
by_sandbox_id id x = str_eq x.sandbox_id id

abbrev pub select_sandbox : String → Db → Option SandboxRow
select_sandbox id db = find (by_sandbox_id id) db.sandboxes

-- INSERT ... ON CONFLICT (sandbox_id) DO UPDATE SET network_identity; a new row is at version 0.
unfoldable pub ensure_sandbox_instance : String → String → String → Option String → Tx ℕ
ensure_sandbox_instance sandbox_id case_id image_id network_identity db =
    elim (select_sandbox sandbox_id db) [
      | none ↦ (
        ok 0,
        record db {
          sandboxes =
              db.sandboxes
              ++ record {
                sandbox_id = sandbox_id;
                case_id = case_id;
                image_id = image_id;
                state_version = 0;
                network_identity = network_identity;
              }
                ∷ [];
        },
      )
      | some x ↦ (
        ok x.state_version,
        record db {
          sandboxes =
              update (by_sandbox_id sandbox_id)
                (λ y. record y { network_identity = network_identity }) db.sandboxes;
        },
      )
    ]

abbrev pub pending_row : PendingAction → ActionRow
pending_row a = record {
  action_id = a.action_id;
  command_id = a.command_id;
  sandbox_id = a.sandbox_id;
  case_id = a.case_id;
  action_type = a.action_type;
  action_params = a.action_params;
  expected_state_version = a.expected_state_version;
  issued_by = a.issued_by;
  policy_decision_id = a.policy_decision_id;
  status = "PENDING";
  output_tag = none;
  rollback_action_id = none;
  error_detail = none;
  completed_at = none;
}

abbrev command_envelope : PendingAction → Command
command_envelope a = record {
  command_id = a.command_id;
  command_type = "sandbox.command";
  schema_version = "1.0";
  case_id = a.case_id;
  sandbox_id = a.sandbox_id;
  expected_state_version = a.expected_state_version;
  issued_by = a.issued_by;
  policy_decision_id = a.policy_decision_id;
  params = dict (("action_type", text a.action_type) ∷ ("action_params", a.action_params) ∷ []);
}

-- The two rows of an action that is opened.
pub insert_pending : PendingAction → Tx PendingAction
unfolding ◌>>=◌
insert_pending a = do
  modify (λ db. record db { actions = db.actions ++ pending_row a ∷ [] })
  topic ← raise_unmapped "sandbox.command" (subject_for_command_type "sandbox.command")
  insert_outbox a.command_id topic (command (command_envelope a))
  pure a

abbrev pub at_state_version : String → ℕ → SandboxRow → Bool
at_state_version id v x = str_eq x.sandbox_id id && (x.state_version == v)

-- A SUCCESS of an action that mutates the sandbox
abbrev pub is_mutation : PendingAction → String → Bool
is_mutation a status = str_eq status "SUCCESS" && is_state_mutating a.action_type

-- The version after the result, with the guarded UPDATE.
pub advance_version : PendingAction → String → Tx ℕ
advance_version a status db =
    let hit = at_state_version a.sandbox_id a.expected_state_version in
    let new_version = a.expected_state_version + 1 in
    let written = record db {
      sandboxes = update hit (λ x. record x { state_version = new_version }) db.sandboxes;
    } in
    if not (is_mutation a status)
    then (ok a.expected_state_version, db)
    else if count hit db.sandboxes == 1
    then (ok new_version, written)
    else (
      err (state_version_conflict a.sandbox_id a.expected_state_version a.expected_state_version),
      written,
    )

abbrev or_text : Option String → String → String
or_text none d = d
or_text (some s) d = if str_eq s "" then d else s

abbrev outcome_of : String → String
outcome_of status = if str_eq status "SUCCESS" then "SUCCESS" else "FAILURE"

-- The artifact's status is set for the first deployment that the UPDATE returns.
abbrev set_artifact :
    (DeploymentRow → Bool)
    → (DeploymentRow → DeploymentRow)
    → (ArtifactRow → ArtifactRow)
    → List DeploymentRow × List ArtifactRow
    → List DeploymentRow × List ArtifactRow
set_artifact hit f g (deployments, artifacts) = elim (find hit deployments) [
  | none ↦ (deployments, artifacts)
  | some d ↦ (
    update hit f deployments,
    update (λ (x : ArtifactRow). str_eq x.artifact_id d.artifact_id) g artifacts,
  )
]

abbrev on_placements :
    (List DeploymentRow × List ArtifactRow → List DeploymentRow × List ArtifactRow)
    → Option (List DeploymentRow × List ArtifactRow)
    → Option (List DeploymentRow × List ArtifactRow)
on_placements f none = none
on_placements f (some p) = some (f p)

abbrev is_same : String → Option String → Bool
is_same s none = false
is_same s (some t) = str_eq t s

-- The end of PLACE_ARTIFACT and of ROLLBACK_ACTION
pub follow_artifact : PendingAction → String → Option String → Db → Db
follow_artifact a status rollback_action_id db =
    let succeeded = str_eq status "SUCCESS" in
    let placed = if succeeded then "DEPLOYED" else "FAILED" in
    let revoked = if succeeded then "REVOKED" else "ROLLBACK_FAILED" in
    let place =
      set_artifact (λ d. str_eq d.sandbox_action_id a.action_id)
        (λ d. record d {
          status = placed;
          observed_sha256 = if succeeded then some d.expected_sha256 else none;
          rollback_action_id = rollback_action_id;
          completed_at = some db.now;
        })
        (λ x. record x {
          deployment_status = placed;
          deployed_at = if succeeded then some db.now else x.deployed_at;
        }) in
    let roll_back =
      set_artifact
        (λ d. is_same a.action_id d.rollback_action_id && str_eq d.status "ROLLBACK_PENDING")
        (λ d. record d { status = revoked; completed_at = some db.now })
        (λ x. record x { deployment_status = revoked; approved_for_deployment = false }) in
    if str_eq a.action_type "PLACE_ARTIFACT"
    then record db { placements = on_placements place db.placements }
    else if str_eq a.action_type "ROLLBACK_ACTION"
    then record db { placements = on_placements roll_back db.placements }
    else db

-- str.lower is a parameter.
module _ (lower : String → String) (r : Runtime) where
  pub open_pending_action : ActionRequest → Tx PendingAction
  unfolding ◌>>=◌
  open_pending_action q = do
    row ← gets (select_sandbox q.sandbox_id)
    x ← or_raise row (sandbox_not_found q.sandbox_id)
    raise_if (not (x.state_version == q.expected_state_version))
        (state_version_conflict q.sandbox_id q.expected_state_version x.state_version)
    action_id ← generate_ulid r
    command_id ← generate_ulid r
    policy_decision_id ← or_generated r (non_empty q.policy_decision_id)
    insert_pending (record {
      action_id = action_id;
      command_id = command_id;
      sandbox_id = q.sandbox_id;
      case_id = q.case_id;
      action_type = q.action_type;
      action_params = q.action_params;
      expected_state_version = q.expected_state_version;
      issued_by = q.issued_by;
      policy_decision_id = policy_decision_id;
    })

  -- The event and the audit row of a result.
  pub announce_result :
      PendingAction → String → Option String → Option String → Option String → ℕ → Tx (Unit {0})
  unfolding ◌>>=◌
  announce_result a status output_tag rollback_action_id error_detail new_version = do
    emit r "sandbox.command_result"
        (dict (
          ("command_id", text a.command_id)
          ∷ ("command_type", text "sandbox.command")
          ∷ ("status", text status)
          ∷ ("output_tag", text (or_text output_tag "REAL_OS_OUTPUT"))
          ∷ ("journal_entry_id", text a.action_id)
          ∷ ("rollback_action_id", optional rollback_action_id)
          ∷ ("error_detail", optional error_detail)
          ∷ []))
        "mirage-sandbox-gateway" new_version "SYSTEM" "EVIDENCE" (some a.case_id)
    insert_audit (record {
      actor = "mirage-sandbox-gateway";
      actor_type = "SYSTEM";
      action = concat ("sandbox_action." ∷ lower a.action_type ∷ "." ∷ lower status ∷ []);
      target = a.sandbox_id;
      outcome = outcome_of status;
      correlation_id = a.command_id;
      detail = or_text error_detail "";
    })

  -- UPDATE sandbox_actions ... WHERE action_id
  abbrev complete_action :
      PendingAction → String → Option String → Option String → Option String → Tx (Unit {0})
  complete_action a status output_tag rollback_action_id error_detail = modify (λ db. record db {
    actions =
        update (λ (x : ActionRow). str_eq x.action_id a.action_id)
          (λ x. record x {
            status = status;
            output_tag = output_tag;
            rollback_action_id = rollback_action_id;
            error_detail = error_detail;
            completed_at = some db.now;
          })
          db.actions;
  })

  pub record_action_result :
      PendingAction → String → Option String → Option String → Option String → Tx ℕ
  unfolding ◌>>=◌
  record_action_result a status output_tag rollback_action_id error_detail = do
    complete_action a status output_tag rollback_action_id error_detail
    new_version ← advance_version a status
    announce_result a status output_tag rollback_action_id error_detail new_version
    modify (follow_artifact a status rollback_action_id)
    pure new_version
