-- ===== src/Teardown/Types.antt =====
-- The steps, the resources, the state and the journal of libs/mirage_common/teardown.py.
use mirageby_ai.Common.{
  ℕ, String, Bool, true, false, not, ◌&&◌, ◌||◌, Option, List, [], ◌∷◌, str_eq, leb, ◌==◌,
  if◌then◌else◌,
}
use mirageby_ai.Common.Exec.{Result, ok, err}
use mirageby_ai.Contracts.Text.{codes}

-- TEARDOWN_STEPS
pub data Step : Type 0 where
  block_analyst_directives block_direct_messages block_ai_mutations : Step
  block_artifact_deployments mark_case_concluding drain_queues record_remaining_gaps : Step
  capture_final_snapshot capture_final_fingerprint verify_required_evidence : Step
  generate_final_report generate_final_manifest sign_report_and_manifest : Step
  independently_verify_export revoke_sandbox_certificate : Step
  revoke_temporary_agent_certificates terminate_sandbox_sessions destroy_sandbox : Step
  remove_temporary_compute_and_volumes remove_temporary_credentials_and_tokens : Step
  remove_temporary_public_endpoints preserve_evidence_resources run_inventory : Step
  confirm_no_disallowed_resources mark_case_destroyed : Step

abbrev pub teardown_steps : List Step
teardown_steps =
    block_analyst_directives ∷ block_direct_messages ∷ block_ai_mutations
    ∷ block_artifact_deployments ∷ mark_case_concluding ∷ drain_queues ∷ record_remaining_gaps
    ∷ capture_final_snapshot ∷ capture_final_fingerprint ∷ verify_required_evidence
    ∷ generate_final_report ∷ generate_final_manifest ∷ sign_report_and_manifest
    ∷ independently_verify_export ∷ revoke_sandbox_certificate ∷ revoke_temporary_agent_certificates
    ∷ terminate_sandbox_sessions ∷ destroy_sandbox ∷ remove_temporary_compute_and_volumes
    ∷ remove_temporary_credentials_and_tokens ∷ remove_temporary_public_endpoints
    ∷ preserve_evidence_resources ∷ run_inventory ∷ confirm_no_disallowed_resources
    ∷ mark_case_destroyed ∷ []

pub data ResourceType : Type 0 where
  sandbox compute volume credential token public_endpoint : ResourceType
  other_type : String → ResourceType

pub record CloudResource : Type 0 where
  pub resource_id : String
  pub project : String
  pub environment : String
  pub case_id : Option String
  pub resource_type : ResourceType
  pub temporary : Bool
  pub protected_evidence : Bool
  pub active : Bool

pub record EvidenceGapOverride : Type 0 where
  pub reason : String
  pub missing_items : List String
  pub actor : String
  pub policy_decision_id : String
  pub policy_allows : Bool

pub data Blocked : Type 0 where
  -- RuntimeError of `maybe_fail`
  injected_interruption : Blocked
  -- TeardownBlocked of a step
  queue_drain_failed final_snapshot_failed evidence_not_verified export_not_verified : Blocked
  revocation_failed no_protected_evidence inventory_incomplete resources_remain : Blocked
  -- ValueError of `EvidenceGapOverride.validate`
  override_incomplete override_not_allowed : Blocked
  -- ValueError of `execute` itself
  wrong_confirmation : Blocked

-- What str.strip removes.
abbrev pub is_space : ℕ → Bool
is_space c =
    (leb 9 c && leb c 13)
    || ((leb 28 c && leb c 32)
        || (c == 133
            || (c == 160
                || (c == 5760
                    || ((leb 8192 c && leb c 8202)
                        || (c == 8232
                            || (c == 8233 || (c == 8239 || (c == 8287 || c == 12288)))))))))

abbrev pub all_spaces : List ℕ → Bool
all_spaces [] = true
all_spaces (c ∷ s) = is_space c && all_spaces s

-- not s.strip()
abbrev pub is_blank : String → Bool
is_blank s = all_spaces (codes s)

abbrev pub no_items : List String → Bool
no_items [] = true
no_items (s ∷ ss) = false

unfoldable pub validate : EvidenceGapOverride → Result Blocked (Unit {0})
validate o =
    if is_blank o.reason || (no_items o.missing_items || is_blank o.actor)
    then err override_incomplete
    else if str_eq o.policy_decision_id "" || not o.policy_allows
    then err override_not_allowed
    else ok tt

pub data AuditEntry : Type 0 where
  evidence_gap_detected : AuditEntry
  evidence_gap_override : EvidenceGapOverride → AuditEntry

pub data Identity : Type 0 where
  sandbox_cert agent_cert : Identity

pub data CaseState : Type 0 where
  engaging concluding destroyed : CaseState

-- `self.state`
pub record State : Type 0 where
  pub case_state : CaseState
  pub directives_allowed : Bool
  pub messages_allowed : Bool
  pub ai_mutations_allowed : Bool
  pub artifact_deployments_allowed : Bool
  pub revoked_identities : List Identity
  pub audit : List AuditEntry

abbrev pub initial_state : State
initial_state = record {
  case_state = engaging;
  directives_allowed = true;
  messages_allowed = true;
  ai_mutations_allowed = true;
  artifact_deployments_allowed = true;
  revoked_identities = [];
  audit = [];
}

pub record Entry : Type 0 where
  pub number : ℕ
  pub step : Step
  pub result : Result Blocked (Unit {0})

pub record Journal : Type 0 where
  pub entries : List Entry
  pub state : State

-- The adapter, the file of the journal and the workflow's own state.
pub record World : Type 0 where
  pub resources : List CloudResource
  pub fail_once_at : Option Step
  pub has_failed : Bool
  pub journal : Option Journal
  pub state : State

pub record Config : Type 0 where
  pub environment : String
  pub case_id : String
  pub required_evidence_verified : Bool
  pub export_verified : Bool
  pub queue_drain_succeeds : Bool
  pub final_snapshot_succeeds : Bool
  pub certificate_revocation_succeeds : Bool
  pub inventory_complete : Bool
  pub override : Option EvidenceGapOverride
