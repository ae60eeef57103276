-- ===== src/Teardown/Workflow.antt =====
-- `TeardownWorkflow.execute` of libs/mirage_common/teardown.py: the steps, their journal, and
-- the run that an interrupted one is resumed by.
use mirageby_ai.Common.{
  ℕ, String, Bool, true, false, not, ◌&&◌, Option, none, some, List, [], ◌∷◌, ◌++◌, str_eq, ◌==◌,
  any, select, if◌then◌else◌,
}
use mirageby_ai.Common.Exec.{Result, ok, err, is_ok, Exec, modify, raise_if}
use mirageby_ai.Contracts.Text.{concat}
use mirageby_ai.Teardown.Types.{
  AuditEntry, Blocked, Config, Entry, EvidenceGapOverride, Identity, Journal, ResourceType, State,
  Step, World, agent_cert, block_ai_mutations, block_analyst_directives, block_artifact_deployments,
  block_direct_messages, capture_final_fingerprint, capture_final_snapshot, concluding,
  confirm_no_disallowed_resources, destroy_sandbox, destroyed, drain_queues, evidence_gap_detected,
  evidence_gap_override, evidence_not_verified, export_not_verified, final_snapshot_failed,
  generate_final_manifest, generate_final_report, independently_verify_export,
  injected_interruption, inventory_incomplete, mark_case_concluding, mark_case_destroyed,
  no_protected_evidence, preserve_evidence_resources, queue_drain_failed, record_remaining_gaps,
  remove_temporary_compute_and_volumes, remove_temporary_credentials_and_tokens,
  remove_temporary_public_endpoints, resources_remain, revocation_failed,
  revoke_sandbox_certificate, revoke_temporary_agent_certificates, run_inventory, sandbox_cert,
  sign_report_and_manifest, teardown_steps, terminate_sandbox_sessions, validate,
  verify_required_evidence, wrong_confirmation,
}
use mirageby_ai.Teardown.Resources.{
  deactivate_each, inventory, is_compute_or_volume, is_credential_or_token, is_disposable,
  is_public_endpoint, is_sandbox,
}

abbrev pub Teardown : Type 0 → Type 0
Teardown = Exec Blocked World

abbrev pub with_state : State → World → World
with_state s w = record w { state = s }

abbrev pub same_identity : Identity → Identity → Bool
same_identity sandbox_cert sandbox_cert = true
same_identity agent_cert agent_cert = true
same_identity _ _ = false

-- revoked_identities.add
abbrev pub revoke : Identity → State → State
revoke i t =
    if any (same_identity i) t.revoked_identities
    then t
    else record t { revoked_identities = i ∷ t.revoked_identities }

pub identity_can_reconnect : Identity → World → Bool
identity_can_reconnect i w = not (any (same_identity i) w.state.revoked_identities)

-- The place of a step in TEARDOWN_STEPS, from 1.
abbrev pub step_index : Step → ℕ
step_index block_analyst_directives = 1
step_index block_direct_messages = 2
step_index block_ai_mutations = 3
step_index block_artifact_deployments = 4
step_index mark_case_concluding = 5
step_index drain_queues = 6
step_index record_remaining_gaps = 7
step_index capture_final_snapshot = 8
step_index capture_final_fingerprint = 9
step_index verify_required_evidence = 10
step_index generate_final_report = 11
step_index generate_final_manifest = 12
step_index sign_report_and_manifest = 13
step_index independently_verify_export = 14
step_index revoke_sandbox_certificate = 15
step_index revoke_temporary_agent_certificates = 16
step_index terminate_sandbox_sessions = 17
step_index destroy_sandbox = 18
step_index remove_temporary_compute_and_volumes = 19
step_index remove_temporary_credentials_and_tokens = 20
step_index remove_temporary_public_endpoints = 21
step_index preserve_evidence_resources = 22
step_index run_inventory = 23
step_index confirm_no_disallowed_resources = 24
step_index mark_case_destroyed = 25

abbrev pub same_step : Step → Step → Bool
same_step a b = step_index a == step_index b

abbrev pub set_state : (State → State) → Teardown (Unit {0})
set_state f = modify (λ w. record w { state = f w.state })

abbrev pub is_none : {A : Type 0} → List A → Bool
is_none [] = true
is_none (x ∷ xs) = false

abbrev pub append_audit : AuditEntry → State → State
append_audit a t = record t { audit = t.audit ++ a ∷ [] }

abbrev pub record_gaps : Option EvidenceGapOverride → Teardown (Unit {0})
record_gaps none w = set_state (append_audit evidence_gap_detected) w
record_gaps (some o) w = elim (validate o) [
  | ok _ ↦ set_state (append_audit (evidence_gap_override o)) w
  | err e ↦ (err e, w)
]

abbrev pub no_override : Config → Bool
no_override c = elim c.override [ none ↦ true | some _ ↦ false ]

abbrev pub remove_types : Config → (ResourceType → Bool) → Teardown (Unit {0})
remove_types c types =
    modify (λ w. record w { resources = deactivate_each types (inventory c w) w.resources })

-- `_apply`
unfoldable pub apply_step : Config → Step → Teardown (Unit {0})
unfolding validate
apply_step c block_analyst_directives w = set_state (λ t. record t { directives_allowed = false }) w
apply_step c block_direct_messages w = set_state (λ t. record t { messages_allowed = false }) w
apply_step c block_ai_mutations w = set_state (λ t. record t { ai_mutations_allowed = false }) w
apply_step c block_artifact_deployments w =
    set_state (λ t. record t { artifact_deployments_allowed = false }) w
apply_step c mark_case_concluding w = set_state (λ t. record t { case_state = concluding }) w
apply_step c drain_queues w = raise_if (not c.queue_drain_succeeds) queue_drain_failed w
apply_step c record_remaining_gaps w =
    if c.required_evidence_verified then (ok tt, w) else record_gaps c.override w
apply_step c capture_final_snapshot w =
    raise_if (not c.final_snapshot_succeeds) final_snapshot_failed w
apply_step c verify_required_evidence w =
    raise_if (not c.required_evidence_verified && no_override c) evidence_not_verified w
apply_step c independently_verify_export w = raise_if (not c.export_verified) export_not_verified w
apply_step c revoke_sandbox_certificate w =
    if c.certificate_revocation_succeeds
    then set_state (revoke sandbox_cert) w
    else (err revocation_failed, w)
apply_step c revoke_temporary_agent_certificates w =
    if c.certificate_revocation_succeeds
    then set_state (revoke agent_cert) w
    else (err revocation_failed, w)
apply_step c destroy_sandbox w = remove_types c is_sandbox w
apply_step c remove_temporary_compute_and_volumes w = remove_types c is_compute_or_volume w
apply_step c remove_temporary_credentials_and_tokens w = remove_types c is_credential_or_token w
apply_step c remove_temporary_public_endpoints w = remove_types c is_public_endpoint w
apply_step c preserve_evidence_resources w =
    raise_if (is_none (select (λ x. x.protected_evidence) (inventory c w))) no_protected_evidence w
apply_step c run_inventory w = raise_if (not c.inventory_complete) inventory_incomplete w
apply_step c confirm_no_disallowed_resources w =
    raise_if (not (is_none (select is_disposable (inventory c w)))) resources_remain w
apply_step c mark_case_destroyed w = set_state (λ t. record t { case_state = destroyed }) w
apply_step c _ w = (ok tt, w)

abbrev pub fails_here : Step → World → Bool
fails_here s w = elim w.fail_once_at [ none ↦ false | some f ↦ same_step f s && not w.has_failed ]

-- `maybe_fail`, then the step
unfoldable pub attempt_step : Config → Step → Teardown (Unit {0})
attempt_step c s w =
    if fails_here s w
    then (err injected_interruption, record w { has_failed = true })
    else apply_step c s w

-- `_write_journal`
abbrev pub write_journal : List Entry → World → World
write_journal entries w = record w {
  journal = some (record { entries = entries; state = w.state });
}

abbrev pub entry_of : Step → Result Blocked (Unit {0}) → Entry
entry_of s r = record { number = step_index s; step = s; result = r }

-- What follows a step: it is journaled as PASS, or as BLOCKED, which ends the loop.
abbrev pub after_step :
    Step
    → List Entry
    → (List Entry → Teardown (Unit {0}))
    → Result Blocked (Unit {0}) × World
    → Result Blocked (Unit {0}) × World
after_step s entries next (r, w) =
    let entries' = entries ++ entry_of s r ∷ [] in
    let w' = write_journal entries' w in elim r [ ok _ ↦ next entries' w' | err e ↦ (err e, w') ]

-- The loop of `execute` over the steps that have not passed in an earlier run.
unfoldable pub run_steps : Config → List Step → List Step → List Entry → Teardown (Unit {0})
run_steps c completed [] entries w = (ok tt, w)
run_steps c completed (s ∷ rest) entries w =
    let skipped = run_steps c completed rest entries w in
    if any (same_step s) completed
    then skipped
    else after_step s entries (λ es w'. run_steps c completed rest es w') (attempt_step c s w)

abbrev pub journal_entries : Option Journal → List Entry
journal_entries none = []
journal_entries (some j) = j.entries

abbrev pub passed_steps : List Entry → List Step
passed_steps [] = []
passed_steps (e ∷ es) = let rest = passed_steps es in if is_ok e.result then e.step ∷ rest else rest

-- `_read_journal` takes the journaled state over.
abbrev pub read_journal : World → World
read_journal w = elim w.journal [ none ↦ w | some j ↦ record w { state = j.state } ]

abbrev pub expected_confirmation : Config → String
expected_confirmation c = concat ("mirage:" ∷ c.environment ∷ ":" ∷ c.case_id ∷ [])

unfoldable pub resume : Config → Teardown (Unit {0})
resume c w =
    let entries = journal_entries w.journal in
    run_steps c (passed_steps entries) teardown_steps entries (read_journal w)

unfoldable pub execute : Config → String → Teardown (Unit {0})
execute c confirmation w =
    if not (str_eq confirmation (expected_confirmation c))
    then (err wrong_confirmation, w)
    else resume c w
