-- ===== src/CaseLifecycle.antt =====
-- libs/mirage_common/case_state_machine.py: the only place where a case's state and version change.
pub mod Atomicity
pub mod History
pub mod Replay
pub mod Versions
pub mod Tests
use mirageby_ai.Common.{
  ℕ, ◌+◌, String, Bool, ◌&&◌, Option, none, some, [], ◌∷◌, ◌++◌, ◌==◌, str_eq, update, count, not,
}
use mirageby_ai.Common.Exec.{ok, pure, gets, or_raise, raise_if, modify, ◌>>=◌, ◌>>◌}
use mirageby_ai.Contracts.Text.{concat}
use mirageby_ai.Contracts.Json.{num, text, dict}
use mirageby_ai.Contracts.Envelope.{Runtime}
use mirageby_ai.Database.{
  CaseState, created, armed, monitoring, steering_pending, sandbox_active, engaging, concluding,
  evidence_verifying, exported, destroyed, CaseRow, TransitionRow, case_not_found,
  optimistic_lock_conflict, invalid_transition, Tx, select_case, insert_audit, non_empty,
  or_generated, emit,
}

-- ALLOWED_TRANSITIONS.get
abbrev pub allowed_transition : CaseState → Option CaseState
allowed_transition created = some armed
allowed_transition armed = some monitoring
allowed_transition monitoring = some steering_pending
allowed_transition steering_pending = some sandbox_active
allowed_transition sandbox_active = some engaging
allowed_transition engaging = some concluding
allowed_transition concluding = some evidence_verifying
allowed_transition evidence_verifying = some exported
allowed_transition exported = some destroyed
allowed_transition destroyed = none

abbrev pub terminal_state : CaseState
terminal_state = destroyed

abbrev pub state_text : CaseState → String
state_text created = "CREATED"
state_text armed = "ARMED"
state_text monitoring = "MONITORING"
state_text steering_pending = "STEERING_PENDING"
state_text sandbox_active = "SANDBOX_ACTIVE"
state_text engaging = "ENGAGING"
state_text concluding = "CONCLUDING"
state_text evidence_verifying = "EVIDENCE_VERIFYING"
state_text exported = "EXPORTED"
state_text destroyed = "DESTROYED"

pub record TransitionRequest : Type 0 where
  pub case_id : String
  pub expected_version : ℕ
  pub actor : String
  pub actor_type : String
  pub reason : String
  pub correlation_id : Option String

pub record TransitionResult : Type 0 where
  pub case_id : String
  pub from_state : CaseState
  pub to_state : CaseState
  pub new_version : ℕ
  pub correlation_id : String

-- WHERE case_id = %s AND version = %s
abbrev pub at_version : String → ℕ → CaseRow → Bool
at_version k v c = str_eq c.case_id k && (c.version == v)

-- UPDATE cases SET state, version ...; the result is the number of rows that it changed.
abbrev pub update_case : String → ℕ → CaseState → ℕ → Tx ℕ
update_case k v to_state new_version db = (
  ok (count (at_version k v) db.cases),
  record db {
    cases =
        update (at_version k v) (λ c. record c { state = to_state; version = new_version })
          db.cases;
  },
)

abbrev insert_transition : TransitionRow → Tx (Unit {0})
insert_transition row = modify (λ db. record db { transitions = db.transitions ++ row ∷ [] })

abbrev source_id : String
source_id = "mirage_common.case_state_machine"

abbrev audit_action : CaseState → CaseState → String
audit_action from_state to_state =
    concat ("case.transition." ∷ state_text from_state ∷ "_to_" ∷ state_text to_state ∷ [])

module _ (r : Runtime) where
  -- The two events and the audit row of a transition.
  unfoldable pub announce_transition :
      TransitionRequest → String → CaseState → CaseState → ℕ → Tx (Unit {0})
  announce_transition q correlation_id from_state to_state new_version = do
    emit r "case.state_changed"
        (dict (
          ("case_id", text q.case_id)
          ∷ ("from_state", text (state_text from_state))
          ∷ ("to_state", text (state_text to_state))
          ∷ ("actor", text q.actor)
          ∷ ("actor_type", text q.actor_type)
          ∷ ("reason", text q.reason)
          ∷ ("new_version", num new_version)
          ∷ ("correlation_id", text correlation_id)
          ∷ []))
        source_id new_version q.actor_type "INTERNAL" (some q.case_id)
    insert_audit (record {
      actor = q.actor;
      actor_type = q.actor_type;
      action = audit_action from_state to_state;
      target = q.case_id;
      outcome = "SUCCESS";
      correlation_id = correlation_id;
      detail = q.reason;
    })
    emit r "audit.recorded"
        (dict (
          ("actor", text q.actor)
          ∷ ("actor_type", text q.actor_type)
          ∷ ("action", text (audit_action from_state to_state))
          ∷ ("target", text q.case_id)
          ∷ ("outcome", text "SUCCESS")
          ∷ ("correlation_id", text correlation_id)
          ∷ ("detail", text q.reason)
          ∷ []))
        source_id new_version q.actor_type "INTERNAL" (some q.case_id)

  -- From the update on.
  unfoldable pub apply_transition :
      TransitionRequest → String → CaseState → CaseState → ℕ → Tx TransitionResult
  unfolding ◌>>=◌
  apply_transition q correlation_id from_state to_state version = do
    let new_version = version + 1
    changed ← update_case q.case_id q.expected_version to_state new_version
    raise_if (not (changed == 1)) (optimistic_lock_conflict q.case_id q.expected_version version)
    insert_transition (record {
      case_id = q.case_id;
      from_state = from_state;
      to_state = to_state;
      actor = q.actor;
      actor_type = q.actor_type;
      reason = q.reason;
      new_version = new_version;
      correlation_id = correlation_id;
    })
    announce_transition q correlation_id from_state to_state new_version
    pure (record {
      case_id = q.case_id;
      from_state = from_state;
      to_state = to_state;
      new_version = new_version;
      correlation_id = correlation_id;
    })

  unfoldable pub transition_case : TransitionRequest → Tx TransitionResult
  unfolding or_generated ◌>>=◌
  transition_case q = do
    correlation_id ← or_generated r (non_empty q.correlation_id)
    row ← gets (select_case q.case_id)
    c ← or_raise row (case_not_found q.case_id)
    raise_if (not (c.version == q.expected_version))
        (optimistic_lock_conflict q.case_id q.expected_version c.version)
    to_state ← or_raise (allowed_transition c.state) (invalid_transition q.case_id c.state)
    apply_transition q correlation_id c.state to_state c.version
