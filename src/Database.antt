-- ===== src/Database.antt =====
-- The Postgres tables that the control plane writes (infra/migrations), as lists of rows in the
-- order of insertion, the clock and the supply of ULIDs; what a transaction raises; and the
-- statements that several functions share. Constraints of the schema are not checked on an insert,
-- but for those on the validity of routing decisions, which the code counts on.
pub mod Outbox
pub mod Effects
pub mod Tests
use mirageby_ai.Common.{
  ℕ, ◌+◌, String, Bool, true, false, Option, none, some, List, [], ◌∷◌, ◌++◌, str_eq, find,
  if◌then◌else◌,
}
use mirageby_ai.Common.Exec.{Result, ok, err, Exec, pure, raise, modify, ◌>>=◌, ◌>>◌}
use mirageby_ai.Contracts.Json.{Json}
use mirageby_ai.Contracts.Envelope.{
  Event, Command, ContractError, Runtime, ValidatedEvent, validate_event,
}
use mirageby_ai.Contracts.Subjects.{subject_for_event_type}
use mirageby_ai.Fingerprint.{Report, Observations}

pub data CaseState : Type 0 where
  created armed monitoring steering_pending sandbox_active : CaseState
  engaging concluding evidence_verifying exported destroyed : CaseState

pub record CaseRow : Type 0 where
  pub case_id : String
  pub state : CaseState
  pub version : ℕ
  pub severity : String
  pub correlation_key : Option String

pub record TransitionRow : Type 0 where
  pub case_id : String
  pub from_state : CaseState
  pub to_state : CaseState
  pub actor : String
  pub actor_type : String
  pub reason : String
  pub new_version : ℕ
  pub correlation_id : String

pub record AuditRow : Type 0 where
  pub actor : String
  pub actor_type : String
  pub action : String
  pub target : String
  pub outcome : String
  pub correlation_id : String
  pub detail : String

-- The JSON document of an outbox row.
pub data Message : Type 0 where
  event : Event → Message
  command : Command → Message

pub record OutboxRow : Type 0 where
  pub event_id : String
  pub topic : String
  pub payload : Message
  pub published_at : Option ℕ
  pub attempts : ℕ
  pub next_attempt_at : ℕ

pub record ProcessedRow : Type 0 where
  pub consumer_name : String
  pub event_id : String
  pub result_hash : String

pub record DecisionRow : Type 0 where
  pub case_id : String
  pub match_key : String
  pub target : String
  pub valid_from : ℕ
  pub valid_until : Option ℕ
  pub version : ℕ
  pub created_by : String

pub record SandboxRow : Type 0 where
  pub sandbox_id : String
  pub case_id : String
  pub image_id : String
  pub state_version : ℕ
  pub network_identity : Option String

pub record SnapshotRow : Type 0 where
  pub sandbox_id : String
  pub checks : Observations

pub record ActionRow : Type 0 where
  pub action_id : String
  pub command_id : String
  pub sandbox_id : String
  pub case_id : String
  pub action_type : String
  pub action_params : Json
  pub expected_state_version : ℕ
  pub issued_by : String
  pub policy_decision_id : String
  pub status : String
  pub output_tag : Option String
  pub rollback_action_id : Option String
  pub error_detail : Option String
  pub completed_at : Option ℕ

pub record DeploymentRow : Type 0 where
  pub sandbox_action_id : String
  pub artifact_id : String
  pub status : String
  pub expected_sha256 : String
  pub observed_sha256 : Option String
  pub rollback_action_id : Option String
  pub completed_at : Option ℕ

pub record ArtifactRow : Type 0 where
  pub artifact_id : String
  pub deployment_status : String
  pub deployed_at : Option ℕ
  pub approved_for_deployment : Bool

-- The tables of migration 0008 may be missing, which is `none`.
-- Times are in milliseconds; `drawn` counts the ULIDs that were generated.
pub record Db : Type 0 where
  pub cases : List CaseRow
  pub transitions : List TransitionRow
  pub audit : List AuditRow
  pub outbox : List OutboxRow
  pub processed : List ProcessedRow
  pub decisions : List DecisionRow
  pub sandboxes : List SandboxRow
  pub actions : List ActionRow
  pub placements : Option (List DeploymentRow × List ArtifactRow)
  pub snapshots : List SnapshotRow
  pub now : ℕ
  pub drawn : ℕ

pub data Error : Type 0 where
  case_not_found : String → Error
  optimistic_lock_conflict : String → ℕ → ℕ → Error
  invalid_transition : String → CaseState → Error
  contract : ContractError → Error
  unmapped_subject : String → Error
  fingerprint_gate_blocked : String → Report → Error
  malformed_baseline : Error
  exclusion_violation : String → Error
  check_violation : String → Error
  sandbox_not_found : String → Error
  state_version_conflict : String → ℕ → ℕ → Error

abbrev pub Tx : Type 0 → Type 0
Tx = Exec Error Db

abbrev pub by_case_id : String → CaseRow → Bool
by_case_id k c = str_eq c.case_id k

abbrev pub select_case : String → Db → Option CaseRow
select_case k db = find (by_case_id k) db.cases

unfoldable pub insert_audit : AuditRow → Tx (Unit {0})
insert_audit row = modify (λ db. record db { audit = db.audit ++ row ∷ [] })

-- A row that is new has not been tried and is due at once.
abbrev pub outbox_row : String → String → Message → ℕ → OutboxRow
outbox_row event_id topic payload now = record {
  event_id = event_id;
  topic = topic;
  payload = payload;
  published_at = none;
  attempts = 0;
  next_attempt_at = now;
}

unfoldable pub insert_outbox : String → String → Message → Tx (Unit {0})
insert_outbox event_id topic payload =
    modify (λ db. record db { outbox = db.outbox ++ outbox_row event_id topic payload db.now ∷ [] })

-- The empty text counts as none for Python's `or`.
abbrev pub non_empty : Option String → Option String
non_empty none = none
non_empty (some s) = if str_eq s "" then none else some s

abbrev pub raise_contract : Result ContractError ValidatedEvent → Tx ValidatedEvent
raise_contract (ok v) = pure v
raise_contract (err e) = raise (contract e)

abbrev pub raise_unmapped : String → Option String → Tx String
raise_unmapped t (some subject) = pure subject
raise_unmapped t none = raise (unmapped_subject t)

module _ (r : Runtime) where
  -- generate_ulid()
  unfoldable pub generate_ulid : Tx String
  generate_ulid db = (ok (r.ulid db.drawn), record db { drawn = db.drawn + 1 })

  -- `correlation_id or generate_ulid()`, behind `non_empty`
  unfoldable pub or_generated : Option String → Tx String
  unfolding generate_ulid
  or_generated none = generate_ulid
  or_generated (some s) = pure s

  -- build_event of contracts/python/mirage_contracts/envelope.py: the identifier is drawn, both
  -- times are the clock's, and the digest is that of the payload.
  pub build_event : String → Json → String → ℕ → String → String → Option String → Tx Event
  build_event event_type payload source_id sequence actor_type classification case_id db = (
    ok (record {
      event_id = r.ulid db.drawn;
      event_type = event_type;
      schema_version = "1.0";
      event_time = r.rfc3339 db.now;
      ingest_time = r.rfc3339 db.now;
      case_id = case_id;
      session_id = none;
      source_id = source_id;
      sequence = sequence;
      actor_type = actor_type;
      sha256 = r.sha256_hex payload;
      classification = classification;
      payload = payload;
    }),
    record db { drawn = db.drawn + 1 },
  )

  -- A built event is validated and put in the outbox under the subject of its type.
  pub publish : Event → Tx (Unit {0})
  unfolding insert_outbox ◌>>=◌
  publish e = do
    v ← raise_contract (validate_event r e none)
    topic ← raise_unmapped e.event_type (subject_for_event_type e.event_type)
    insert_outbox v.envelope.event_id topic (event v.envelope)

  -- An event is built, validated and put in the outbox.
  unfoldable pub emit : String → Json → String → ℕ → String → String → Option String → Tx (Unit {0})
  unfolding build_event publish ◌>>=◌
  emit event_type payload source_id sequence actor_type classification case_id = do
    e ← build_event event_type payload source_id sequence actor_type classification case_id
    publish e

-- The caller's transaction: commit what was written, or roll all of it back and raise again. The
-- clock and the supply of ULIDs are no tables, and stay as they are.
unfoldable pub transaction : {A : Type 0} → Tx A → Tx A
transaction m db =
    let (res, after) = m db in
    elim res [ ok a ↦ (ok a, after) | err e ↦ (err e, record db { drawn = after.drawn }) ]
