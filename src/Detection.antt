-- ===== src/Detection.antt =====
-- libs/mirage_common/detection_correlation.py: a detection is taken up by the case of its
-- correlation key, or by a new case, at most once.
pub mod Idempotence
pub mod Tests
use mirageby_ai.Common.{
  String, Bool, true, false, ◌&&◌, Option, none, some, List, [], ◌∷◌, ◌++◌, str_eq, find, any,
  if◌then◌else◌,
}
use mirageby_ai.Common.Exec.{ok, Exec, pure, modify, gets, ◌>>=◌, ◌>>◌}
use mirageby_ai.Contracts.Text.{concat}
use mirageby_ai.Contracts.Json.{text, texts, dict}
use mirageby_ai.Contracts.Envelope.{Runtime}
use mirageby_ai.Database.{
  Db, Tx, AuditRow, CaseRow, ProcessedRow, created, insert_audit, generate_ulid, emit,
}

-- The arguments of `correlate_detection`; the confidence is the text that it is printed as.
pub record Detection : Type 0 where
  pub detection_event_id : String
  pub detector : String
  pub signature_id : String
  pub severity : String
  pub confidence : String
  pub correlation_key : String
  pub source_ref : String

pub record CorrelationResult : Type 0 where
  pub case_id : String
  pub created : Bool
  pub already_processed : Bool

abbrev pub consumer_name : String
consumer_name = "mirage-detection-adapter"

abbrev pub is_processed : String → ProcessedRow → Bool
is_processed id p = str_eq p.consumer_name consumer_name && str_eq p.event_id id

abbrev has_key : String → Option String → Bool
has_key key none = false
has_key key (some k) = str_eq k key

-- WHERE correlation_key = %s
abbrev pub by_correlation_key : String → CaseRow → Bool
by_correlation_key key c = has_key key c.correlation_key

abbrev pub existing_case : Detection → Db → Option CaseRow
existing_case d db = find (by_correlation_key d.correlation_key) db.cases

-- The defaults of the table are the state CREATED and version 1.
abbrev pub new_case : Detection → String → CaseRow
new_case d case_id = record {
  case_id = case_id;
  state = created;
  version = 1;
  severity = d.severity;
  correlation_key = some d.correlation_key;
}

abbrev insert_case : CaseRow → Tx (Unit {0})
insert_case c = modify (λ db. record db { cases = db.cases ++ c ∷ [] })

abbrev insert_processed : ProcessedRow → Tx (Unit {0})
insert_processed p = modify (λ db. record db { processed = db.processed ++ p ∷ [] })

abbrev case_id_or_empty : Option CaseRow → String
case_id_or_empty none = ""
case_id_or_empty (some c) = c.case_id

abbrev pub correlated_row : Detection → CaseRow → AuditRow
correlated_row d c = record {
  actor = consumer_name;
  actor_type = "SYSTEM";
  action = "detection.correlated_to_existing_case";
  target = c.case_id;
  outcome = "SUCCESS";
  correlation_id = d.detection_event_id;
  detail = concat (d.detector ∷ ":" ∷ d.signature_id ∷ " (" ∷ d.source_ref ∷ ")" ∷ []);
}

-- The branch of a case that is there already.
pub note_existing : Detection → CaseRow → Tx String
unfolding ◌>>=◌
note_existing d c = do insert_audit (correlated_row d c); pure c.case_id

module _ (r : Runtime) where
  -- The event and the audit row of a new case.
  pub announce_case : Detection → String → Tx (Unit {0})
  unfolding ◌>>=◌
  announce_case d case_id = do
    emit r "case.created"
        (dict (
          ("case_id", text case_id)
          ∷ ("severity", text d.severity)
          ∷ ("correlation_key", text d.correlation_key)
          ∷ ("source_detection_ids", texts (d.detection_event_id ∷ []))
          ∷ ("initial_state", text "CREATED")
          ∷ []))
        consumer_name 1 "SYSTEM" "INTERNAL" (some case_id)
    insert_audit (record {
      actor = consumer_name;
      actor_type = "SYSTEM";
      action = "case.created";
      target = case_id;
      outcome = "SUCCESS";
      correlation_id = d.detection_event_id;
      detail = concat (
          d.detector ∷ ":" ∷ d.signature_id ∷ " confidence=" ∷ d.confidence ∷ " (" ∷ d.source_ref
          ∷ ")" ∷ []);
    })

  pub create_case : Detection → Tx String
  unfolding ◌>>=◌
  create_case d = do
    case_id ← generate_ulid r
    insert_case (new_case d case_id)
    announce_case d case_id
    pure case_id

  abbrev pub take_up : Detection → Option CaseRow → Tx String
  take_up d none = create_case d
  take_up d (some c) = note_existing d c

  abbrev is_new : Option CaseRow → Bool
  is_new none = true
  is_new (some c) = false

  -- A detection that has not been processed.
  pub process : Detection → Tx CorrelationResult
  unfolding ◌>>=◌
  process d = do
    existing ← gets (existing_case d)
    case_id ← take_up d existing
    insert_processed (record {
      consumer_name = consumer_name;
      event_id = d.detection_event_id;
      result_hash = case_id;
    })
    pure (record { case_id = case_id; created = is_new existing; already_processed = false })

  pub correlate_detection : Detection → Tx CorrelationResult
  correlate_detection d db =
      if any (is_processed d.detection_event_id) db.processed
      then (
        ok (record {
          case_id = case_id_or_empty (existing_case d db);
          created = false;
          already_processed = true;
        }),
        db,
      )
      else process d db
