-- ===== src/Detection/Tests.antt =====
-- A detection that opens a case, and its second delivery.
use mirageby_ai.Common.{◌≡◌, refl, true, false}
use mirageby_ai.Common.Exec.{ok}
use mirageby_ai.Samples.{runtime, empty_db}
use mirageby_ai.Database.{Db}
use mirageby_ai.Detection.{Detection, CorrelationResult, correlate_detection}
use mirageby_ai.Detection.Idempotence.{
  TakenUp, correlate_detection_takes_up, correlate_detection_again,
}

abbrev detection : Detection
detection = record {
  detection_event_id = "event";
  detector = "suricata";
  signature_id = "2001";
  severity = "HIGH";
  confidence = "0.9";
  correlation_key = "host";
  source_ref = "pcap";
}

abbrev first_result : CorrelationResult
first_result = record {
  case_id = "01ARZ3NDEKTSV4RRFFQ69G5FAV";
  created = true;
  already_processed = false;
}

abbrev first_db : Db
first_db = (correlate_detection runtime detection empty_db).1

first_runs : correlate_detection runtime detection empty_db ≡ (ok first_result, first_db)
unfolding correlate_detection mirageby_ai.Detection.process mirageby_ai.Detection.create_case
    mirageby_ai.Database.generate_ulid mirageby_ai.Detection.announce_case mirageby_ai.Database.emit
    mirageby_ai.Contracts.Envelope.validate_event
    mirageby_ai.Contracts.Versions.parse_schema_version
    mirageby_ai.Contracts.Subjects.subject_for_event_type mirageby_ai.Database.insert_audit
first_runs = refl

correlate_detection_takes_up_example : TakenUp runtime detection empty_db first_db first_result
correlate_detection_takes_up_example =
    correlate_detection_takes_up runtime detection empty_db first_db first_result refl first_runs

correlate_detection_again_example : correlate_detection runtime detection first_db ≡ (
  ok (record { case_id = "01ARZ3NDEKTSV4RRFFQ69G5FAV"; created = false; already_processed = true }),
  first_db,
)
correlate_detection_again_example =
    correlate_detection_again runtime detection empty_db first_db first_result first_runs
