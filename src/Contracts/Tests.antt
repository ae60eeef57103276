-- ===== src/Contracts/Tests.antt =====
-- An event, a ULID, a subject and a pattern.
use mirageby_ai.Common.{ℕ, ◌≡◌, refl, true, none, some, List, [], ◌∷◌, ◌++◌}
use mirageby_ai.Common.Exec.{ok}
use mirageby_ai.Samples.{runtime}
use mirageby_ai.Contracts.Text.{codes}
use mirageby_ai.Contracts.Json.{null}
use mirageby_ai.Contracts.Envelope.{Event, ValidatedEvent, validate_event}
use mirageby_ai.Contracts.Ulid.{IsUlid, is_valid_ulid, is_valid_ulid_newline}
use mirageby_ai.Contracts.Subjects.{subject_for_event_type}

abbrev pub sample_event : Event
sample_event = record {
  event_id = "01ARZ3NDEKTSV4RRFFQ69G5FAV";
  event_type = "case.created";
  schema_version = "1.0";
  event_time = "t";
  ingest_time = "t";
  case_id = none;
  session_id = none;
  source_id = "test";
  sequence = 1;
  actor_type = "SYSTEM";
  sha256 = "00";
  classification = "INTERNAL";
  payload = null;
}

abbrev validated : ValidatedEvent
validated = record { envelope = sample_event; major_version = 1 }

event_validates : validate_event runtime sample_event none ≡ ok validated
unfolding validate_event mirageby_ai.Contracts.Versions.parse_schema_version
event_validates = refl

abbrev ulid : List ℕ
ulid = codes "01ARZ3NDEKTSV4RRFFQ69G5FAV"

ulid_is_valid : is_valid_ulid ulid ≡ true
unfolding is_valid_ulid
ulid_is_valid = refl

ulid-IsUlid : IsUlid ulid
ulid-IsUlid = (
  refl,
  refl,
  refl,
  (
    refl,
    (
      refl,
      (
        refl,
        (
          refl,
          (
            refl,
            (
              refl,
              (
                refl,
                (
                  refl,
                  (
                    refl,
                    (
                      refl,
                      (
                        refl,
                        (
                          refl,
                          (
                            refl,
                            (
                              refl,
                              (
                                refl,
                                (
                                  refl,
                                  (
                                    refl,
                                    (
                                      refl,
                                      (refl, (refl, (refl, (refl, (refl, (refl, (refl, tt))))))),
                                    ),
                                  ),
                                ),
                              ),
                            ),
                          ),
                        ),
                      ),
                    ),
                  ),
                ),
              ),
            ),
          ),
        ),
      ),
    ),
  ),
)

is_valid_ulid_newline_example :
    (is_valid_ulid ulid ≡ true)
    × (is_valid_ulid (ulid ++ 10 ∷ []) ≡ true)
    × (IsUlid (ulid ++ 10 ∷ []) → ⊥)
is_valid_ulid_newline_example = is_valid_ulid_newline ulid ulid-IsUlid

created_subject : subject_for_event_type "case.created" ≡ some "investigation.case.created"
unfolding subject_for_event_type
created_subject = refl
