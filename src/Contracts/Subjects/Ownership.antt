-- ===== src/Contracts/Subjects/Ownership.antt =====
-- The streams of the mapped types and of their dead letters.
use mirageby_ai.Common.{
  ◌<◌, ◌≤◌, String, ◌≡◌, refl, List, [], ◌∷◌, none, some, All, arith, str_eq, Bool-cases, inl, inr,
}
use mathlib.Core.Path.{subst}
use mirageby_ai.Contracts.Subjects.{
  stream_definitions, max_retry_horizon_seconds, event_type_subjects, lookup,
  subject_for_event_type, failed_subject_for, stream_for_subject,
}

-- One stream owns the subject and its dead-letter subject.
abbrev pub IsOwned : String → Type 0
IsOwned subject =
    (stream : String) × (stream_for_subject subject ≡ some stream)
    × (stream_for_subject (failed_subject_for subject) ≡ some stream)

none-ne-some : {v : String} → none ≡ some v → ⊥
none-ne-some e = cc

lookup-All :
    (P : String → Type 0) (d : List (String × String)) (k v : String)
    → All (λ row. P row.1) d
    → lookup k d ≡ some v
    → P v
lookup-All P [] k v h e = absurd (none-ne-some e)
lookup-All P ((j, w) ∷ d) k v h e = elim (Bool-cases (str_eq j k)) [
  | inl same ↦ let found : w ≡ v = ground arith in subst P found h.0
  | inr other ↦ lookup-All P d k v h.1 (ground arith)
]

event_type_subjects-IsOwned : All (λ row. IsOwned row.1) event_type_subjects
unfolding stream_for_subject failed_subject_for
event_type_subjects-IsOwned = (
  ("MIRAGE_HEALTH", refl, refl),
  (
    ("MIRAGE_AUDIT", refl, refl),
    (
      ("MIRAGE_AUDIT", refl, refl),
      (
        ("MIRAGE_AUDIT", refl, refl),
        (
          ("MIRAGE_AUDIT", refl, refl),
          (
            ("MIRAGE_LIFECYCLE", refl, refl),
            (
              ("MIRAGE_LIFECYCLE", refl, refl),
              (
                ("MIRAGE_LIFECYCLE", refl, refl),
                (
                  ("MIRAGE_LIFECYCLE", refl, refl),
                  (
                    ("MIRAGE_ACTIONS", refl, refl),
                    (
                      ("MIRAGE_AUDIT", refl, refl),
                      (
                        ("MIRAGE_HEALTH", refl, refl),
                        (
                          ("MIRAGE_TELEMETRY", refl, refl),
                          (
                            ("MIRAGE_AUDIT", refl, refl),
                            (
                              ("MIRAGE_TELEMETRY", refl, refl),
                              (
                                ("MIRAGE_LIFECYCLE", refl, refl),
                                (
                                  ("MIRAGE_EVIDENCE", refl, refl),
                                  (
                                    ("MIRAGE_EVIDENCE", refl, refl),
                                    (
                                      ("MIRAGE_EVIDENCE", refl, refl),
                                      (
                                        ("MIRAGE_ACTIONS", refl, refl),
                                        (
                                          ("MIRAGE_AUDIT", refl, refl),
                                          (("MIRAGE_EVIDENCE", refl, refl), tt),
                                        ),
                                      ),
                                    ),
                                  ),
                                ),
                              ),
                            ),
                          ),
                        ),
                      ),
                    ),
                  ),
                ),
              ),
            ),
          ),
        ),
      ),
    ),
  ),
)

-- Whatever event type has a subject, one stream takes both the subject and its dead letters.
pub subject_for_event_type-IsOwned :
    (t subject : String) → subject_for_event_type t ≡ some subject → IsOwned subject
unfolding subject_for_event_type
subject_for_event_type-IsOwned t subject h =
    lookup-All IsOwned event_type_subjects t subject event_type_subjects-IsOwned h

-- In every stream a duplicate is recognised for longer than the redeliveries can take, and the
-- messages are kept at least as long as the window of duplicates.
pub stream_definitions_windows :
    All
      (λ d.
        (max_retry_horizon_seconds < d.duplicate_window_seconds)
        × (d.duplicate_window_seconds ≤ d.max_age_seconds))
      stream_definitions
stream_definitions_windows = omega arith
