-- ===== src/Contracts/Subjects.antt =====
-- libs/mirage_common/subjects.py: the NATS subjects, the streams that own them, and the match of a
-- subject with a stream's pattern.
pub mod Matching
pub mod Ownership
use mirageby_ai.Common.{
  ℕ, zero, suc, ◌+◌, ◌*◌, String, Bool, true, false, ◌||◌, List, [], ◌∷◌, Option, none, some, max,
  ◌==◌, str_eq, if◌then◌else◌,
}
use mirageby_ai.Contracts.Text.{codes, concat, same_codes}

pub record StreamDefinition : Type 0 where
  pub name : String
  pub subjects : List String
  pub max_age_seconds : ℕ
  pub max_bytes : ℕ
  pub num_replicas : ℕ
  pub duplicate_window_seconds : ℕ

abbrev pub redelivery_backoff_seconds : List ℕ
redelivery_backoff_seconds = 1 ∷ 5 ∷ 25 ∷ 125 ∷ 625 ∷ []

abbrev pub sum : List ℕ → ℕ
sum [] = 0
sum (x ∷ xs) = x + sum xs

abbrev pub max_retry_horizon_seconds : ℕ
max_retry_horizon_seconds = sum redelivery_backoff_seconds

abbrev pub dedup_window_seconds : ℕ
dedup_window_seconds = 2 * 60 * 60

abbrev pub telemetry_stream : StreamDefinition
telemetry_stream = record {
  name = "MIRAGE_TELEMETRY";
  subjects = "telemetry.endpoint.>" ∷ "telemetry.sandbox.>" ∷ [];
  max_age_seconds = 24 * 60 * 60;
  max_bytes = 2 * 1024 * 1024 * 1024;
  num_replicas = 1;
  duplicate_window_seconds = dedup_window_seconds;
}

abbrev pub lifecycle_stream : StreamDefinition
lifecycle_stream = record {
  name = "MIRAGE_LIFECYCLE";
  subjects = "investigation.>" ∷ "steering.>" ∷ [];
  max_age_seconds = 30 * 24 * 60 * 60;
  max_bytes = 1 * 1024 * 1024 * 1024;
  num_replicas = 1;
  duplicate_window_seconds = dedup_window_seconds;
}

abbrev pub actions_stream : StreamDefinition
actions_stream = record {
  name = "MIRAGE_ACTIONS";
  subjects =
      "ai.proposal" ∷ "ai.proposal.failed" ∷ "policy.decision" ∷ "policy.decision.failed"
      ∷ "sandbox.command" ∷ "sandbox.command.failed" ∷ "sandbox.result" ∷ "sandbox.result.failed"
      ∷ [];
  max_age_seconds = 30 * 24 * 60 * 60;
  max_bytes = 1 * 1024 * 1024 * 1024;
  num_replicas = 1;
  duplicate_window_seconds = dedup_window_seconds;
}

abbrev pub evidence_stream : StreamDefinition
evidence_stream = record {
  name = "MIRAGE_EVIDENCE";
  subjects =
      "evidence.created" ∷ "evidence.created.failed" ∷ "evidence.verified"
      ∷ "evidence.verified.failed" ∷ "evidence.verification_failed"
      ∷ "evidence.verification_failed.failed" ∷ "canary.callback" ∷ "canary.callback.failed" ∷ [];
  max_age_seconds = 30 * 24 * 60 * 60;
  max_bytes = 512 * 1024 * 1024;
  num_replicas = 1;
  duplicate_window_seconds = dedup_window_seconds;
}

abbrev pub audit_stream : StreamDefinition
audit_stream = record {
  name = "MIRAGE_AUDIT";
  subjects = "audit.>" ∷ "analyst.>" ∷ [];
  max_age_seconds = 365 * 24 * 60 * 60;
  max_bytes = 1 * 1024 * 1024 * 1024;
  num_replicas = 1;
  duplicate_window_seconds = dedup_window_seconds;
}

abbrev pub health_stream : StreamDefinition
health_stream = record {
  name = "MIRAGE_HEALTH";
  subjects =
      "system.health" ∷ "system.health.failed" ∷ "agent.heartbeat" ∷ "agent.heartbeat.failed" ∷ [];
  max_age_seconds = 60 * 60;
  max_bytes = 128 * 1024 * 1024;
  num_replicas = 1;
  duplicate_window_seconds = max (max_retry_horizon_seconds * 2) (30 * 60);
}

abbrev pub stream_definitions : List StreamDefinition
stream_definitions =
    telemetry_stream ∷ lifecycle_stream ∷ actions_stream ∷ evidence_stream ∷ audit_stream
    ∷ health_stream ∷ []

abbrev pub event_type_subjects : List (String × String)
event_type_subjects =
    ("agent.heartbeat", "agent.heartbeat")
    ∷ ("agent.enrolled", "audit.agent.enrolled")
    ∷ ("agent.enrollment_failed", "audit.agent.enrollment_failed")
    ∷ ("agent.enrollment_revoked", "audit.agent.enrollment_revoked")
    ∷ ("agent.certificate_renewed", "audit.agent.certificate_renewed")
    ∷ ("case.created", "investigation.case.created")
    ∷ ("case.state_changed", "investigation.case.state_changed")
    ∷ ("detection.raised", "investigation.detection.raised")
    ∷ ("steering.decision_recorded", "steering.decision_recorded")
    ∷ ("sandbox.command_result", "sandbox.result")
    ∷ ("audit.recorded", "audit.recorded")
    ∷ ("system.health", "system.health")
    ∷ ("spider.observation", "telemetry.sandbox.observation")
    ∷ ("spider.tamper", "audit.spider.tamper")
    ∷ ("spider.fingerprint_snapshot", "telemetry.sandbox.fingerprint_snapshot")
    ∷ ("fingerprint.gate_evaluated", "investigation.fingerprint_gate_evaluated")
    ∷ ("evidence.created", "evidence.created")
    ∷ ("evidence.verified", "evidence.verified")
    ∷ ("evidence.verification_failed", "evidence.verification_failed")
    ∷ ("policy.decision", "policy.decision")
    ∷ ("analyst.directive", "analyst.directive")
    ∷ ("canary.callback", "canary.callback")
    ∷ []

abbrev pub command_type_subjects : List (String × String)
command_type_subjects = ("sandbox.command", "sandbox.command") ∷ []

-- `d.get(k)` on a table of texts
abbrev pub lookup : String → List (String × String) → Option String
lookup k [] = none
lookup k ((j, v) ∷ d) = if str_eq j k then some v else lookup k d

-- `none` is the ValueError of an unmapped type
unfoldable pub subject_for_event_type : String → Option String
subject_for_event_type t = lookup t event_type_subjects

unfoldable pub subject_for_command_type : String → Option String
subject_for_command_type t = lookup t command_type_subjects

pub failed_subject_for : String → String
failed_subject_for subject = concat (subject ∷ ".failed" ∷ [])

-- `text.split(".")`: always one token more than there are dots
abbrev with_head : ℕ → List (List ℕ) → List (List ℕ)
with_head c [] = (c ∷ []) ∷ []
with_head c (t ∷ ts) = (c ∷ t) ∷ ts

pub split_dots : List ℕ → List (List ℕ)
split_dots [] = [] ∷ []
split_dots (c ∷ s) = let ts = split_dots s in if c == b'.' then [] ∷ ts else with_head c ts

-- The loop of `_subject_matches`; behind it the lengths are compared.
pub tokens_match : List (List ℕ) → List (List ℕ) → Bool
tokens_match [] [] = true
tokens_match [] (s ∷ ss) = false
tokens_match (p ∷ ps) [] = same_codes p (codes ">")
tokens_match (p ∷ ps) (s ∷ ss) =
    let rest = tokens_match ps ss in
    if same_codes p (codes ">")
    then true
    else if same_codes p (codes "*")
    then rest
    else if same_codes p s
    then rest
    else false

pub subject_matches : String → String → Bool
unfolding split_dots tokens_match
subject_matches pattern_ subject =
    tokens_match (split_dots (codes pattern_)) (split_dots (codes subject))

pub any_pattern : List String → String → Bool
unfolding subject_matches
any_pattern [] subject = false
any_pattern (p ∷ ps) subject = subject_matches p subject || any_pattern ps subject

pub first_stream : List StreamDefinition → String → Option String
unfolding any_pattern
first_stream [] subject = none
first_stream (d ∷ ds) subject =
    let rest = first_stream ds subject in
    if any_pattern d.subjects subject then some d.name else rest

pub stream_for_subject : String → Option String
unfolding first_stream
stream_for_subject subject = first_stream stream_definitions subject
