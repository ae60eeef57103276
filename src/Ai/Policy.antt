-- ===== src/Ai/Policy.antt =====
-- `evaluate_policy`: what a proposal may do in the context it meets.
use mirageby_ai.Common.{
  String, Bool, true, false, not, ◌&&◌, ◌||◌, ◌≡◌, ◌↔◌, if◌then◌else◌, arith, Option, some,
}

-- ACTION_TYPES, and what a caller may send besides
pub data ActionType : Type 0 where
  place_artifact move_artifact create_decoy_directory change_visible_metadata : ActionType
  display_message enable_decoy_service disable_decoy_service request_snapshot : ActionType
  rollback_action conclude_session : ActionType
  unsupported : String → ActionType

-- The classifications that the policy tells apart.
pub data Classification : Type 0 where
  inert controlled : Classification
  other_classification : String → Classification

-- The case state and the strategy phase, which `evaluate_policy` does not read, are left out.
pub record PolicyContext : Type 0 where
  pub sandbox_healthy : Bool
  pub spider_healthy : Bool
  pub evidence_storage_healthy : Bool
  pub artifact_approved : Bool
  pub artifact_classification : Option Classification
  pub analyst_approval : Bool
  pub rate_limit_ok : Bool
  pub destination_allowed : Bool
  pub identity_critical_change : Bool
  pub rollback_available : Bool

pub data PolicyDecision : Type 0 where
  allow : PolicyDecision
  deny_unsupported_action deny_unhealthy_spider deny_rate_limit : PolicyDecision
  deny_outside_mutation_root deny_unverified_artifact : PolicyDecision
  deny_identity_critical_change deny_rollback_unavailable : PolicyDecision
  defer_sandbox_unavailable defer_evidence_storage_unhealthy : PolicyDecision
  require_approval_service_change require_approval_conclude : PolicyDecision

abbrev is_supported : ActionType → Bool
is_supported (unsupported s) = false
is_supported _ = true

abbrev is_restorative : ActionType → Bool
is_restorative request_snapshot = true
is_restorative rollback_action = true
is_restorative _ = false

abbrev needs_evidence_storage : ActionType → Bool
needs_evidence_storage place_artifact = true
needs_evidence_storage move_artifact = true
needs_evidence_storage display_message = true
needs_evidence_storage conclude_session = true
needs_evidence_storage _ = false

abbrev needs_destination : ActionType → Bool
needs_destination place_artifact = true
needs_destination move_artifact = true
needs_destination create_decoy_directory = true
needs_destination _ = false

abbrev is_place_artifact : ActionType → Bool
is_place_artifact place_artifact = true
is_place_artifact _ = false

abbrev is_change_visible_metadata : ActionType → Bool
is_change_visible_metadata change_visible_metadata = true
is_change_visible_metadata _ = false

abbrev is_service_change : ActionType → Bool
is_service_change enable_decoy_service = true
is_service_change disable_decoy_service = true
is_service_change _ = false

abbrev is_conclude_session : ActionType → Bool
is_conclude_session conclude_session = true
is_conclude_session _ = false

abbrev is_rollback_action : ActionType → Bool
is_rollback_action rollback_action = true
is_rollback_action _ = false

abbrev is_verified : Option Classification → Bool
is_verified (some inert) = true
is_verified (some controlled) = true
is_verified _ = false

pub evaluate_policy : ActionType → PolicyContext → PolicyDecision
evaluate_policy a c =
    if not (is_supported a)
    then deny_unsupported_action
    else if not c.sandbox_healthy
    then defer_sandbox_unavailable
    else if not c.spider_healthy && not (is_restorative a)
    then deny_unhealthy_spider
    else if not c.evidence_storage_healthy && needs_evidence_storage a
    then defer_evidence_storage_unhealthy
    else if not c.rate_limit_ok
    then deny_rate_limit
    else if needs_destination a && not c.destination_allowed
    then deny_outside_mutation_root
    else if is_place_artifact a
        && (not c.artifact_approved || not (is_verified c.artifact_classification))
    then deny_unverified_artifact
    else if is_change_visible_metadata a && c.identity_critical_change
    then deny_identity_critical_change
    else if is_service_change a && not c.analyst_approval
    then require_approval_service_change
    else if is_conclude_session a && not c.analyst_approval
    then require_approval_conclude
    else if is_rollback_action a && not c.rollback_available
    then deny_rollback_unavailable
    else allow

-- What each action asks for.
abbrev pub is_warranted : ActionType → PolicyContext → Bool
is_warranted place_artifact c =
    c.spider_healthy
    && (c.evidence_storage_healthy
        && (c.destination_allowed
            && (c.artifact_approved && is_verified c.artifact_classification)))
is_warranted move_artifact c =
    c.spider_healthy && (c.evidence_storage_healthy && c.destination_allowed)
is_warranted create_decoy_directory c = c.spider_healthy && c.destination_allowed
is_warranted change_visible_metadata c = c.spider_healthy && not c.identity_critical_change
is_warranted display_message c = c.spider_healthy && c.evidence_storage_healthy
is_warranted enable_decoy_service c = c.spider_healthy && c.analyst_approval
is_warranted disable_decoy_service c = c.spider_healthy && c.analyst_approval
is_warranted request_snapshot c = true
is_warranted rollback_action c = c.rollback_available
is_warranted conclude_session c =
    c.spider_healthy && (c.evidence_storage_healthy && c.analyst_approval)
is_warranted (unsupported s) c = false

-- An action is allowed exactly when the sandbox is healthy, the rate limit is kept and the context
-- has what this action asks for: an artifact is placed only into an allowed destination, approved
-- and classified as inert or controlled, with the spider and the evidence storage healthy; a
-- decoy service is switched and a session concluded only with the analyst's approval; a rollback
-- needs one that is available; an unsupported action is never allowed.
pub evaluate_policy_allows :
    (a : ActionType) (c : PolicyContext)
    → (evaluate_policy a c ≡ allow)
      ↔ ((c.sandbox_healthy && (c.rate_limit_ok && is_warranted a c)) ≡ true)
unfolding evaluate_policy
evaluate_policy_allows a c = ground arith
