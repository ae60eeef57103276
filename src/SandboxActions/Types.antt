-- ===== src/SandboxActions/Types.antt =====
-- libs/mirage_common/sandbox_actions.py: the types of actions and the data of an action.
use mirageby_ai.Common.{
  ℕ, String, Bool, not, ◌&&◌, Option, none, some, List, [], ◌∷◌, str_eq, any, if◌then◌else◌,
}
use mirageby_ai.Contracts.Json.{Json}

abbrev pub allowed_action_types : List String
allowed_action_types =
    "PLACE_ARTIFACT" ∷ "MOVE_ARTIFACT" ∷ "CREATE_DECOY_DIRECTORY" ∷ "CHANGE_VISIBLE_METADATA"
    ∷ "DISPLAY_MESSAGE" ∷ "ENABLE_DECOY_SERVICE" ∷ "DISABLE_DECOY_SERVICE" ∷ "REQUEST_SNAPSHOT"
    ∷ "ROLLBACK_ACTION" ∷ "CONCLUDE_SESSION" ∷ "TEST_FILE_PLACEMENT" ∷ "TEST_METADATA_UPDATE"
    ∷ "SOFT_RESET" ∷ "FULL_REBUILD" ∷ "CLEAN_SHUTDOWN" ∷ []

abbrev pub is_one_of : List String → String → Bool
is_one_of types t = any (λ s. str_eq s t) types

abbrev pub decoy_service_actions : List String
decoy_service_actions = "ENABLE_DECOY_SERVICE" ∷ "DISABLE_DECOY_SERVICE" ∷ []

-- ALLOWED_ACTION_TYPES - {"REQUEST_SNAPSHOT", "CONCLUDE_SESSION"}
abbrev pub is_state_mutating : String → Bool
is_state_mutating t =
    is_one_of allowed_action_types t
    && not (is_one_of ("REQUEST_SNAPSHOT" ∷ "CONCLUDE_SESSION" ∷ []) t)

unfoldable pub default_output_tag : String → Option String
default_output_tag t =
    if is_one_of ("DISPLAY_MESSAGE" ∷ []) t
    then none
    else if is_one_of decoy_service_actions t
    then some "DECOY_SERVICE_OUTPUT"
    else some "REAL_OS_OUTPUT"

pub record PendingAction : Type 0 where
  pub action_id : String
  pub command_id : String
  pub sandbox_id : String
  pub case_id : String
  pub action_type : String
  pub action_params : Json
  pub expected_state_version : ℕ
  pub issued_by : String
  pub policy_decision_id : String

pub record ActionRequest : Type 0 where
  pub sandbox_id : String
  pub case_id : String
  pub action_type : String
  pub action_params : Json
  pub expected_state_version : ℕ
  pub issued_by : String
  pub policy_decision_id : Option String
