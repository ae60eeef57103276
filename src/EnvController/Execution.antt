-- ===== src/EnvController/Execution.antt =====
-- agents/mirage-env-controller/mirage_env_controller/actions.py: the dispatch of an action to its
-- handler, its entry in the journal and its outcome, and the rollback of an earlier action.
pub mod Placement
pub mod Rollback
pub mod Answers
pub mod Undo
pub mod RoundTrip
use mirageby_ai.Common.{
  ℕ, String, Bool, true, false, not, ◌||◌, Option, none, some, List, [], ◌∷◌, str_eq, any,
  if◌then◌else◌,
}
use mirageby_ai.Common.Exec.{
  Result, ok, err, Exec, pure, raise, gets, modify, raise_if, ◌>>=◌, ◌>>◌,
}
use mirageby_ai.Contracts.Json.{Json, optional}
use mirageby_ai.SandboxActions.Types.{allowed_action_types, default_output_tag}
use mirageby_ai.EnvController.Paths.{FilePath, parent}
use mirageby_ai.EnvController.Files.{
  Files, lookup, exists, unlink, remove_directory, make_dirs, move,
}
use mirageby_ai.EnvController.Journal.{
  Definition, noop, delete_file, delete_directory, move_file, restore_metadata,
  enable_decoy_service, disable_decoy_service, Entry, Journal, record_entry, get, mark_status,
}
use mirageby_ai.EnvController.Host.{
  Host, Failure, Act, Context, restricted_path, unapproved_service, unknown_action_type, crashed,
  change, required, get_field, within_roots, is_text, entry_of,
}
use mirageby_ai.EnvController.Handlers.{
  enable, disable, apply_metadata_fields, place_artifact, move_artifact, create_decoy_directory,
  change_visible_metadata, display_message, enable_service, disable_service,
}
use mirageby_ai.EnvController.Sessions.{
  request_snapshot, conclude_session, clean_shutdown, test_file_placement, test_metadata_update,
  soft_reset, full_rebuild,
}

-- `if path.exists():` before a step
abbrev pub if_exists : FilePath → Act (Unit {0}) → Act (Unit {0})
if_exists p m = gets (λ h. exists p h.files) >>= λ there. if there then m else pure tt

-- `_apply_rollback_definition`
unfoldable pub apply_rollback_definition : Context → Definition → Act (Unit {0})
apply_rollback_definition ctx noop = pure tt
apply_rollback_definition ctx (delete_file p) =
    within_roots ctx.allowed_roots p >>= λ path. if_exists path (change (λ now fs. unlink path fs))
apply_rollback_definition ctx (delete_directory p) = within_roots ctx.allowed_roots p >>= λ path.
    if_exists path (change (λ now fs. remove_directory path fs))
apply_rollback_definition ctx (move_file p q) = within_roots ctx.allowed_roots p >>= λ source.
    within_roots ctx.allowed_roots q >>= λ destination. if_exists source (
      change (λ now fs. make_dirs now (parent destination) fs)
      >> change (λ now fs. move source destination fs))
apply_rollback_definition ctx (restore_metadata p prior_state) =
    within_roots ctx.allowed_roots p >>= λ path.
    if_exists path (apply_metadata_fields ctx path prior_state)
apply_rollback_definition ctx (enable_decoy_service id prior_state) =
    enable ctx.allowed_roots (Json.text id) prior_state
apply_rollback_definition ctx (disable_decoy_service id) = disable ctx (Json.text id) >> pure tt

abbrev pub apply_if_defined : Context → Option Definition → Act (Unit {0})
apply_if_defined ctx none = pure tt
apply_if_defined ctx (some d) = apply_rollback_definition ctx d

pub record Outcome : Type 0 where
  pub status : String
  pub output_tag : Option String
  pub rollback_definition : Option Definition
  pub error_detail : Option Failure

-- The handlers by action type; another type of ALLOWED_ACTION_TYPES has none.
unfoldable pub handler : Context → String → Json → Act Definition
handler ctx t params =
    if str_eq t "REQUEST_SNAPSHOT"
    then request_snapshot ctx
    else if str_eq t "CONCLUDE_SESSION"
    then conclude_session ctx params
    else if str_eq t "SOFT_RESET"
    then soft_reset ctx
    else if str_eq t "FULL_REBUILD"
    then full_rebuild ctx
    else if str_eq t "CLEAN_SHUTDOWN"
    then clean_shutdown ctx params
    else if str_eq t "CHANGE_VISIBLE_METADATA"
    then change_visible_metadata ctx params
    else if str_eq t "ENABLE_DECOY_SERVICE"
    then enable_service ctx params
    else if str_eq t "DISABLE_DECOY_SERVICE"
    then disable_service ctx params
    else if str_eq t "PLACE_ARTIFACT"
    then place_artifact ctx params
    else if str_eq t "MOVE_ARTIFACT"
    then move_artifact ctx params
    else if str_eq t "CREATE_DECOY_DIRECTORY"
    then create_decoy_directory ctx params
    else if str_eq t "DISPLAY_MESSAGE"
    then display_message ctx params
    else if str_eq t "TEST_FILE_PLACEMENT"
    then test_file_placement ctx params
    else if str_eq t "TEST_METADATA_UPDATE"
    then test_metadata_update ctx params
    else raise (crashed "KeyError")

pub record Request : Type 0 where
  pub action_type : String
  pub action_params : Json
  pub action_id : String
  pub recorded_at : String

abbrev pub entry_for : Request → Option Definition → String → Entry
entry_for r d status = record {
  action_id = r.action_id;
  action_type = r.action_type;
  action_params = r.action_params;
  rollback_definition = d;
  status = status;
  recorded_at = r.recorded_at;
}

abbrev pub journaled : Entry → Host → Host
journaled e h = record h { journal = record_entry e h.journal }

abbrev pub status_of : Failure → String
status_of (restricted_path s) = "REJECTED"
status_of (unapproved_service s) = "REJECTED"
status_of (unknown_action_type s) = "FAILED"
status_of (crashed s) = "FAILED"

abbrev pub failed_outcome : String → Failure → Outcome
failed_outcome status e = record {
  status = status;
  output_tag = none;
  rollback_definition = none;
  error_detail = some e;
}

abbrev pub succeeded : Option String → Definition → Outcome
succeeded tag d = record {
  status = "SUCCESS";
  output_tag = tag;
  rollback_definition = some d;
  error_detail = none;
}

abbrev pub text_of : Json → Option String
text_of (Json.text s) = some s
text_of j = none

-- action_params.get(k), where it is a text
pub text_param : String → Json → Option String
text_param k (Json.obj d) = elim (entry_of k d) [ none ↦ none | some v ↦ text_of v ]
text_param k j = none

-- The tag of the parameters for DISPLAY_MESSAGE, else the type's own.
unfoldable pub output_tag : Request → Option String
output_tag r =
    if str_eq r.action_type "DISPLAY_MESSAGE"
    then text_param "output_tag" r.action_params
    else default_output_tag r.action_type

abbrev pub output_tags : List String
output_tags =
    "REAL_OS_OUTPUT" ∷ "DECOY_SERVICE_OUTPUT" ∷ "AI_GENERATED_INTERACTION" ∷ "ANALYST_MESSAGE" ∷ []

abbrev pub is_output_tag : Option String → Bool
is_output_tag none = false
is_output_tag (some t) = any (λ s. str_eq s t) output_tags

-- What execute_action does after the handler: the handler's exceptions are journaled too.
unfoldable pub finish : Request → Result Failure Definition × Host → Result Failure Outcome × Host
finish r (err e, h) =
    (ok (failed_outcome (status_of e) e), journaled (entry_for r none (status_of e)) h)
finish r (ok d, h) =
    if is_output_tag (output_tag r)
    then (ok (succeeded (output_tag r) d), journaled (entry_for r (some d) "SUCCESS") h)
    else (err (crashed "AssertionError"), h)

unfoldable pub finish_rollback :
    Request → String → Result Failure (Unit {0}) × Host → Result Failure Outcome × Host
finish_rollback r target (err e, h) =
    (ok (failed_outcome "FAILED" e), journaled (entry_for r none "FAILED") h)
finish_rollback r target (ok u, h) = (
  ok (succeeded (default_output_tag "ROLLBACK_ACTION") noop),
  journaled (entry_for r (some noop) "SUCCESS")
      (record h { journal = mark_status target "ROLLED_BACK" h.journal }),
)

abbrev pub rollback_rejected : Act Outcome
rollback_rejected = pure (failed_outcome "REJECTED" (crashed "not in SUCCESS state"))

unfoldable pub rollback_of : Context → Request → String → Act Outcome
rollback_of ctx r target h = elim (get target h.journal) [
  | none ↦ rollback_rejected h
  | some entry ↦
      if str_eq entry.status "SUCCESS"
      then finish_rollback r target (apply_if_defined ctx entry.rollback_definition h)
      else rollback_rejected h
]

abbrev pub rollback_target : Context → Request → Json → Act Outcome
rollback_target ctx r (Json.text target) = rollback_of ctx r target
rollback_target ctx r Json.null = rollback_rejected
rollback_target ctx r j = raise (crashed "InterfaceError")

-- `_execute_rollback_action`
unfoldable pub execute_rollback_action : Context → Request → Act Outcome
execute_rollback_action ctx r =
    required "target_action_id" r.action_params >>= rollback_target ctx r

unfoldable pub execute_action : Context → Request → Act Outcome
execute_action ctx r h =
    if not (any (λ t. str_eq t r.action_type) allowed_action_types)
    then raise (unknown_action_type r.action_type) h
    else if str_eq r.action_type "ROLLBACK_ACTION"
    then execute_rollback_action ctx r h
    else finish r (handler ctx r.action_type r.action_params h)
