-- ===== src/EnvController/Journal.antt =====
-- agents/mirage-env-controller/mirage_env_controller/journal.py: the local table of the actions
-- carried out, each with what undoes it.
pub mod Refinement
use mirageby_ai.Common.{
  String, Bool, true, false, not, Option, none, some, List, [], ◌∷◌, str_eq, find, update, select,
  if◌then◌else◌,
}
use mirageby_ai.Contracts.Json.{Json}
use mirageby_ai.EnvController.Paths.{FilePath}

-- What undoes an action; a path stands for the text of a resolved one.
pub data Definition : Type 0 where
  noop : Definition
  delete_file : FilePath → Definition
  delete_directory : FilePath → Definition
  move_file : FilePath → FilePath → Definition
  restore_metadata : FilePath → Json → Definition
  enable_decoy_service : String → Json → Definition
  disable_decoy_service : String → Definition

pub record Entry : Type 0 where
  pub action_id : String
  pub action_type : String
  pub action_params : Json
  pub rollback_definition : Option Definition
  pub status : String
  pub recorded_at : String

abbrev pub Journal : Type 0
Journal = List Entry

abbrev pub by_action_id : String → Entry → Bool
by_action_id id e = str_eq e.action_id id

abbrev pub with_status : String → Entry → Entry
with_status s e = record e { status = s }

-- INSERT OR REPLACE on the primary key
unfoldable pub record_entry : Entry → Journal → Journal
record_entry e j = e ∷ select (λ old. not (by_action_id e.action_id old)) j

unfoldable pub get : String → Journal → Option Entry
get id j = find (by_action_id id) j

unfoldable pub mark_status : String → String → Journal → Journal
mark_status id s j = update (by_action_id id) (with_status s) j
