-- ===== src/EnvController/Tests.antt =====
-- Runs of the controller on a small host, and the properties at concrete inputs.
use mirageby_ai.Common.{◌≡◌, refl, false, none, some, [], ◌∷◌}
use mathlib.Core.Path.{subst}
use mirageby_ai.Common.Exec.{ok, ok_inj, ◌>>=◌}
use mirageby_ai.Contracts.Text.{codes}
use mirageby_ai.Contracts.Json.{Json, dict}
use mirageby_ai.SandboxActions.Types.{default_output_tag}
use mirageby_ai.EnvController.Paths.{FilePath, resolve_from, in_roots, segments}
use mirageby_ai.EnvController.Files.{
  file, directory, written, raw, lookup, put, remove_row, make_from, write_file,
}
use mirageby_ai.EnvController.Journal.{get, delete_file, noop, record_entry}
use mirageby_ai.EnvController.Host.{
  Host, Failure, Context, Libraries, restricted_path, required, get_or, resolve_param,
  resolve_within_roots, resolve_codes, within_roots, truthy,
}
use mirageby_ai.EnvController.Handlers.{place_artifact, place_at, place_content}
use mirageby_ai.EnvController.Execution.{
  Request, execute_action, succeeded, failed_outcome, entry_for, journaled, finish, handler,
  output_tag,
}
use mirageby_ai.EnvController.Execution.RoundTrip.{place-rollback, rollback_outside_fails}
use mirageby_ai.EnvController.Execution.Rollback.{rollback_request}
use mirageby_ai.EnvController.Execution.Placement.{IsInline}
use mirageby_ai.EnvController.Execution.Answers.{Answered, execute_action-Answered}
use mirageby_ai.EnvController.Journal.Refinement.{get-run, run, record_of, status_set}
use mirageby_ai.EnvController.Sessions.{concluded_marker, conclude_session, write_marker}
use mirageby_ai.EnvController.Confinement.Actions.{may_change}
use mirageby_ai.EnvController.Confinement.Executions.{execute_action-spares}

abbrev libraries : Libraries
libraries = record {
  download = λ url. some ("a" ∷ "b" ∷ []);
  urlparse = λ url. record { scheme = "https"; hostname = "files" };
  sha256 = λ s. s;
  b64decode = λ s. some s;
  size = λ s. 1;
  loads = λ s. none;
  fromisoformat = λ s. none;
}

abbrev context : Context
context = record {
  allowed_roots = (codes "decoy" ∷ []) ∷ [];
  programdata = codes "data" ∷ [];
  baseline_snapshot = none;
  libraries = libraries;
}

abbrev host : Host
host = record {
  files =
      ([], directory 0 0)
      ∷ (codes "decoy" ∷ [], directory 0 0)
      ∷ (codes "etc" ∷ [], file (written (raw "x" ∷ [])) 1 2)
      ∷ [];
  journal = [];
  now = 5000;
}

abbrev place_params : Json
place_params =
    dict (("destination", Json.text "/decoy/x/../a") ∷ ("content_b64", Json.text "hello") ∷ [])

abbrev place : Request
place = record {
  action_type = "PLACE_ARTIFACT";
  action_params = place_params;
  action_id = "1";
  recorded_at = "t";
}

abbrev a_path : FilePath
a_path = codes "decoy" ∷ codes "a" ∷ []

abbrev placed_host : Host
placed_host = record {
  files = (a_path, file (written (raw "hello" ∷ [])) 5000 5000) ∷ host.files;
  journal = entry_for place (some (delete_file a_path)) "SUCCESS" ∷ [];
  now = 5000;
}

place_run :
    execute_action context place host
    ≡ (ok (succeeded (some "REAL_OS_OUTPUT") (delete_file a_path)), placed_host)
unfolding execute_action finish handler place_artifact place_at place_content ◌>>=◌ required get_or
    resolve_param resolve_within_roots resolve_codes within_roots segments resolve_from in_roots
    truthy write_file make_from lookup put remove_row output_tag default_output_tag record_entry
place_run = refl

-- A traversal out of the roots is rejected.
abbrev escape : Request
escape = record {
  action_type = "PLACE_ARTIFACT";
  action_params =
      dict (("destination", Json.text "/decoy/../etc") ∷ ("content_b64", Json.text "y") ∷ []);
  action_id = "3";
  recorded_at = "t";
}

escape_run :
    (execute_action context escape host).0
    ≡ ok (failed_outcome "REJECTED" (restricted_path "outside all approved mutation roots"))
unfolding execute_action finish handler place_artifact ◌>>=◌ required resolve_param
    resolve_within_roots resolve_codes within_roots segments resolve_from in_roots
escape_run = refl

place-IsInline : IsInline place_params
unfolding get_or truthy
place-IsInline h url t r =
    subst (λ x. truthy x ≡ false) (ok_inj {E = Failure} Json.null url h t r).0 refl

place-rollback_example :
    (u : Host) × (execute_action context (rollback_request "1" "2" "t") placed_host
      ≡ (ok (succeeded (default_output_tag "ROLLBACK_ACTION") noop), u))
    × ((q : FilePath) → lookup q u.files ≡ lookup q host.files)
unfolding lookup make_from
place-rollback_example =
    place-rollback context "1" "t" "2" "t" place_params host placed_host
      (succeeded (some "REAL_OS_OUTPUT") (delete_file a_path)) a_path place-IsInline place_run refl
      refl refl (λ now. refl)

execute_action-spares_example :
    lookup (codes "etc" ∷ []) (execute_action context escape host).1.files
    ≡ some (file (written (raw "x" ∷ [])) 1 2)
unfolding resolve_from may_change in_roots lookup
execute_action-spares_example =
    execute_action-spares context (refl, tt) escape host (codes "etc" ∷ [])
      (file (written (raw "x" ∷ [])) 1 2) refl refl

execute_action-Answered_example : Answered escape [] (execute_action context escape host)
unfolding resolve_from
execute_action-Answered_example = execute_action-Answered context escape host (refl, tt) refl refl

abbrev rolled_back_host : Host
rolled_back_host = record {
  files = host.files;
  journal =
      entry_for (rollback_request "1" "2" "t") (some noop) "SUCCESS"
      ∷ entry_for place (some (delete_file a_path)) "ROLLED_BACK"
      ∷ [];
  now = 5000;
}

-- CONCLUDE_SESSION, where the data directory is outside of the roots
abbrev concluded : Request
concluded = record {
  action_type = "CONCLUDE_SESSION";
  action_params = dict (("reason", Json.text "done") ∷ []);
  action_id = "5";
  recorded_at = "t";
}

abbrev concluded_host : Host
concluded_host = record {
  files = host.files;
  journal = entry_for concluded (some (delete_file (concluded_marker context))) "SUCCESS" ∷ [];
  now = 6000;
}

conclude_run :
    (execute_action context concluded host).0
    ≡ ok (succeeded (some "REAL_OS_OUTPUT") (delete_file (concluded_marker context)))
unfolding execute_action finish handler conclude_session write_marker ◌>>=◌ required make_from
    lookup put remove_row write_file output_tag default_output_tag
conclude_run = refl

rollback_outside_fails_example :
    execute_action context (rollback_request "5" "6" "t") concluded_host ≡ (
      ok (failed_outcome "FAILED" (restricted_path "outside all approved mutation roots")),
      journaled (entry_for (rollback_request "5" "6" "t") none "FAILED") concluded_host,
    )
unfolding get resolve_from in_roots
rollback_outside_fails_example =
    rollback_outside_fails context "5" "6" "t" concluded_host
      (entry_for concluded (some (delete_file (concluded_marker context))) "SUCCESS")
      (concluded_marker context) refl refl refl refl

get-run_example :
    get "1"
      (run (record_of (entry_for place none "SUCCESS") ∷ status_set "1" "ROLLED_BACK" ∷ []) [])
    ≡ some (entry_for place none "ROLLED_BACK")
unfolding get
get-run_example =
    get-run (record_of (entry_for place none "SUCCESS") ∷ status_set "1" "ROLLED_BACK" ∷ []) [] "1"
