-- ===== src/EnvController/Execution/RoundTrip.antt =====
-- An action and its rollback through the journal.
use mirageby_ai.Common.{◌≡◌, refl, sym, ap, ◌∙◌, String, true, false, none, some, arith, some_inj}
use mathlib.Core.Path.{subst}
use mirageby_ai.Common.Exec.{ok, err, bind_err}
use mirageby_ai.Contracts.Json.{Json}
use mirageby_ai.EnvController.Paths.{FilePath, resolve, in_roots}
use mirageby_ai.EnvController.Files.{lookup, remove_row, unlink}
use mirageby_ai.EnvController.Host.{Host, Context, restricted_path, within_roots, change}
use mirageby_ai.EnvController.Journal.{Entry, get, delete_file, noop}
use mirageby_ai.EnvController.Execution.{
  Outcome, Request, handler, finish_rollback, entry_for, execute_action, succeeded, failed_outcome,
  journaled, apply_if_defined, apply_rollback_definition, if_exists,
}
use mirageby_ai.EnvController.Execution.Undo.{Placed, HasParents, delete_file-restores}
use mirageby_ai.EnvController.Execution.Placement.{IsInline, place_artifact-Placed}
use mirageby_ai.SandboxActions.Types.{default_output_tag}
use mirageby_ai.EnvController.Execution.Rollback.{
  rollback_request, execute_action-rollback_of, rollback_of_success, success_of_finish,
  rollback_succeeds,
}

delete_file_inj : (p q : FilePath) → delete_file p ≡ delete_file q → p ≡ q
delete_file_inj p q h = cc

-- When a PLACE_ARTIFACT with its content in the parameters succeeds, and the file that it answers to
-- delete was not there before but its parents were, then a ROLLBACK_ACTION for it right after
-- succeeds, and every path is looked up as before the placing.
pub place-rollback :
    (ctx : Context) (id at rollback_id rollback_at : String) (params : Json) (h t : Host)
    (o : Outcome) (p : FilePath)
    → let placed : Request = record {
      action_type = "PLACE_ARTIFACT";
      action_params = params;
      action_id = id;
      recorded_at = at;
    } in
      IsInline params
      → execute_action ctx placed h ≡ (ok o, t)
      → o.status ≡ "SUCCESS"
      → o.rollback_definition ≡ some (delete_file p)
      → lookup p h.files ≡ none
      → HasParents p h.files
      → (u : Host) × (execute_action ctx (rollback_request id rollback_id rollback_at) t
          ≡ (ok (succeeded (default_output_tag "ROLLBACK_ACTION") noop), u))
        × ((q : FilePath) → lookup q u.files ≡ lookup q h.files)
unfolding execute_action handler
place-rollback ctx id at rid rat params h t o p inline ran success defined fresh parents =
    let r : Request = record {
      action_type = "PLACE_ARTIFACT";
      action_params = params;
      action_id = id;
      recorded_at = at;
    } in
    let (d, s, e, known, files, found) =
      success_of_finish ctx r h o t (handler ctx r.action_type r.action_params h) refl ran
        success in
    let (p1, is_delete, inside, plain, placed) = place_artifact-Placed ctx params h d s inline e in
    let answered : d ≡ delete_file p = some_inj d (delete_file p) (sym known ∙ defined) in
    let same : p1 ≡ p = delete_file_inj p1 p (sym is_delete ∙ answered) in
    let stands : Placed p h.files t.files =
      subst (Placed p h.files) (sym files)
        (subst (λ x. HasParents x h.files → Placed x h.files s.files) same placed parents) in
    let (undone, restored) =
      delete_file-restores ctx p h.files t
        (subst (λ x. in_roots ctx.allowed_roots x ≡ true) same inside)
        (subst (λ x. resolve x ≡ x) same plain) fresh stands in
    (
      _,
      rollback_succeeds ctx id rid rat t (record t { files = remove_row p t.files })
          (entry_for r (some d) "SUCCESS") (delete_file p) found refl (ap some answered) undone,
      restored,
    )

-- A ROLLBACK_ACTION for a successful action that answered with the deletion of a file outside of the
-- approved roots (the markers of CONCLUDE_SESSION and CLEAN_SHUTDOWN and the archive of
-- REQUEST_SNAPSHOT, where the data directory is outside) fails: the files and the action's own entry
-- stay as they are, and the failure is journaled.
pub rollback_outside_fails :
    (ctx : Context) (target id at : String) (h : Host) (e : Entry) (p : FilePath)
    → get target h.journal ≡ some e
    → e.status ≡ "SUCCESS"
    → e.rollback_definition ≡ some (delete_file p)
    → in_roots ctx.allowed_roots (resolve p) ≡ false
    → execute_action ctx (rollback_request target id at) h ≡ (
      ok (failed_outcome "FAILED" (restricted_path "outside all approved mutation roots")),
      journaled (entry_for (rollback_request target id at) none "FAILED") h,
    )
unfolding finish_rollback apply_rollback_definition within_roots
rollback_outside_fails ctx target id at h e p found success defined outside =
    let r = rollback_request target id at in
    let failure = restricted_path "outside all approved mutation roots" in
    let refused_ : within_roots ctx.allowed_roots p h ≡ (err failure, h) = ground arith in
    let applied : apply_if_defined ctx e.rollback_definition h ≡ (err failure, h) =
      ap (λ x. apply_if_defined ctx x h) defined
      ∙ bind_err (within_roots ctx.allowed_roots p)
          (λ path. if_exists path (change (λ now fs. unlink path fs))) h failure h refused_ in
    execute_action-rollback_of ctx target id at h
    ∙ rollback_of_success ctx r target h e found success
    ∙ ap (finish_rollback r target) applied
