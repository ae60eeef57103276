-- ===== src/EnvController/Execution/Rollback.antt =====
-- What execute_action does when it is asked to roll an action back.
use mirageby_ai.Common.{
  ◌≡◌, refl, sym, ap, ◌∙◌, String, false, some, [], ◌∷◌, inl, inr, arith, Bool-cases, str_eq,
  eq_iff, eq_refl, false-ne-true,
}
use mirageby_ai.Common.Exec.{Result, ok, err, ◌>>=◌, ok_inj}
use mirageby_ai.Contracts.Json.{Json, dict}
use mirageby_ai.EnvController.Host.{
  Host, Failure, Context, restricted_path, unapproved_service, unknown_action_type, crashed,
  required,
}
use mirageby_ai.EnvController.Journal.{Definition, Entry, get, noop, mark_status}
use mirageby_ai.EnvController.Journal.Refinement.{get-record_entry}
use mirageby_ai.EnvController.Execution.{
  Outcome, Request, handler, finish, finish_rollback, entry_for, status_of, output_tag,
  is_output_tag, execute_action, execute_rollback_action, rollback_of, succeeded, failed_outcome,
  journaled, apply_if_defined, apply_rollback_definition, rollback_rejected,
}
use mirageby_ai.SandboxActions.Types.{default_output_tag}

abbrev pub rollback_request : String → String → String → Request
rollback_request target id at = record {
  action_type = "ROLLBACK_ACTION";
  action_params = dict (("target_action_id", Json.text target) ∷ []);
  action_id = id;
  recorded_at = at;
}

pub execute_action-rollback_of :
    (ctx : Context) (target id at : String) (h : Host)
    → execute_action ctx (rollback_request target id at) h
      ≡ rollback_of ctx (rollback_request target id at) target h
unfolding execute_action execute_rollback_action required ◌>>=◌
execute_action-rollback_of ctx target id at h = refl

pub rollback_of_success :
    (ctx : Context) (r : Request) (target : String) (h : Host) (e : Entry)
    → get target h.journal ≡ some e
    → e.status ≡ "SUCCESS"
    → rollback_of ctx r target h
      ≡ finish_rollback r target (apply_if_defined ctx e.rollback_definition h)
unfolding rollback_of
rollback_of_success ctx r target h e found done = ground (arith, (eq_iff e.status "SUCCESS").1 done)

pub rollback_of_other :
    (ctx : Context) (r : Request) (target : String) (h : Host) (e : Entry)
    → get target h.journal ≡ some e
    → str_eq e.status "SUCCESS" ≡ false
    → rollback_of ctx r target h ≡ rollback_rejected h
unfolding rollback_of
rollback_of_other ctx r target h e found other = ground arith

status_of-no_success : (x : Failure) → status_of x ≡ "SUCCESS" → ⊥
status_of-no_success (restricted_path s) h = false-ne-true ((eq_iff "REJECTED" "SUCCESS").1 h)
status_of-no_success (unapproved_service s) h = false-ne-true ((eq_iff "REJECTED" "SUCCESS").1 h)
status_of-no_success (unknown_action_type s) h = false-ne-true ((eq_iff "FAILED" "SUCCESS").1 h)
status_of-no_success (crashed s) h = false-ne-true ((eq_iff "FAILED" "SUCCESS").1 h)

abbrev FromHandler : Context → Request → Host → Outcome → Host → Type 0
FromHandler ctx r h o t =
    (d : Definition) × (s : Host) × (handler ctx r.action_type r.action_params h ≡ (ok d, s))
    × (o.rollback_definition ≡ some d)
    × (t.files ≡ s.files)
    × (get r.action_id t.journal ≡ some (entry_for r (some d) "SUCCESS"))

pub success_of_finish :
    (ctx : Context) (r : Request) (h : Host) (o : Outcome) (t : Host)
    (x : Result Failure Definition × Host)
    → handler ctx r.action_type r.action_params h ≡ x
    → finish r x ≡ (ok o, t)
    → o.status ≡ "SUCCESS"
    → FromHandler ctx r h o t
unfolding finish
success_of_finish ctx r h o t (ok d, s) ran e success =
    elim (Bool-cases (is_output_tag (output_tag r))) [
      | inl tagged ↦
          let entry = entry_for r (some d) "SUCCESS" in
          let same =
            ok_inj {E = Failure} (succeeded (output_tag r) d) o (journaled entry s) t
              (ground arith) in
          (
            d,
            s,
            ran,
            sym (ap (λ (x : Outcome). x.rollback_definition) same.0),
            sym (ap (λ (x : Host). x.files) same.1),
            sym (ap (λ (x : Host). get r.action_id x.journal) same.1)
                ∙ ground (arith, get-record_entry entry s.journal r.action_id, eq_refl r.action_id),
          )
      | inr untagged ↦ absurd (ground arith)
    ]
success_of_finish ctx r h o t (err x, s) ran e success =
    let same = ok_inj {E = Failure} (failed_outcome (status_of x) x) o _ t e in
    absurd (status_of-no_success x (ap (λ (y : Outcome). y.status) same.0 ∙ success))

-- The rollback of an action that has succeeded, when what undoes it runs through
pub rollback_succeeds :
    (ctx : Context) (target id at : String) (t u : Host) (e : Entry) (d : Definition)
    → get target t.journal ≡ some e
    → e.status ≡ "SUCCESS"
    → e.rollback_definition ≡ some d
    → apply_rollback_definition ctx d t ≡ (ok tt, u)
    → execute_action ctx (rollback_request target id at) t ≡ (
      ok (succeeded (default_output_tag "ROLLBACK_ACTION") noop),
      journaled
          (entry_for (rollback_request target id at) (some noop) "SUCCESS")
          (record u { journal = mark_status target "ROLLED_BACK" u.journal }),
    )
unfolding finish_rollback
rollback_succeeds ctx target id at t u e d found success defined undone =
    let r = rollback_request target id at in
    let applied : apply_if_defined ctx e.rollback_definition t ≡ (ok tt, u) =
      ap (λ x. apply_if_defined ctx x t) defined ∙ undone in
    execute_action-rollback_of ctx target id at t
    ∙ rollback_of_success ctx r target t e found success
    ∙ ap (finish_rollback r target) applied
