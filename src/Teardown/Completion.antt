-- ===== src/Teardown/Completion.antt =====
-- What has happened when a first run of the teardown comes to its end.
use mirageby_ai.Common.{
  ℕ, zero, suc, String, true, not, ◌≡◌, refl, ap, sym, ◌∙◌, ◌⊎◌, List, [], ◌∷◌, ◌++◌, arith, select,
  none, some, drop,
}
use mirageby_ai.Common.Exec.{Result, ok, err, err-ne-ok, raise_if}
use mirageby_ai.Teardown.Types.{
  Step, teardown_steps, CloudResource, Config, World, Entry, Blocked, EvidenceGapOverride, validate,
  destroyed, confirm_no_disallowed_resources, mark_case_destroyed, verify_required_evidence,
  record_remaining_gaps, independently_verify_export, resources_remain,
}
use mirageby_ai.Teardown.Resources.{is_disposable, inventory}
use mirageby_ai.Teardown.Workflow.{
  apply_step, attempt_step, after_step, run_steps, resume, execute, write_journal, entry_of,
  Teardown, is_none,
}

-- The steps have been applied one after the other, with the journal written in between.
abbrev Ran : Config → List Step → World → World → Type 0
Ran c [] w after = w ≡ after
Ran c (s ∷ rest) w after =
    (w' : World) × (es : List Entry) × (apply_step c s w ≡ (ok tt, w'))
    × Ran c rest (write_journal es w') after

attempted :
    (c : Config) (s : Step) (w w' : World) (u : Unit {0})
    → attempt_step c s w ≡ (ok u, w')
    → apply_step c s w ≡ (ok tt, w')
unfolding attempt_step
attempted c s w w' u h = ground arith

after_step-Ran :
    (c : Config) (s : Step) (rest : List Step) (es : List Entry) (w after : World)
    (next : List Entry → Teardown (Unit {0})) (x : Result Blocked (Unit {0}) × World)
    → attempt_step c s w ≡ x
    → after_step s es next x ≡ (ok tt, after)
    → ((es' : List Entry) (w' : World) → next es' w' ≡ (ok tt, after) → Ran c rest w' after)
    → Ran c (s ∷ rest) w after
after_step-Ran c s rest es w after next (err e, w') a h later = absurd (err-ne-ok e tt _ after h)
after_step-Ran c s rest es w after next (ok u, w') a h later =
    (w', es ++ entry_of s (ok u) ∷ [], attempted c s w w' u a, later _ _ h)

run_steps-Ran :
    (c : Config) (steps : List Step) (es : List Entry) (w after : World)
    → run_steps c [] steps es w ≡ (ok tt, after)
    → Ran c steps w after
unfolding run_steps
run_steps-Ran c [] es w after h = ap (λ (x : Result Blocked (Unit {0}) × World). x.1) h
run_steps-Ran c (s ∷ rest) es w after h =
    after_step-Ran c s rest es w after (λ es' w'. run_steps c [] rest es' w') (attempt_step c s w)
      refl h λ es' w'. run_steps-Ran c rest es' w' after

Ran-drop :
    (n : ℕ) (c : Config) (steps : List Step) (w after : World)
    → Ran c steps w after
    → (w' : World) × Ran c (drop n steps) w' after
Ran-drop zero c steps w after h = (w, h)
Ran-drop (suc n) c [] w after h = (w, h)
Ran-drop (suc n) c (s ∷ rest) w after (w', es, a, h) =
    Ran-drop n c rest (write_journal es w') after h

resume_fresh :
    (c : Config) (w : World) → w.journal ≡ none → resume c w ≡ run_steps c [] teardown_steps [] w
unfolding resume
resume_fresh c w fresh = rw fresh refl

execute_resumes :
    (c : Config) (confirmation : String) (w after : World)
    → execute c confirmation w ≡ (ok tt, after)
    → resume c w ≡ (ok tt, after)
unfolding execute
execute_resumes c confirmation w after h = ground arith

execute-Ran :
    (c : Config) (confirmation : String) (w after : World)
    → w.journal ≡ none
    → execute c confirmation w ≡ (ok tt, after)
    → Ran c teardown_steps w after
execute-Ran c confirmation w after fresh h =
    run_steps-Ran c teardown_steps [] w after
      (sym (resume_fresh c w fresh) ∙ execute_resumes c confirmation w after h)

confirmed :
    (c : Config) (w w' : World)
    → apply_step c confirm_no_disallowed_resources w ≡ (ok tt, w')
    → (select is_disposable (inventory c w) ≡ []) × (w' ≡ w)
unfolding apply_step
confirmed c w w' h = settled (select is_disposable (inventory c w)) h
  where
    settled :
        (xs : List CloudResource)
        → raise_if (not (is_none xs)) resources_remain w ≡ (ok tt, w')
        → (xs ≡ []) × (w' ≡ w)
    settled [] e = (refl, ap (λ (x : Result Blocked (Unit {0}) × World). x.1) (sym e))
    settled (x ∷ xs) e = absurd (err-ne-ok resources_remain tt w w' e)

marked :
    (c : Config) (w w' : World)
    → apply_step c mark_case_destroyed w ≡ (ok tt, w')
    → w' ≡ record w { state = record w.state { case_state = destroyed } }
unfolding apply_step
marked c w w' h = ap (λ (x : Result Blocked (Unit {0}) × World). x.1) (sym h)

overridden :
    (c : Config) (w w' v v' : World)
    → apply_step c record_remaining_gaps w ≡ (ok tt, w')
    → apply_step c verify_required_evidence v ≡ (ok tt, v')
    → (c.required_evidence_verified ≡ true)
      ⊎ ((o : EvidenceGapOverride) × (c.override ≡ some o) × (validate o ≡ ok tt))
unfolding apply_step
overridden c w w' v v' h k = ground arith

exported :
    (c : Config) (w w' : World)
    → apply_step c independently_verify_export w ≡ (ok tt, w')
    → c.export_verified ≡ true
unfolding apply_step
exported c w w' h = ground arith

-- When a run without a journal of an earlier one returns, the case is marked as destroyed, the
-- inventory of the environment and case holds no temporary resource that is not protected
-- evidence, the export was verified, and the required evidence was verified or an override was
-- given that passes its own validation.
pub execute_completes :
    (c : Config) (confirmation : String) (w after : World)
    → w.journal ≡ none
    → execute c confirmation w ≡ (ok tt, after)
    → (after.state.case_state ≡ destroyed)
      × (select is_disposable (inventory c after) ≡ [])
      × (c.export_verified ≡ true)
      × ((c.required_evidence_verified ≡ true)
          ⊎ ((o : EvidenceGapOverride) × (c.override ≡ some o) × (validate o ≡ ok tt)))
execute_completes c confirmation w after fresh h =
    let ran = execute-Ran c confirmation w after fresh h in
    let (v6, (w6, es6, gaps, _)) = Ran-drop 6 c teardown_steps w after ran in
    let (v9, (w9, es9, evidence, _)) = Ran-drop 9 c teardown_steps w after ran in
    let (v13, (w13, es13, export, _)) = Ran-drop 13 c teardown_steps w after ran in
    let (v23, (w23, es23, clean, (w24, es24, last, e))) =
      Ran-drop 23 c teardown_steps w after ran in
    let quiet = confirmed c v23 w23 clean in
    let done = marked c (write_journal es23 w23) w24 last in
    (
      ap (λ (x : World). x.state.case_state) (sym e) ∙ ap (λ (x : World). x.state.case_state) done,
      ap (λ (x : World). select is_disposable (inventory c x)) (sym e)
          ∙ ap (λ (x : World). select is_disposable (inventory c x)) done
          ∙ ap (λ (x : World). select is_disposable (inventory c x)) quiet.1
          ∙ quiet.0,
      exported c v13 w13 export,
      overridden c v6 w6 v9 w9 gaps evidence,
    )
