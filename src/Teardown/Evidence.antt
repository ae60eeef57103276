-- ===== src/Teardown/Evidence.antt =====
-- The two checks that stand before the removal of anything.
use mirageby_ai.Common.{
  true-ne-false, String, Bool, false, ◌≡◌, refl, ◌∙◌, ◌⊎◌, inl, inr, List, [], ◌∷◌, ◌++◌, All, any,
  none, Bool-cases, take, drop, str_eq,
}
use mirageby_ai.Common.Exec.{Result, ok, err, is_ok}
use mirageby_ai.Teardown.Types.{
  Step, teardown_steps, Config, World, Entry, Blocked, verify_required_evidence,
  independently_verify_export,
}
use mirageby_ai.Teardown.Workflow.{
  Teardown, same_step, apply_step, attempt_step, fails_here, after_step, run_steps, resume, execute,
  write_journal, entry_of, read_journal, journal_entries, passed_steps, expected_confirmation,
}
use mirageby_ai.Teardown.Safety.{removes, apply_step_keeps, read_journal_keeps}

-- The run has failed and every resource is as it was.
abbrev Stopped : World → Result Blocked (Unit {0}) × World → Type 0
Stopped w x = (is_ok x.0 ≡ false) × (x.1.resources ≡ w.resources)

attempt_step_keeps :
    (c : Config) (s : Step) (w : World)
    → removes s ≡ false
    → (attempt_step c s w).1.resources ≡ w.resources
unfolding attempt_step
attempt_step_keeps c s w h = elim (Bool-cases (fails_here s w)) [
  | inl stops ↦ rw stops refl
  | inr goes ↦ rw goes (apply_step_keeps c s w h)
]

attempt_step_fails :
    (c : Config) (s : Step) (w : World)
    → is_ok (apply_step c s w).0 ≡ false
    → is_ok (attempt_step c s w).0 ≡ false
unfolding attempt_step
attempt_step_fails c s w h = elim (Bool-cases (fails_here s w)) [
  | inl stops ↦ rw stops refl
  | inr goes ↦ rw goes h
]

after_step-Stopped :
    (s : Step) (es : List Entry) (w : World) (next : List Entry → Teardown (Unit {0}))
    (x : Result Blocked (Unit {0}) × World)
    → x.1.resources ≡ w.resources
    → ((es' : List Entry) (w' : World) → Stopped w' (next es' w'))
    → Stopped w (after_step s es next x)
after_step-Stopped s es w next (ok u, w') k later =
    let (failed, same) =
      later (es ++ entry_of s (ok u) ∷ []) (write_journal (es ++ entry_of s (ok u) ∷ []) w') in
    (failed, same ∙ k)
after_step-Stopped s es w next (err e, w') k later = (refl, k)

after_step_fails :
    (s : Step) (es : List Entry) (w : World) (next : List Entry → Teardown (Unit {0}))
    (x : Result Blocked (Unit {0}) × World)
    → x.1.resources ≡ w.resources
    → is_ok x.0 ≡ false
    → Stopped w (after_step s es next x)
after_step_fails s es w next (ok u, w') k f = absurd (true-ne-false f)
after_step_fails s es w next (err e, w') k f = (refl, k)

-- A step that has not passed and cannot pass stops a run whose steps before it remove nothing.
run_steps-Stopped :
    (c : Config) (done before rest : List Step) (s : Step) (es : List Entry) (w : World)
    → All (λ b. removes b ≡ false) before
    → removes s ≡ false
    → any (same_step s) done ≡ false
    → ((w' : World) → is_ok (apply_step c s w').0 ≡ false)
    → Stopped w (run_steps c done (before ++ s ∷ rest) es w)
unfolding run_steps
run_steps-Stopped c done [] rest s es w b k due fails = rw due (
    after_step_fails s es w (λ es' w'. run_steps c done rest es' w') (attempt_step c s w)
      (attempt_step_keeps c s w k) (attempt_step_fails c s w (fails w)))
run_steps-Stopped c done (x ∷ xs) rest s es w b k due fails =
    elim (Bool-cases (any (same_step x) done)) [
      | inl passed ↦ rw passed (run_steps-Stopped c done xs rest s es w b.1 k due fails)
      | inr not_yet ↦ rw not_yet (
          after_step-Stopped x es w (λ es' w'. run_steps c done (xs ++ s ∷ rest) es' w')
            (attempt_step c x w) (attempt_step_keeps c x w b.0)
            λ es' w'. run_steps-Stopped c done xs rest s es' w' b.1 k due fails)
    ]

evidence_fails :
    (c : Config) (w : World)
    → c.required_evidence_verified ≡ false
    → c.override ≡ none
    → is_ok (apply_step c verify_required_evidence w).0 ≡ false
unfolding apply_step
evidence_fails c w v o = rw (v, o) refl

export_fails :
    (c : Config) (w : World)
    → c.export_verified ≡ false
    → is_ok (apply_step c independently_verify_export w).0 ≡ false
unfolding apply_step
export_fails c w v = rw v refl

abbrev pub has_passed : Step → World → Bool
has_passed s w = any (same_step s) (passed_steps (journal_entries w.journal))

-- What stands in the way of a run at one of the two checks.
abbrev pub IsUnproven : Config → World → Type 0
IsUnproven c w =
    ((c.required_evidence_verified ≡ false)
      × (c.override ≡ none)
      × (has_passed verify_required_evidence w ≡ false))
    ⊎ ((c.export_verified ≡ false) × (has_passed independently_verify_export w ≡ false))

resume-Stopped : (c : Config) (w : World) → IsUnproven c w → Stopped w (resume c w)
unfolding resume
resume-Stopped c w (inl (v, o, due)) =
    let (f, k) =
      run_steps-Stopped c (passed_steps (journal_entries w.journal)) (take 9 teardown_steps)
        (drop 10 teardown_steps) verify_required_evidence (journal_entries w.journal)
        (read_journal w) (refl, (refl, (refl, (refl, (refl, (refl, (refl, (refl, (refl, tt)))))))))
        refl due (λ w'. evidence_fails c w' v o) in
    (f, k ∙ read_journal_keeps w)
resume-Stopped c w (inr (v, due)) =
    let (f, k) =
      run_steps-Stopped c (passed_steps (journal_entries w.journal)) (take 13 teardown_steps)
        (drop 14 teardown_steps) independently_verify_export (journal_entries w.journal)
        (read_journal w)
        (
          refl,
          (
            refl,
            (
              refl,
              (refl, (refl, (refl, (refl, (refl, (refl, (refl, (refl, (refl, (refl, tt)))))))))),
            ),
          ),
        )
        refl due (λ w'. export_fails c w' v) in
    (f, k ∙ read_journal_keeps w)

-- Nothing is removed for a case whose evidence or export is unproven: when the required evidence
-- is not verified and there is no override, or the export is not verified, and the step that
-- checks it has not passed in an earlier run, then the run fails, for every confirmation and
-- every interruption, and all cloud resources are as they were.
pub execute_unproven :
    (c : Config) (confirmation : String) (w : World)
    → IsUnproven c w
    → (is_ok (execute c confirmation w).0 ≡ false)
      × ((execute c confirmation w).1.resources ≡ w.resources)
unfolding execute
execute_unproven c confirmation w h =
    elim (Bool-cases (str_eq confirmation (expected_confirmation c))) [
      | inr wrong ↦ rw wrong (refl, refl)
      | inl exact ↦ rw exact (resume-Stopped c w h)
    ]
