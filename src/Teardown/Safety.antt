-- ===== src/Teardown/Safety.antt =====
-- What a run of the teardown may do to the cloud resources.
use mirageby_ai.Common.{
  String, Bool, true, false, ◌≡◌, refl, sym, inl, inr, List, [], ◌∷◌, ◌++◌, arith, any, str_eq,
  Bool-cases, if◌then◌else◌, Option, none, some,
}
use mathlib.Core.Path.{subst}
use mirageby_ai.Common.Exec.{Result, ok, err}
use mirageby_ai.Teardown.Types.{
  Step, teardown_steps, ResourceType, Config, World, Entry, Blocked, EvidenceGapOverride,
  record_remaining_gaps, destroy_sandbox, remove_temporary_compute_and_volumes,
  remove_temporary_credentials_and_tokens, remove_temporary_public_endpoints,
}
use mirageby_ai.Teardown.Resources.{inventory, deactivate_each}
use mirageby_ai.Teardown.Workflow.{
  apply_step, attempt_step, after_step, resume, run_steps, execute, write_journal, entry_of,
  read_journal, record_gaps, fails_here, same_step, expected_confirmation, passed_steps,
  journal_entries, Teardown,
}
use mirageby_ai.Teardown.Spared.{
  Distinct, Spared, Spared-refl, Spared-trans, deactivate_each-Spared, inventory-Owns,
  Distinct-Spared,
}

abbrev Keeps : Config → World → World → Type 0
Keeps c w w' = Spared c w.resources w'.resources

kept_by : (c : Config) (w w' : World) → w'.resources ≡ w.resources → Keeps c w w'
kept_by c w w' e = rw e (Spared-refl c w.resources)

removal_spares :
    (c : Config) (types : ResourceType → Bool) (w : World)
    → Distinct w.resources
    → Spared c w.resources (deactivate_each types (inventory c w) w.resources)
removal_spares c types w d =
    deactivate_each-Spared c types (inventory c w) w.resources w.resources
      (inventory-Owns c w.resources d) (Spared-refl c w.resources)

-- The steps that remove resources.
abbrev pub removes : Step → Bool
removes destroy_sandbox = true
removes remove_temporary_compute_and_volumes = true
removes remove_temporary_credentials_and_tokens = true
removes remove_temporary_public_endpoints = true
removes _ = false

record_gaps_keeps :
    (o : Option EvidenceGapOverride) (w : World) → (record_gaps o w).1.resources ≡ w.resources
record_gaps_keeps none w = refl
record_gaps_keeps (some o) w = ground arith

pub apply_step_keeps :
    (c : Config) (s : Step) (w : World)
    → removes s ≡ false
    → (apply_step c s w).1.resources ≡ w.resources
unfolding apply_step
apply_step_keeps c record_remaining_gaps w h = gaps_keep (c.required_evidence_verified)
  where
    gaps_keep :
        (b : Bool) → (if b then (ok tt, w) else record_gaps c.override w).1.resources ≡ w.resources
    gaps_keep true = refl
    gaps_keep false = record_gaps_keeps c.override w
apply_step_keeps c s w h = ground arith

apply_step-Keeps :
    (c : Config) (s : Step) (w : World) → Distinct w.resources → Keeps c w (apply_step c s w).1
unfolding apply_step
apply_step-Keeps c destroy_sandbox w d = removal_spares c _ w d
apply_step-Keeps c remove_temporary_compute_and_volumes w d = removal_spares c _ w d
apply_step-Keeps c remove_temporary_credentials_and_tokens w d = removal_spares c _ w d
apply_step-Keeps c remove_temporary_public_endpoints w d = removal_spares c _ w d
apply_step-Keeps c s w d = kept_by c w (apply_step c s w).1 (apply_step_keeps c s w refl)

attempt_step-Keeps :
    (c : Config) (s : Step) (w : World) → Distinct w.resources → Keeps c w (attempt_step c s w).1
unfolding attempt_step
attempt_step-Keeps c s w d = elim (Bool-cases (fails_here s w)) [
  | inl stops ↦ rw stops (Spared-refl c w.resources)
  | inr goes ↦ rw goes (apply_step-Keeps c s w d)
]

Keeps-trans : (c : Config) (u v w : World) → Keeps c u v → Keeps c v w → Keeps c u w
Keeps-trans c u v w h k = Spared-trans c u.resources v.resources w.resources h k

after_step-Keeps :
    (c : Config) (s : Step) (es : List Entry) (w : World) (next : List Entry → Teardown (Unit {0}))
    (x : Result Blocked (Unit {0}) × World)
    → Distinct w.resources
    → Keeps c w x.1
    → ((es' : List Entry) (w' : World) → Distinct w'.resources → Keeps c w' (next es' w').1)
    → Keeps c w (after_step s es next x).1
after_step-Keeps c s es w next (ok u, w') d k later = Keeps-trans c w w' (next _ _).1 k (
    later (es ++ entry_of s (ok u) ∷ []) (write_journal (es ++ entry_of s (ok u) ∷ []) w')
      (Distinct-Spared c w.resources w'.resources k d))
after_step-Keeps c s es w next (err e, w') d k later = k

run_steps-Keeps :
    (c : Config) (done steps : List Step) (es : List Entry) (w : World)
    → Distinct w.resources
    → Keeps c w (run_steps c done steps es w).1
unfolding run_steps
run_steps-Keeps c done [] es w d = Spared-refl c w.resources
run_steps-Keeps c done (s ∷ rest) es w d = elim (Bool-cases (any (same_step s) done)) [
  | inl passed ↦ rw passed (run_steps-Keeps c done rest es w d)
  | inr due ↦ rw due (
      after_step-Keeps c s es w (λ es' w'. run_steps c done rest es' w') (attempt_step c s w) d
        (attempt_step-Keeps c s w d) λ es' w' d'. run_steps-Keeps c done rest es' w' d')
]

pub read_journal_keeps : (w : World) → (read_journal w).resources ≡ w.resources
read_journal_keeps w = ground arith

resume-Keeps : (c : Config) (w : World) → Distinct w.resources → Keeps c w (resume c w).1
unfolding resume
resume-Keeps c w d =
    let same = read_journal_keeps w in
    subst (λ rs. Spared c rs (resume c w).1.resources) same
      (run_steps-Keeps c (passed_steps (journal_entries w.journal)) teardown_steps
        (journal_entries w.journal) (read_journal w) (subst Distinct (sym same) d))

-- For every configuration, journal and confirmation, and wherever the run stops or fails, each
-- cloud resource is afterwards as it was, or it is one that the inventory of the workflow's own
-- environment and case lists, that is temporary and is not protected evidence, and all that has
-- changed is that it is no longer active. Resources have distinct identifiers.
pub execute_spares :
    (c : Config) (confirmation : String) (w : World)
    → Distinct w.resources
    → Spared c w.resources (execute c confirmation w).1.resources
unfolding execute
execute_spares c confirmation w d =
    elim (Bool-cases (str_eq confirmation (expected_confirmation c))) [
      | inr wrong ↦ rw wrong (Spared-refl c w.resources)
      | inl exact ↦ rw exact (resume-Keeps c w d)
    ]
