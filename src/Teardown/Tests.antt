-- ===== src/Teardown/Tests.antt =====
-- A teardown of one sandbox beside one piece of evidence.
use mirageby_ai.Common.{
  false-ne-true, ◌≡◌, refl, ap, str_eq, true, false, none, some, [], ◌∷◌, ◌⊎◌, inl, select,
}
use mirageby_ai.Common.Exec.{ok, is_ok}
use mirageby_ai.Teardown.Types.{
  CloudResource, sandbox, volume, World, Config, initial_state, EvidenceGapOverride, validate,
  destroyed,
}
use mirageby_ai.Teardown.Resources.{is_disposable, inventory}
use mirageby_ai.Teardown.Workflow.{execute}
use mirageby_ai.Teardown.Safety.{execute_spares}
use mirageby_ai.Teardown.Spared.{Distinct, Spared}
use mirageby_ai.Teardown.Completion.{execute_completes}
use mirageby_ai.Teardown.Evidence.{execute_unproven}

abbrev box : CloudResource
box = record {
  resource_id = "box";
  project = "mirage";
  environment = "dev";
  case_id = some "case";
  resource_type = sandbox;
  temporary = true;
  protected_evidence = false;
  active = true;
}

abbrev evidence : CloudResource
evidence = record box { resource_id = "vol"; resource_type = volume; protected_evidence = true }

abbrev world : World
world = record {
  resources = box ∷ evidence ∷ [];
  fail_once_at = none;
  has_failed = false;
  journal = none;
  state = initial_state;
}

abbrev config : Config
config = record {
  environment = "dev";
  case_id = "case";
  required_evidence_verified = true;
  export_verified = true;
  queue_drain_succeeds = true;
  final_snapshot_succeeds = true;
  certificate_revocation_succeeds = true;
  inventory_complete = true;
  override = none;
}

abbrev ended : World
ended = (execute config "mirage:dev:case" world).1

teardown_runs : execute config "mirage:dev:case" world ≡ (ok tt, ended)
unfolding execute mirageby_ai.Teardown.Workflow.resume mirageby_ai.Teardown.Workflow.run_steps
    mirageby_ai.Teardown.Workflow.attempt_step mirageby_ai.Teardown.Workflow.apply_step
teardown_runs = refl

distinct : Distinct world.resources
distinct = (((λ e. false-ne-true (ap (λ s. str_eq s "vol") e)), tt), (tt, tt))

execute_spares_example :
    Spared config world.resources (execute config "mirage:dev:case" world).1.resources
execute_spares_example = execute_spares config "mirage:dev:case" world distinct

execute_completes_example :
    (ended.state.case_state ≡ destroyed)
    × (select is_disposable (inventory config ended) ≡ [])
    × (config.export_verified ≡ true)
    × ((config.required_evidence_verified ≡ true)
        ⊎ ((o : EvidenceGapOverride) × (config.override ≡ some o) × (validate o ≡ ok tt)))
execute_completes_example =
    execute_completes config "mirage:dev:case" world ended refl teardown_runs

abbrev unproven_config : Config
unproven_config = record config { required_evidence_verified = false }

execute_unproven_example :
    (is_ok (execute unproven_config "mirage:dev:case" world).0 ≡ false)
    × ((execute unproven_config "mirage:dev:case" world).1.resources ≡ world.resources)
execute_unproven_example =
    execute_unproven unproven_config "mirage:dev:case" world (inl (refl, refl, refl))
