-- ===== src/Fingerprint/Tests.antt =====
-- A baseline with one MUST check that was not observed.
use mirageby_ai.Common.{◌≡◌, refl, String, Bool, false, none, some, [], ◌∷◌, map}
use mirageby_ai.Fingerprint.{
  CheckResult, must, Baseline, Report, run_fingerprint_check, report_passed, observation,
}
use mirageby_ai.Fingerprint.Comparators.{text}
use mirageby_ai.Fingerprint.Coverage.{Lists, run_fingerprint_check_covers}

abbrev matches : String → String → Bool
matches p s = false

abbrev baseline : Baseline
baseline = record {
  target_id = "win";
  baseline_version = "1";
  checks =
      record {
        name = "host";
        comparator = "exact";
        level = must;
        expected = ("value", text "a") ∷ [];
      }
      ∷ [];
}

abbrev failing_report : Report
failing_report = record {
  target_id = "win";
  baseline_version = "1";
  results = record { check_name = "host"; level = must; passed = false } ∷ [];
}

check_runs : run_fingerprint_check matches baseline [] ≡ some failing_report
unfolding run_fingerprint_check
check_runs = refl

run_fingerprint_check_covers_example :
    (map (λ (x : CheckResult). x.check_name) failing_report.results ≡ "host" ∷ [])
    × (map (λ (x : CheckResult). x.level) failing_report.results ≡ must ∷ [])
    × ((name : String)
        → Lists baseline.checks name must
        → observation [] name ≡ none
        → report_passed failing_report ≡ false)
run_fingerprint_check_covers_example =
    run_fingerprint_check_covers matches baseline [] failing_report check_runs
