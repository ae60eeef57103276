-- ===== src/Fingerprint.antt =====
-- libs/mirage_common/fingerprint.py: the comparators of the fingerprint checklist and the report.
-- A comparator that raises (a TypeError on a malformed baseline, a KeyError on an unknown
-- comparator) is `none`. Numbers are naturals in one fixed unit.
pub mod Comparators
pub mod Coverage
pub mod Tests
use Prim.Native.String.{compare, ◌∷◌ as text_cons}
use Prim.Native.Nat.{Ordering}
use mirageby_ai.Common.{
  ℕ, zero, suc, ◌+◌, ◌*◌, String, Bool, true, false, not, ◌&&◌, ◌||◌, List, [], ◌∷◌, Option, none,
  some, leb, ◌==◌, str_eq, any, select, count, length, if◌then◌else◌,
}
use mirageby_ai.Fingerprint.Comparators.{
  Value, null, num, text, list, same_value, field_matches, Dict, get_or, contains, set_of,
  compare_exact, compare_baseline_match, compare_required_subset, compare_no_file_predates_date,
  compare_range,
}

pub data Level : Type 0 where
  must should : Level

pub record Check : Type 0 where
  pub name : String
  pub comparator : String
  pub level : Level
  pub expected : Dict

pub record Baseline : Type 0 where
  pub target_id : String
  pub baseline_version : String
  pub checks : List Check

-- {check_name: observation}, where an entry may be None
abbrev pub Observations : Type 0
Observations = List (String × Option Dict)

abbrev pub observation : Observations → String → Option Dict
observation [] k = none
observation ((j, o) ∷ rest) k = if str_eq j k then o else observation rest k

pub record CheckResult : Type 0 where
  pub check_name : String
  pub level : Level
  pub passed : Bool

pub record Report : Type 0 where
  pub target_id : String
  pub baseline_version : String
  pub results : List CheckResult

abbrev pub is_must : CheckResult → Bool
is_must r = elim r.level [ must ↦ true | should ↦ false ]

abbrev pub must_checks : Report → List CheckResult
must_checks p = select is_must p.results

abbrev pub should_checks : Report → List CheckResult
should_checks p = select (λ r. not (is_must r)) p.results

abbrev all_passed : List CheckResult → Bool
all_passed [] = true
all_passed (r ∷ rs) = r.passed && all_passed rs

abbrev pub all_must_passed : Report → Bool
all_must_passed p = all_passed (must_checks p)

-- A fraction: how many of how many SHOULD checks passed; 1 of 1 if there is none.
abbrev ratio_of : List CheckResult → ℕ × ℕ
ratio_of [] = (1, 1)
ratio_of (r ∷ rs) = (count (λ c. c.passed) (r ∷ rs), length (r ∷ rs))

abbrev pub should_pass_ratio : Report → ℕ × ℕ
should_pass_ratio p = ratio_of (should_checks p)

-- `ratio >= 0.75`, multiplied out
abbrev at_threshold : ℕ × ℕ → Bool
at_threshold (good, total) = leb (3 * total) (4 * good)

abbrev pub report_passed : Report → Bool
report_passed p = all_must_passed p && at_threshold (should_pass_ratio p)

-- The names of the MUST checks that failed.
abbrev names_of_failed : List CheckResult → List String
names_of_failed [] = []
names_of_failed (r ∷ rs) =
    let rest = names_of_failed rs in if r.passed then rest else r.check_name ∷ rest

abbrev pub failed_must_checks : Report → List String
failed_must_checks p = names_of_failed (must_checks p)

abbrev add_result : Check → Option Bool → Option (List CheckResult) → Option (List CheckResult)
add_result c (some passed) (some rest) =
    some (record { check_name = c.name; level = c.level; passed = passed } ∷ rest)
add_result c _ _ = none

abbrev report_of : Baseline → Option (List CheckResult) → Option Report
report_of b none = none
report_of b (some results) =
    some
      (record { target_id = b.target_id; baseline_version = b.baseline_version; results = results })

-- `pattern_matches p s` is re.compile(p.replace("*", ".*")).fullmatch(s).
module _ (pattern_matches : String → String → Bool) where
  pub is_hit : List String → List String → String → Bool
  is_hit patterns allowed proc =
      not (contains allowed proc) && any (λ p. pattern_matches p proc) patterns

  abbrev no_hits : Option (List String) → Option (List String) → Option (List String) → Option Bool
  unfolding is_hit
  no_hits (some patterns) (some allowed) (some running) =
      some (not (any (is_hit patterns allowed) running))
  no_hits _ _ _ = none

  pub compare_allowed_set_forbidden_patterns : Dict → Dict → Option Bool
  unfolding is_hit
  compare_allowed_set_forbidden_patterns expected observed =
      no_hits (set_of (get_or expected "forbidden_patterns" (list [])))
        (set_of (get_or expected "allowed" (list [])))
        (set_of (get_or observed "running" (list [])))

  -- _COMPARATORS[name](expected, observed)
  unfoldable pub run_comparator : String → Dict → Dict → Option Bool
  unfolding compare_exact compare_baseline_match compare_required_subset
      compare_no_file_predates_date compare_allowed_set_forbidden_patterns compare_range
  run_comparator name expected observed =
      if str_eq name "exact"
      then compare_exact expected observed
      else if str_eq name "baseline_match"
      then compare_baseline_match expected observed
      else if str_eq name "required_subset"
      then compare_required_subset expected observed
      else if str_eq name "no_file_predates_date"
      then compare_no_file_predates_date expected observed
      else if str_eq name "allowed_set_forbidden_patterns"
      then compare_allowed_set_forbidden_patterns expected observed
      else if str_eq name "range"
      then compare_range expected observed
      else none

  abbrev run_check : Check → Option Dict → Option Bool
  run_check c none = some false
  run_check c (some seen) = run_comparator c.comparator c.expected seen

  pub run_checks : List Check → Observations → Option (List CheckResult)
  run_checks [] observed = some []
  run_checks (c ∷ cs) observed =
      add_result c (run_check c (observation observed c.name)) (run_checks cs observed)

  unfoldable pub run_fingerprint_check : Baseline → Observations → Option Report
  unfolding run_checks
  run_fingerprint_check b observed = report_of b (run_checks b.checks observed)
