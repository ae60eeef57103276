-- ===== src/Fingerprint/Coverage.antt =====
-- Which checks the report covers, and the MUST checks that nothing was observed for.
use mirageby_ai.Common.{
  String, ◌≡◌, refl, ap, Bool, false, ◌⊎◌, inl, inr, List, [], ◌∷◌, Option, none, some, map, arith,
  Option-cases, select,
}
use mirageby_ai.Fingerprint.{
  Check, Baseline, CheckResult, Report, Observations, observation, Level, must, run_checks,
  run_fingerprint_check, report_passed, all_passed, is_must, add_result, run_check, report_of,
}

-- A check of the list has this name and this level.
abbrev pub Lists : List Check → String → Level → Type 0
Lists [] name level = ⊥
Lists (c ∷ cs) name level = ((c.name ≡ name) × (c.level ≡ level)) ⊎ Lists cs name level

add_result_inv :
    (c : Check) (o : Option Bool) (r : Option (List CheckResult)) (rs : List CheckResult)
    → add_result c o r ≡ some rs
    → (passed : Bool) × (rest : List CheckResult) × (o ≡ some passed)
      × (r ≡ some rest)
      × (rs ≡ record { check_name = c.name; level = c.level; passed = passed } ∷ rest)
add_result_inv c none r rs h = absurd (no_result h)
  where
    no_result : none ≡ some rs → ⊥
    no_result e = cc
add_result_inv c (some passed) none rs h = absurd (no_result h)
  where
    no_result : none ≡ some rs → ⊥
    no_result e = cc
add_result_inv c (some passed) (some rest) rs h = (passed, rest, refl, refl, ground arith)

abbrev AnyFailed : List CheckResult → Type 0
AnyFailed [] = ⊥
AnyFailed (r ∷ rs) = ((r.level ≡ must) × (r.passed ≡ false)) ⊎ AnyFailed rs

-- A failed MUST result keeps the list of MUST results from passing.
failed_must : (rs : List CheckResult) → AnyFailed rs → all_passed (select is_must rs) ≡ false
failed_must [] h = absurd h
failed_must (r ∷ rs) (inl (m, f)) = ground arith
failed_must (r ∷ rs) (inr h) = ground (arith, failed_must rs h)

module _ (pattern_matches : String → String → Bool) where
  -- One result for each check of the baseline, in its order, with its level.
  pub run_checks_cover :
      (cs : List Check) (observed : Observations) (rs : List CheckResult)
      → run_checks pattern_matches cs observed ≡ some rs
      → (map (λ r. r.check_name) rs ≡ map (λ c. c.name) cs)
        × (map (λ r. r.level) rs ≡ map (λ c. c.level) cs)
  unfolding run_checks
  run_checks_cover [] observed rs h = ground arith
  run_checks_cover (c ∷ cs) observed rs h =
      let (passed, rest, o, r, e) =
        add_result_inv c (run_check pattern_matches c (observation observed c.name))
          (run_checks pattern_matches cs observed) rs h in
      let ih = run_checks_cover cs observed rest r in
      rw e (ap (λ t. c.name ∷ t) ih.0, ap (λ t. c.level ∷ t) ih.1)

  unobserved_fails :
      (cs : List Check) (observed : Observations) (rs : List CheckResult) (name : String)
      → Lists cs name must
      → observation observed name ≡ none
      → run_checks pattern_matches cs observed ≡ some rs
      → AnyFailed rs
  unfolding run_checks
  unobserved_fails [] observed rs name l u h = absurd l
  unobserved_fails (c ∷ cs) observed rs name (inl (n, m)) u h =
      let (passed, rest, o, r, e) =
        add_result_inv c (run_check pattern_matches c (observation observed c.name))
          (run_checks pattern_matches cs observed) rs h in
      let f : passed ≡ false = ground arith in rw e (inl (m, f))
  unobserved_fails (c ∷ cs) observed rs name (inr l) u h =
      let (passed, rest, o, r, e) =
        add_result_inv c (run_check pattern_matches c (observation observed c.name))
          (run_checks pattern_matches cs observed) rs h in
      rw e (inr (unobserved_fails cs observed rest name l u r))

  -- The report has one result for each check of the baseline, in its order and with its level, and
  -- it does not pass if a MUST check of the baseline was not observed.
  pub run_fingerprint_check_covers :
      (b : Baseline) (observed : Observations) (p : Report)
      → run_fingerprint_check pattern_matches b observed ≡ some p
      → (map (λ r. r.check_name) p.results ≡ map (λ c. c.name) b.checks)
        × (map (λ r. r.level) p.results ≡ map (λ c. c.level) b.checks)
        × ((name : String)
            → Lists b.checks name must
            → observation observed name ≡ none
            → report_passed p ≡ false)
  unfolding run_fingerprint_check
  run_fingerprint_check_covers b observed p h =
      elim (Option-cases (run_checks pattern_matches b.checks observed)) [
        | inl raised ↦ absurd (no_report (rw raised at h))
        | inr (rs, e) ↦
            let same : p.results ≡ rs = ground arith in
            let cover = run_checks_cover b.checks observed rs e in
            rw same (
              cover.0,
              cover.1,
              λ name l u.
                  ground (arith, failed_must rs (unobserved_fails b.checks observed rs name l u e)),
            )
      ]
    where
      no_report : report_of b none ≡ some p → ⊥
      no_report e = cc
