-- ===== src/Gate/Soundness.antt =====
-- How a case may leave SANDBOX_ACTIVE through the gate.
use mirageby_ai.Common.{
  String, ◌+◌, ◌≡◌, ◌≢◌, ap, sym, ◌∙◌, some_inj, Bool, true, inl, inr, none, some, arith,
  Option-cases, Bool-cases,
}
use mirageby_ai.Database.Effects.{Announces, Announces-bind, Announces-emit, Announces-insert_audit}
use mirageby_ai.Common.Exec.{ok}
use mirageby_ai.Contracts.Envelope.{Runtime}
use mirageby_ai.Fingerprint.{Report, observation, must, run_fingerprint_check, report_passed}
use mirageby_ai.Fingerprint.Coverage.{Lists, run_fingerprint_check_covers}
use mirageby_ai.Database.{non_empty, CaseRow, sandbox_active, engaging, Db, select_case}
use mirageby_ai.CaseLifecycle.{TransitionResult, transition_case}
use mirageby_ai.CaseLifecycle.Atomicity.{transition_case_moves}
use mirageby_ai.Gate.{
  Session, GateRequest, observed, passed_on, passed_reason, evaluate_and_record,
  announce_evaluation, advance_past_gate, enforce_fingerprint_gate_before_engaging,
}

module _ (r : Runtime) where
  abbrev pub identified : GateRequest → Db → Db
  identified g db = record db {
    drawn = elim (non_empty g.correlation_id) [ none ↦ db.drawn + 1 | some _ ↦ db.drawn ];
  }

  abbrev pub identifier : GateRequest → Db → String
  identifier g db = elim (non_empty g.correlation_id) [ none ↦ r.ulid db.drawn | some s ↦ s ]

module _ (pattern_matches : String → String → Bool) (r : Runtime) where
  -- A case that waits at the gate, at the version that the caller expects, goes to the evaluation.
  pub enforce_at_gate :
      (g : GateRequest) (s : Session) (c : CaseRow)
      → select_case g.case_id s.db ≡ some c
      → c.state ≡ sandbox_active
      → c.version ≡ g.expected_version
      → enforce_fingerprint_gate_before_engaging pattern_matches r g s
        ≡ advance_past_gate pattern_matches r g
            (identifier r g s.db)
            (record s { db = identified r g s.db })
  unfolding enforce_fingerprint_gate_before_engaging
  enforce_at_gate g s c found waiting current = elim (Option-cases (non_empty g.correlation_id)) [
    | inl generated ↦ ground arith
    | inr (given, e) ↦ ground arith
  ]

  enforce_current :
      (g : GateRequest) (s after : Session) (c : CaseRow) (t : TransitionResult)
      → select_case g.case_id s.db ≡ some c
      → c.state ≡ sandbox_active
      → enforce_fingerprint_gate_before_engaging pattern_matches r g s ≡ (ok t, after)
      → c.version ≡ g.expected_version
  unfolding enforce_fingerprint_gate_before_engaging
  enforce_current g s after c t found waiting h = elim (Option-cases (non_empty g.correlation_id)) [
    | inl generated ↦ ground arith
    | inr (given, e) ↦ ground arith
  ]

  advance_report :
      (g : GateRequest) (id : String) (s after : Session) (t : TransitionResult)
      → advance_past_gate pattern_matches r g id s ≡ (ok t, after)
      → (p : Report) × (run_fingerprint_check pattern_matches g.baseline
            (observed g.sandbox_id s.db)
          ≡ some p)
        × (report_passed p ≡ true)
        × (transition_case r
              (passed_on g passed_reason id)
              (announce_evaluation r g.case_id g.sandbox_id id p s.db).1
            ≡ (ok t, after.db))
  unfolding advance_past_gate evaluate_and_record
  advance_report g id s after t h =
      elim (Option-cases
        (run_fingerprint_check pattern_matches g.baseline (observed g.sandbox_id s.db))) [
          | inl malformed ↦ absurd (ground arith)
          | inr (p, e) ↦ elim (Bool-cases (report_passed p)) [
            | inl passed ↦ (p, e, passed, ground arith)
            | inr failed ↦ absurd (ground arith)
          ]
        ]

module _ (r : Runtime) where
  pub Announces-announce_evaluation :
      (case_id sandbox_id correlation_id : String) (p : Report)
      → Announces 1 1 (announce_evaluation r case_id sandbox_id correlation_id p)
  unfolding announce_evaluation
  Announces-announce_evaluation case_id sandbox_id correlation_id p =
      Announces-bind _ _ (Announces-emit r _ _ _ _ _ _ _) λ _. Announces-insert_audit _

  select_case-announce_evaluation :
      (k case_id sandbox_id correlation_id : String) (p : Report) (db : Db)
      → select_case k (announce_evaluation r case_id sandbox_id correlation_id p db).1
        ≡ select_case k db
  select_case-announce_evaluation k case_id sandbox_id correlation_id p db =
      ap (select_case k)
        ((Announces-announce_evaluation case_id sandbox_id correlation_id p).at db).rest_same

module _ (pattern_matches : String → String → Bool) (r : Runtime) where
  -- If the gate lets a case out of SANDBOX_ACTIVE, then the check of the baseline against the
  -- sandbox's stored snapshot gives a report that passes, and the case goes to ENGAGING.
  pub gate_sound :
      (g : GateRequest) (s after : Session) (c : CaseRow) (t : TransitionResult)
      → select_case g.case_id s.db ≡ some c
      → c.state ≡ sandbox_active
      → enforce_fingerprint_gate_before_engaging pattern_matches r g s ≡ (ok t, after)
      → (p : Report) × (run_fingerprint_check pattern_matches g.baseline
            (observed g.sandbox_id s.db)
          ≡ some p)
        × (report_passed p ≡ true)
        × (t.from_state ≡ sandbox_active)
        × (t.to_state ≡ engaging)
  gate_sound g s after c t found waiting h =
      let current = enforce_current pattern_matches r g s after c t found waiting h in
      let id = identifier r g s.db in
      let start : Session = record s { db = identified r g s.db } in
      let (p, e, passed, moved) =
        advance_report pattern_matches r g id start after t
          (sym (enforce_at_gate pattern_matches r g s c found waiting current) ∙ h) in
      let told = (announce_evaluation r g.case_id g.sandbox_id id p start.db).1 in
      let m = transition_case_moves r (passed_on g passed_reason id) told after.db t moved in
      let same : m.row ≡ c = some_inj m.row c (
        sym m.found
        ∙ select_case-announce_evaluation r g.case_id g.case_id g.sandbox_id id p start.db
        ∙ found) in
      let state : m.row.state ≡ sandbox_active = ap (λ (x : CaseRow). x.state) same ∙ waiting in
      (p, e, passed, m.from_state ∙ state, ground (arith, m.allowed, state))

  -- While one MUST check of the baseline has no observation in the sandbox's snapshot, or the
  -- sandbox has no snapshot at all, no request takes the case out of SANDBOX_ACTIVE.
  pub gate_unobserved :
      (g : GateRequest) (s after : Session) (c : CaseRow) (t : TransitionResult) (name : String)
      → select_case g.case_id s.db ≡ some c
      → c.state ≡ sandbox_active
      → Lists g.baseline.checks name must
      → observation (observed g.sandbox_id s.db) name ≡ none
      → enforce_fingerprint_gate_before_engaging pattern_matches r g s ≢ (ok t, after)
  gate_unobserved g s after c t name found waiting listed unseen h =
      let (p, e, passed, _, _) = gate_sound g s after c t found waiting h in
      let covers =
        run_fingerprint_check_covers pattern_matches g.baseline (observed g.sandbox_id s.db) p e in
      cc (passed, covers.2 name listed unseen)
