-- ===== src/Gate/Durability.antt =====
-- What is committed of an evaluation that blocks.
use mirageby_ai.Common.{String, ◌+◌, ◌≡◌, ap, ◌∙◌, Bool, true, false, some, arith, length}
use mirageby_ai.Common.Exec.{Result, err, is_ok}
use mirageby_ai.Contracts.Envelope.{Runtime}
use mirageby_ai.Fingerprint.{Report, run_fingerprint_check, report_passed}
use mirageby_ai.Database.{CaseRow, Error, fingerprint_gate_blocked, sandbox_active, Db, select_case}
use mirageby_ai.CaseLifecycle.{TransitionResult}
use mirageby_ai.Gate.{
  Session, GateRequest, observed, rollback, evaluate_and_record, announce_evaluation,
  advance_past_gate, enforce_fingerprint_gate_before_engaging,
}
use mirageby_ai.Gate.Soundness.{
  identified, identifier, enforce_at_gate, Announces-announce_evaluation,
}

module _ (pattern_matches : String → String → Bool) (r : Runtime) where
  advance_blocked :
      (g : GateRequest) (id : String) (s : Session) (p : Report)
      → run_fingerprint_check pattern_matches g.baseline (observed g.sandbox_id s.db) ≡ some p
      → report_passed p ≡ false
      → is_ok (announce_evaluation r g.case_id g.sandbox_id id p s.db).0 ≡ true
      → let told = (announce_evaluation r g.case_id g.sandbox_id id p s.db).1 in
        advance_past_gate pattern_matches r g id s
        ≡ (err (fingerprint_gate_blocked g.case_id p), record { db = told; durable = told })
  unfolding advance_past_gate evaluate_and_record
  advance_blocked g id s p e failed told = ground arith

  -- A report that does not pass blocks the case, once its event has been accepted: the caller gets
  -- the report in the exception, and after whatever rollback the cases and the transitions are
  -- those of before, with one event and one audit row more.
  pub gate_blocks_durably :
      (g : GateRequest) (s : Session) (c : CaseRow) (p : Report)
      → select_case g.case_id s.db ≡ some c
      → c.state ≡ sandbox_active
      → c.version ≡ g.expected_version
      → run_fingerprint_check pattern_matches g.baseline (observed g.sandbox_id s.db) ≡ some p
      → report_passed p ≡ false
      → is_ok
          (announce_evaluation r g.case_id g.sandbox_id
            (identifier r g s.db)
            p
            (identified r g s.db)).0
        ≡ true
      → let (res, after) = enforce_fingerprint_gate_before_engaging pattern_matches r g s in
        (res ≡ err (fingerprint_gate_blocked g.case_id p))
        × ((rollback after).db.cases ≡ s.db.cases)
        × ((rollback after).db.transitions ≡ s.db.transitions)
        × (length (rollback after).db.outbox ≡ length s.db.outbox + 1)
        × (length (rollback after).db.audit ≡ length s.db.audit + 1)
  gate_blocks_durably g s c p found waiting current e failed told =
      let id = identifier r g s.db in
      let grown =
        (Announces-announce_evaluation r g.case_id g.sandbox_id id p).at (identified r g s.db) in
      let run =
        enforce_at_gate pattern_matches r g s c found waiting current
        ∙ advance_blocked g id (record s { db = identified r g s.db }) p e failed told in
      let kept =
        ap (λ (x : Result Error TransitionResult × Session). x.1.durable) run ∙ grown.rest_same in
      (
        ap (λ (x : Result Error TransitionResult × Session). x.0) run,
        ap (λ (d : Db). d.cases) kept,
        ap (λ (d : Db). d.transitions) kept,
        omega (arith, ap (λ (d : Db). length d.outbox) kept, grown.outbox_length told),
        omega (arith, ap (λ (d : Db). length d.audit) kept, grown.audit_length told),
      )
