-- ===== src/SandboxActions/Opening.antt =====
-- What open_pending_action of libs/mirage_common/sandbox_actions.py does on each of its branches.
use mirageby_ai.Common.{
  ℕ, ◌+◌, String, ◌≡◌, ◌≢◌, refl, ap, ◌∙◌, inl, inr, Option, none, some, [], ◌∷◌, ◌++◌, arith,
  Option-cases, length, length-append,
}
use mirageby_ai.Common.Exec.{Result, ok, err}
use mirageby_ai.Contracts.Envelope.{Runtime}
use mirageby_ai.Contracts.Subjects.{subject_for_command_type}
use mirageby_ai.Database.{
  Db, SandboxRow, Error, sandbox_not_found, state_version_conflict, generate_ulid, non_empty,
  or_generated, insert_outbox,
}
use mirageby_ai.SandboxActions.{select_sandbox, open_pending_action, insert_pending, pending_row}
use mirageby_ai.SandboxActions.Types.{PendingAction, ActionRequest}

module _ (lower : String → String) (r : Runtime) where
  -- The action that is opened.
  abbrev pub opened_action : ActionRequest → Db → PendingAction
  opened_action q db = record {
    action_id = r.ulid db.drawn;
    command_id = r.ulid (db.drawn + 1);
    sandbox_id = q.sandbox_id;
    case_id = q.case_id;
    action_type = q.action_type;
    action_params = q.action_params;
    expected_state_version = q.expected_state_version;
    issued_by = q.issued_by;
    policy_decision_id = elim (non_empty q.policy_decision_id) [
      | none ↦ r.ulid (db.drawn + 1 + 1)
      | some s ↦ s
    ];
  }

  abbrev drawn_after : Option String → ℕ → ℕ
  drawn_after none n = n + 1 + 1 + 1
  drawn_after (some s) n = n + 1 + 1

  open_runs :
      (q : ActionRequest) (db : Db) (x : SandboxRow)
      → select_sandbox q.sandbox_id db ≡ some x
      → x.state_version ≡ q.expected_state_version
      → open_pending_action lower r q db
        ≡ insert_pending
            (opened_action q db)
            (record db { drawn = drawn_after (non_empty q.policy_decision_id) db.drawn })
  unfolding open_pending_action generate_ulid or_generated
  open_runs q db x found current = elim (Option-cases (non_empty q.policy_decision_id)) [
    | inl generated ↦ ground arith
    | inr (given, e) ↦ ground arith
  ]

  pending_inserted :
      (a : PendingAction) (db : Db)
      → ((insert_pending a db).0 ≡ ok a)
        × ((insert_pending a db).1.actions ≡ db.actions ++ pending_row a ∷ [])
        × ((insert_pending a db).1.sandboxes ≡ db.sandboxes)
        × (length (insert_pending a db).1.outbox ≡ length db.outbox + 1)
  unfolding insert_pending insert_outbox subject_for_command_type
  pending_inserted a db = (refl, refl, refl, length-append db.outbox _)

  -- Opening an action raises for an unknown sandbox and for another version than the sandbox's,
  -- and then changes no table; one that is opened stands in the actions as pending, for the
  -- sandbox and the version that were asked for, and its command is the only new outbox row.
  pub open_pending_action_lem :
      (q : ActionRequest) (db : Db)
      → (select_sandbox q.sandbox_id db ≡ none
          → open_pending_action lower r q db ≡ (err (sandbox_not_found q.sandbox_id), db))
        × ((x : SandboxRow)
            → select_sandbox q.sandbox_id db ≡ some x
            → x.state_version ≢ q.expected_state_version
            → open_pending_action lower r q db ≡ (
              err (state_version_conflict q.sandbox_id q.expected_state_version x.state_version),
              db,
            ))
        × ((x : SandboxRow)
            → select_sandbox q.sandbox_id db ≡ some x
            → x.state_version ≡ q.expected_state_version
            → (a : PendingAction) × ((open_pending_action lower r q db).0 ≡ ok a)
              × (a.sandbox_id ≡ q.sandbox_id)
              × (a.expected_state_version ≡ q.expected_state_version)
              × ((open_pending_action lower r q db).1.actions ≡ db.actions ++ pending_row a ∷ [])
              × ((open_pending_action lower r q db).1.sandboxes ≡ db.sandboxes)
              × (length (open_pending_action lower r q db).1.outbox ≡ length db.outbox + 1))
  unfolding open_pending_action
  open_pending_action_lem q db = (
    (λ unknown. ground arith),
    (λ x found stale. ground arith),
    λ x found current.
        let (done, rows, same, sent) =
          pending_inserted (opened_action q db)
            (record db { drawn = drawn_after (non_empty q.policy_decision_id) db.drawn }) in
        let run = open_runs q db x found current in
        (
          opened_action q db,
          ap (λ (y : Result Error PendingAction × Db). y.0) run ∙ done,
          refl,
          refl,
          ap (λ (y : Result Error PendingAction × Db). y.1.actions) run ∙ rows,
          ap (λ (y : Result Error PendingAction × Db). y.1.sandboxes) run ∙ same,
          ap (λ (y : Result Error PendingAction × Db). length y.1.outbox) run ∙ sent,
        ),
  )
