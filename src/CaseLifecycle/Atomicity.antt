-- ===== src/CaseLifecycle/Atomicity.antt =====
-- What a transition that returns has done, and what one that raises leaves.
use mirageby_ai.Common.{
  ℕ, ◌+◌, String, ◌≡◌, true, inl, inr, none, some, [], ◌∷◌, ◌++◌, arith, Option-cases, length,
  update, count, ap, ◌∙◌, sym, ◌≢◌,
}
use mathlib.Core.Path.{ap₂}
use mirageby_ai.Common.Exec.{ok, err, is_ok}
use mirageby_ai.Contracts.Envelope.{Runtime}
use mirageby_ai.Database.{
  non_empty, case_not_found, optimistic_lock_conflict, invalid_transition, destroyed, CaseState,
  CaseRow, Db, select_case,
}
use mirageby_ai.Database.Effects.{Announces, Announces-bind, Announces-insert_audit, Announces-emit}
use mirageby_ai.CaseLifecycle.{
  allowed_transition, TransitionRequest, TransitionResult, at_version, announce_transition,
  apply_transition, transition_case,
}

-- The rows that a transition of case c into state s has left behind.
pub record Moved (q : TransitionRequest) (db after : Db) (t : TransitionResult) : Type 0 where
  pub row : CaseRow
  pub found : select_case q.case_id db ≡ some row
  pub current : row.version ≡ q.expected_version
  pub allowed : allowed_transition row.state ≡ some t.to_state
  pub from_state : t.from_state ≡ row.state
  pub new_version : t.new_version ≡ row.version + 1
  pub one_row : count (at_version q.case_id q.expected_version) db.cases ≡ 1
  pub cases :
      after.cases
      ≡ update
          (at_version q.case_id q.expected_version)
          (λ c. record c { state = t.to_state; version = row.version + 1 })
          db.cases
  pub transitions :
      after.transitions
      ≡ db.transitions
        ++ record {
          case_id = q.case_id;
          from_state = row.state;
          to_state = t.to_state;
          actor = q.actor;
          actor_type = q.actor_type;
          reason = q.reason;
          new_version = row.version + 1;
          correlation_id = t.correlation_id;
        }
          ∷ []
  pub outbox : length after.outbox ≡ length db.outbox + 2
  pub audit : length after.audit ≡ length db.audit + 1

module _ (r : Runtime) where
  Announces-announce_transition :
      (q : TransitionRequest) (correlation_id : String) (from_state to_state : CaseState) (v : ℕ)
      → Announces 2 1 (announce_transition r q correlation_id from_state to_state v)
  unfolding announce_transition
  Announces-announce_transition q correlation_id from_state to_state v =
      Announces-bind _ _ (Announces-emit r _ _ _ _ _ _ _)
        λ _. Announces-bind _ _ (Announces-insert_audit _) λ _. Announces-emit r _ _ _ _ _ _ _

  -- The state in which the transition is announced.
  abbrev moved_db : TransitionRequest → String → CaseRow → CaseState → Db → Db
  moved_db q correlation_id c s db = record db {
    cases =
        update (at_version q.case_id q.expected_version)
          (λ c'. record c' { state = s; version = c.version + 1 }) db.cases;
    transitions =
        db.transitions
        ++ record {
          case_id = q.case_id;
          from_state = c.state;
          to_state = s;
          actor = q.actor;
          actor_type = q.actor_type;
          reason = q.reason;
          new_version = c.version + 1;
          correlation_id = correlation_id;
        }
          ∷ [];
  }

  apply_transition_inv :
      (q : TransitionRequest) (correlation_id : String) (c : CaseRow) (s : CaseState)
      (db after : Db) (t : TransitionResult)
      → apply_transition r q correlation_id c.state s c.version db ≡ (ok t, after)
      → (count (at_version q.case_id q.expected_version) db.cases ≡ 1)
        × (t ≡ record {
          case_id = q.case_id;
          from_state = c.state;
          to_state = s;
          new_version = c.version + 1;
          correlation_id = correlation_id;
        })
        × (is_ok
              (announce_transition r q correlation_id c.state s
                (c.version + 1)
                (moved_db q correlation_id c s db)).0
            ≡ true)
        × (after
            ≡ (announce_transition r q correlation_id c.state s
                (c.version + 1)
                (moved_db q correlation_id c s db)).1)
  unfolding apply_transition
  apply_transition_inv q correlation_id c s db after t h = ground arith

  -- `correlation_id or generate_ulid()` changes the supply of ULIDs only.
  abbrev pub correlation : TransitionRequest → Db → String
  correlation q db = elim (non_empty q.correlation_id) [ none ↦ r.ulid db.drawn | some s ↦ s ]

  abbrev pub correlated : TransitionRequest → Db → Db
  correlated q db = record db {
    drawn = elim (non_empty q.correlation_id) [ none ↦ db.drawn + 1 | some _ ↦ db.drawn ];
  }

  transition_case_unfolds :
      (q : TransitionRequest) (db after : Db) (t : TransitionResult) (c : CaseRow) (s : CaseState)
      → select_case q.case_id db ≡ some c
      → allowed_transition c.state ≡ some s
      → transition_case r q db ≡ (ok t, after)
      → (c.version ≡ q.expected_version)
        × (apply_transition r q (correlation q db) c.state s c.version (correlated q db)
            ≡ (ok t, after))
  unfolding transition_case
  transition_case_unfolds q db after t c s found allowed h =
      elim (Option-cases (non_empty q.correlation_id)) [
        | inl generated ↦ ground arith
        | inr (given, e) ↦ ground arith
      ]

  transition_case_finds :
      (q : TransitionRequest) (db after : Db) (t : TransitionResult)
      → transition_case r q db ≡ (ok t, after)
      → (c : CaseRow) × (s : CaseState) × (select_case q.case_id db ≡ some c)
        × (allowed_transition c.state ≡ some s)
  unfolding transition_case
  transition_case_finds q db after t h = elim (Option-cases (select_case q.case_id db)) [
    | inl unknown ↦ absurd (ground arith)
    | inr (c, found) ↦ elim (Option-cases (allowed_transition c.state)) [
      | inl terminal ↦ absurd (ground arith)
      | inr (s, allowed) ↦ (c, s, found, allowed)
    ]
  ]

  -- A transition that returns has found the case at the expected version, has moved it one step
  -- along the allowed transitions and its version up by one, and has left one transition row, one
  -- audit row and two outbox rows.
  pub transition_case_moves :
      (q : TransitionRequest) (db after : Db) (t : TransitionResult)
      → transition_case r q db ≡ (ok t, after)
      → Moved q db after t
  transition_case_moves q db after t h =
      let (c, s, found, allowed) = transition_case_finds q db after t h in
      let (current, applied) = transition_case_unfolds q db after t c s found allowed h in
      let start = correlated q db in
      let (one, result, done, end) =
        apply_transition_inv q (correlation q db) c s start after t applied in
      let g =
        (Announces-announce_transition q (correlation q db) c.state s (c.version + 1)).at
          (moved_db q (correlation q db) c s start) in
      let to : t.to_state ≡ s = ground arith in
      let id : t.correlation_id ≡ correlation q db = ground arith in
      let reached = end ∙ g.rest_same in
      record {
        row = c;
        found = found;
        current = current;
        allowed = ground arith;
        from_state = ground arith;
        new_version = ground arith;
        one_row = one;
        cases =
            ap (λ (d : Db). d.cases) reached
            ∙ ap
                (λ s'.
                  update (at_version q.case_id q.expected_version)
                    (λ c'. record c' { state = s'; version = c.version + 1 }) db.cases)
                (sym to);
        transitions =
            ap (λ (d : Db). d.transitions) reached
            ∙ ap₂
                (λ s' i.
                  db.transitions
                  ++ record {
                    case_id = q.case_id;
                    from_state = c.state;
                    to_state = s';
                    actor = q.actor;
                    actor_type = q.actor_type;
                    reason = q.reason;
                    new_version = c.version + 1;
                    correlation_id = i;
                  }
                    ∷ [])
                (sym to) (sym id);
        outbox = omega (arith, ap (λ (d : Db). length d.outbox) reached, g.outbox_length done);
        audit = omega (arith, ap (λ (d : Db). length d.audit) reached, g.audit_length done);
      }

  -- A transition of an unknown case, at another version than the case's, or of a destroyed case
  -- raises the error that names it, and changes no table.
  pub transition_case_rejects :
      (q : TransitionRequest) (db : Db)
      → (select_case q.case_id db ≡ none
          → transition_case r q db ≡ (err (case_not_found q.case_id), correlated q db))
        × ((c : CaseRow)
            → select_case q.case_id db ≡ some c
            → c.version ≢ q.expected_version
            → transition_case r q db ≡ (
              err (optimistic_lock_conflict q.case_id q.expected_version c.version),
              correlated q db,
            ))
        × ((c : CaseRow)
            → select_case q.case_id db ≡ some c
            → c.version ≡ q.expected_version
            → c.state ≡ destroyed
            → transition_case r q db
              ≡ (err (invalid_transition q.case_id destroyed), correlated q db))
  unfolding transition_case
  transition_case_rejects q db = elim (Option-cases (non_empty q.correlation_id)) [
    | inl generated ↦ (
      λ unknown. ground arith,
      λ c found stale. ground arith,
      λ c found current end. ground arith,
    )
    | inr (given, e) ↦ (
      λ unknown. ground arith,
      λ c found stale. ground arith,
      λ c found current end. ground arith,
    )
  ]
