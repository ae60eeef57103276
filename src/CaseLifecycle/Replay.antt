-- ===== src/CaseLifecycle/Replay.antt =====
-- A request that is sent again after it has gone through, and two requests for one version.
use mirageby_ai.Common.{◌+◌, ◌≡◌, refl, ap, ◌∙◌, true, some, arith, find-update, find-holds, find}
use mirageby_ai.Common.Exec.{Result, ok, err}
use mirageby_ai.Contracts.Envelope.{Runtime}
use mirageby_ai.Database.{Db, Error, CaseRow, by_case_id, select_case, optimistic_lock_conflict}
use mirageby_ai.CaseLifecycle.{TransitionRequest, TransitionResult, at_version, transition_case}
use mirageby_ai.CaseLifecycle.Atomicity.{
  Moved, correlated, transition_case_moves, transition_case_rejects,
}

select_case-after :
    (q : TransitionRequest) (db after : Db) (t : TransitionResult) (m : Moved q db after t)
    → select_case q.case_id after
      ≡ some (record m.row { state = t.to_state; version = m.row.version + 1 })
select_case-after q db after t m =
    ap (find (by_case_id q.case_id)) m.cases
    ∙ find-update (by_case_id q.case_id) (at_version q.case_id q.expected_version)
        (λ c. record c { state = t.to_state; version = m.row.version + 1 }) db.cases m.row
        (λ x. refl) m.found hit
  where
    hit : at_version q.case_id q.expected_version m.row ≡ true
    hit = ground (arith, find-holds (by_case_id q.case_id) db.cases m.row m.found, m.current)

-- Of two requests for the same case and version at most one goes through: behind one that
-- returned, the other, or the same one sent again, raises the conflict with the version that the
-- first has made, and changes no table.
pub transition_case_once :
    (r : Runtime) (q p : TransitionRequest) (db after : Db) (t : TransitionResult)
    → transition_case r q db ≡ (ok t, after)
    → p.case_id ≡ q.case_id
    → p.expected_version ≡ q.expected_version
    → transition_case r p after ≡ (
      err (optimistic_lock_conflict p.case_id p.expected_version (p.expected_version + 1)),
      correlated r p after,
    )
transition_case_once r q p db after t h same v =
    let m = transition_case_moves r q db after t h in
    let bumped : CaseRow = record m.row { state = t.to_state; version = m.row.version + 1 } in
    let found : select_case p.case_id after ≡ some bumped =
      ap (λ k. select_case k after) same ∙ select_case-after q db after t m in
    let next : m.row.version + 1 ≡ p.expected_version + 1 = omega (arith, m.current) in
    (transition_case_rejects r p after).1 bumped found (omega (arith, m.current))
    ∙ ap {B = Result Error TransitionResult × Db}
        (λ n. (err (optimistic_lock_conflict p.case_id p.expected_version n), correlated r p after))
        next
