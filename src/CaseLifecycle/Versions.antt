-- ===== src/CaseLifecycle/Versions.antt =====
-- A case's version against its state.
use mirageby_ai.Common.{ℕ, ◌+◌, ◌≤◌, ◌≡◌, some, List, [], ◌∷◌, arith, All, length, ap}
use mirageby_ai.Contracts.Envelope.{Runtime}
use mirageby_ai.Database.{
  CaseState, created, armed, monitoring, steering_pending, sandbox_active, engaging, concluding,
  evidence_verifying, exported, destroyed, CaseRow, TransitionRow, Db,
}
use mirageby_ai.CaseLifecycle.{allowed_transition, TransitionRequest}
use mirageby_ai.CaseLifecycle.History.{
  Chain, IsRecorded, HasHistory, history, attempts, attempts-HasHistory,
}

-- How many steps a state is away from CREATED.
abbrev pub rank : CaseState → ℕ
rank created = 0
rank armed = 1
rank monitoring = 2
rank steering_pending = 3
rank sandbox_active = 4
rank engaging = 5
rank concluding = 6
rank evidence_verifying = 7
rank exported = 8
rank destroyed = 9

rank-allowed_transition : (s t : CaseState) → allowed_transition s ≡ some t → rank t ≡ rank s + 1
rank-allowed_transition s t h = ground arith

rank-Chain :
    (s : CaseState) (ts : List TransitionRow) (e : CaseState)
    → Chain s ts e
    → rank e ≡ rank s + length ts
rank-Chain s [] e h = omega (arith, ap rank h)
rank-Chain s (t ∷ ts) e h =
    omega (arith, rank-Chain t.to_state ts e h.2, rank-allowed_transition s t.to_state h.1)

rank-le : (s : CaseState) → rank s ≤ 9
rank-le s = ground arith

recorded_versions :
    (ts : List TransitionRow) (cs : List CaseRow)
    → All (IsRecorded ts) cs
    → All (λ c. (c.version ≡ rank c.state + 1) × (c.version ≤ 10)) cs
recorded_versions ts [] h = tt
recorded_versions ts (c ∷ cs) h =
    let n = rank-Chain created (history c.case_id ts) c.state h.0.0 in
    (
      (omega (arith, n, h.0.1), omega (arith, n, h.0.1, rank-le c.state)),
      recorded_versions ts cs h.1,
    )

-- Whatever requests come to a database whose cases have their history, a case's version is one
-- more than the number of steps from CREATED to its state, and so never above ten.
pub attempts_versions :
    (r : Runtime) (qs : List TransitionRequest) (db : Db)
    → HasHistory db
    → All (λ c. (c.version ≡ rank c.state + 1) × (c.version ≤ 10)) (attempts r qs db).cases
attempts_versions r qs db h =
    recorded_versions (attempts r qs db).transitions (attempts r qs db).cases
      (attempts-HasHistory r qs db h)
