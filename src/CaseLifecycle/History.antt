-- ===== src/CaseLifecycle/History.antt =====
-- The transitions table as the history of every case, against its state and its version.
use mirageby_ai.Common.{
  ◌+◌, String, ◌≡◌, refl, sym, ◌∙◌, ap, Bool, true, false, inl, inr, some, List, [], ◌∷◌, ◌++◌,
  arith, All, length, length-append, select, select-append, find-All, find-holds, update, str_eq,
  eq_iff, Bool-cases, ◌≢◌, if◌then◌else◌,
}
use mathlib.Core.List.{append-nil}
use mirageby_ai.Common.Exec.{Result, ok, err}
use mirageby_ai.Contracts.Envelope.{Runtime}
use mirageby_ai.Database.{
  CaseState, created, CaseRow, TransitionRow, Db, Error, transaction, by_case_id,
}
use mirageby_ai.CaseLifecycle.{
  allowed_transition, TransitionRequest, TransitionResult, at_version, transition_case,
}
use mirageby_ai.CaseLifecycle.Atomicity.{Moved, transition_case_moves}

-- The rows lead from one state to another along the allowed transitions, none left out.
abbrev pub Chain : CaseState → List TransitionRow → CaseState → Type 0
Chain s [] e = s ≡ e
Chain s (t ∷ ts) e =
    (t.from_state ≡ s) × (allowed_transition s ≡ some t.to_state) × Chain t.to_state ts e

Chain-append :
    (s : CaseState) (ts : List TransitionRow) (e : CaseState) (t : TransitionRow)
    → Chain s ts e
    → t.from_state ≡ e
    → allowed_transition e ≡ some t.to_state
    → Chain s (ts ++ t ∷ []) t.to_state
Chain-append s [] e t h from to = (from ∙ sym h, ap allowed_transition h ∙ to, refl)
Chain-append s (u ∷ ts) e t h from to = (h.0, h.1, Chain-append u.to_state ts e t h.2 from to)

abbrev pub of_case : String → TransitionRow → Bool
of_case k t = str_eq t.case_id k

abbrev pub history : String → List TransitionRow → List TransitionRow
history k = select (of_case k)

-- A case stands where its history leads from CREATED, and its version counts the history.
abbrev pub IsRecorded : List TransitionRow → CaseRow → Type 0
IsRecorded ts c =
    Chain created (history c.case_id ts) c.state × (c.version ≡ length (history c.case_id ts) + 1)

abbrev pub HasHistory : Db → Type 0
HasHistory db = All (IsRecorded db.transitions) db.cases

history-append_self :
    (ts : List TransitionRow) (row : TransitionRow) (k : String)
    → row.case_id ≡ k
    → history k (ts ++ row ∷ []) ≡ history k ts ++ row ∷ []
history-append_self ts row k e =
    select-append (of_case k) ts (row ∷ [])
    ∙ ap (λ l. history k ts ++ l) (ground (arith, eq_iff row.case_id k))

history-append_other :
    (ts : List TransitionRow) (row : TransitionRow) (k : String)
    → row.case_id ≢ k
    → history k (ts ++ row ∷ []) ≡ history k ts
history-append_other ts row k e =
    select-append (of_case k) ts (row ∷ [])
    ∙ ap (λ l. history k ts ++ l) (ground (arith, eq_iff row.case_id k))
    ∙ append-nil (history k ts)

module _ (q : TransitionRequest) (ts : List TransitionRow) (row : TransitionRow) (c : CaseRow) where
  -- One row of the case table under the update of a transition.
  updated-IsRecorded :
      (x : CaseRow)
      → IsRecorded ts c
      → c.case_id ≡ q.case_id
      → c.version ≡ q.expected_version
      → row.case_id ≡ q.case_id
      → row.from_state ≡ c.state
      → allowed_transition c.state ≡ some row.to_state
      → IsRecorded ts x
      → IsRecorded (ts ++ row ∷ []) (
          if at_version q.case_id q.expected_version x
          then record x { state = row.to_state; version = c.version + 1 }
          else x)
  updated-IsRecorded x hc same current of_row from allowed hx =
      elim (Bool-cases (str_eq x.case_id q.case_id)) [
        | inl e ↦
            let id : x.case_id ≡ c.case_id = (eq_iff x.case_id q.case_id).0 e ∙ sym same in
            let v : x.version ≡ c.version =
              hx.1 ∙ ap (λ k. length (history k ts) + 1) id ∙ sym hc.1 in
            let hit : at_version q.case_id q.expected_version x ≡ true = ground arith in
            let grown : history x.case_id (ts ++ row ∷ []) ≡ history c.case_id ts ++ row ∷ [] =
              history-append_self ts row x.case_id (of_row ∙ sym same ∙ sym id)
              ∙ ap (λ k. history k ts ++ row ∷ []) id in
            rw (hit, grown)
              (
                Chain-append created (history c.case_id ts) c.state row hc.0 from allowed,
                omega (arith, hc.1, length-append (history c.case_id ts) (row ∷ [])),
              )
        | inr e ↦
            let miss : at_version q.case_id q.expected_version x ≡ false = ground arith in
            let other : row.case_id ≢ x.case_id =
              λ p. cc (e, (eq_iff x.case_id q.case_id).1 (sym p ∙ of_row)) in
            rw (miss, history-append_other ts row x.case_id other) hx
      ]

  All-updated :
      (xs : List CaseRow)
      → IsRecorded ts c
      → c.case_id ≡ q.case_id
      → c.version ≡ q.expected_version
      → row.case_id ≡ q.case_id
      → row.from_state ≡ c.state
      → allowed_transition c.state ≡ some row.to_state
      → All (IsRecorded ts) xs
      → All (IsRecorded (ts ++ row ∷ [])) (
          update
            (at_version q.case_id q.expected_version)
            (λ x. record x { state = row.to_state; version = c.version + 1 })
            xs)
  All-updated [] hc same current of_row from allowed h = tt
  All-updated (x ∷ xs) hc same current of_row from allowed h = (
    updated-IsRecorded x hc same current of_row from allowed h.0,
    All-updated xs hc same current of_row from allowed h.1,
  )

Moved-HasHistory :
    (q : TransitionRequest) (db after : Db) (t : TransitionResult)
    → Moved q db after t
    → HasHistory db
    → HasHistory after
Moved-HasHistory q db after t m h =
    let first =
      find-All (IsRecorded db.transitions) (by_case_id q.case_id) db.cases m.row h m.found in
    let same = find-holds (by_case_id q.case_id) db.cases m.row m.found in
    rw (m.transitions, m.cases)
      (All-updated q db.transitions _ m.row db.cases first ((eq_iff m.row.case_id q.case_id).0 same)
        m.current refl refl m.allowed h)

-- Requests of any callers, in the order in which the row lock lets them in, each in a transaction.
pub attempts : Runtime → List TransitionRequest → Db → Db
attempts r [] db = db
attempts r (q ∷ qs) db = attempts r qs (transaction (transition_case r q) db).1

transaction-HasHistory :
    (r : Runtime) (q : TransitionRequest) (db : Db)
    → HasHistory db
    → HasHistory (transaction (transition_case r q) db).1
unfolding transaction
transaction-HasHistory r q db h = cases (transition_case r q db) refl
  where
    cases :
        (x : Result Error TransitionResult × Db)
        → transition_case r q db ≡ x
        → HasHistory
            (elim x.0 as (λ _. Result Error TransitionResult × Db) [
              | ok a ↦ (ok a, x.1)
              | err e ↦ (err e, record db { drawn = x.1.drawn })
            ]).1
    cases (ok t, after) e = Moved-HasHistory q db after t (transition_case_moves r q db after t e) h
    cases (err e, after) _ = h

-- Whatever requests come, failing or not, every case stands where its recorded transitions lead
-- from CREATED, one allowed step each, and its version is one more than their number.
pub attempts-HasHistory :
    (r : Runtime) (qs : List TransitionRequest) (db : Db)
    → HasHistory db
    → HasHistory (attempts r qs db)
unfolding attempts
attempts-HasHistory r [] db h = h
attempts-HasHistory r (q ∷ qs) db h =
    attempts-HasHistory r qs (transaction (transition_case r q) db).1
      (transaction-HasHistory r q db h)
