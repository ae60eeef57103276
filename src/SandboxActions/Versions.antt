-- ===== src/SandboxActions/Versions.antt =====
-- The optimistic concurrency of the sandboxes.
use mirageby_ai.Common.{
  ℕ, ◌+◌, String, true, false, ◌≡◌, refl, ap, sym, ◌∙◌, ◌⊎◌, inl, inr, Option, List, [], ◌∷◌, arith,
  str_eq, count, update, Bool-cases, length,
}
use mathlib.Core.Path.{subst}
use mirageby_ai.Common.Exec.{Result, ok, err, is_ok}
use mirageby_ai.Contracts.Envelope.{Runtime}
use mirageby_ai.Database.{Db, SandboxRow, Error, state_version_conflict}
use mirageby_ai.Database.Effects.{Announces, Announces-bind, Announces-insert_audit, Announces-emit}
use mirageby_ai.SandboxActions.{
  at_state_version, is_mutation, advance_version, follow_artifact, announce_result,
  record_action_result, complete_action,
}
use mirageby_ai.SandboxActions.Types.{PendingAction}

-- The sandboxes after a mutation of one of them.
abbrev pub bumped : PendingAction → List SandboxRow → List SandboxRow
bumped a xs =
    update (at_state_version a.sandbox_id a.expected_state_version)
      (λ x. record x { state_version = a.expected_state_version + 1 }) xs

count-bumped :
    (a : PendingAction) (xs : List SandboxRow)
    → count (at_state_version a.sandbox_id a.expected_state_version) (bumped a xs) ≡ 0
count-bumped a [] = refl
count-bumped a (x ∷ xs) = ground (arith, count-bumped a xs)

-- What the guarded UPDATE comes to.
abbrev pub Advanced : PendingAction → String → List SandboxRow → ℕ → List SandboxRow → Type 0
Advanced a status xs v ys =
    ((is_mutation a status ≡ true)
      × (count (at_state_version a.sandbox_id a.expected_state_version) xs ≡ 1)
      × (v ≡ a.expected_state_version + 1)
      × (ys ≡ bumped a xs))
    ⊎ ((is_mutation a status ≡ false) × (v ≡ a.expected_state_version) × (ys ≡ xs))

advance_version-Advanced :
    (a : PendingAction) (status : String) (db after : Db) (v : ℕ)
    → advance_version a status db ≡ (ok v, after)
    → Advanced a status db.sandboxes v after.sandboxes
unfolding advance_version
advance_version-Advanced a status db after v h = elim (Bool-cases (is_mutation a status)) [
  | inr idle ↦ inr (idle, ground arith, ground arith)
  | inl mutation ↦ inl (mutation, ground arith, ground arith, ground arith)
]

advance_version_stale :
    (a : PendingAction) (status : String) (db : Db)
    → is_mutation a status ≡ true
    → count (at_state_version a.sandbox_id a.expected_state_version) db.sandboxes ≡ 0
    → (advance_version a status db).0
      ≡ err (state_version_conflict a.sandbox_id a.expected_state_version a.expected_state_version)
unfolding advance_version
advance_version_stale a status db m none_there = ground arith

follow_artifact_keeps :
    (a : PendingAction) (status : String) (rollback_action_id : Option String) (db : Db)
    → follow_artifact a status rollback_action_id db
      ≡ record db { placements = (follow_artifact a status rollback_action_id db).placements }
unfolding follow_artifact
follow_artifact_keeps a status rollback_action_id db =
    elim (Bool-cases (str_eq a.action_type "PLACE_ARTIFACT")) [
      | inl place ↦ rw place refl
      | inr no_place ↦ elim (Bool-cases (str_eq a.action_type "ROLLBACK_ACTION")) [
        | inl roll_back ↦ rw (no_place, roll_back) refl
        | inr other ↦ rw (no_place, other) refl
      ]
    ]

advance_version_keeps :
    (a : PendingAction) (status : String) (db after : Db) (v : ℕ)
    → advance_version a status db ≡ (ok v, after)
    → after ≡ record db { sandboxes = after.sandboxes }
unfolding advance_version
advance_version_keeps a status db after v h = elim (Bool-cases (is_mutation a status)) [
  | inr idle ↦ ground arith
  | inl mutation ↦ ground arith
]

module _ (lower : String → String) (r : Runtime) where
  Announces-announce_result :
      (a : PendingAction) (status : String)
      (output_tag rollback_action_id error_detail : Option String) (v : ℕ)
      → Announces 1 1
          (announce_result lower r a status output_tag rollback_action_id error_detail v)
  unfolding announce_result
  Announces-announce_result a status output_tag rollback_action_id error_detail v =
      Announces-bind _ _ (Announces-emit r _ _ _ _ _ _ _) λ _. Announces-insert_audit _

  abbrev completed :
      PendingAction → String → Option String → Option String → Option String → Db → Db
  completed a status output_tag rollback_action_id error_detail db =
      (complete_action lower r a status output_tag rollback_action_id error_detail db).1

  record_action_result_inv :
      (a : PendingAction) (status : String)
      (output_tag rollback_action_id error_detail : Option String) (db after : Db) (v : ℕ)
      → record_action_result lower r a status output_tag rollback_action_id error_detail db
        ≡ (ok v, after)
      → (mid : Db) × (advance_version a status
            (completed a status output_tag rollback_action_id error_detail db)
          ≡ (ok v, mid))
        × (is_ok
              (announce_result lower r a status output_tag rollback_action_id error_detail v mid).0
            ≡ true)
        × (after
            ≡ follow_artifact a status rollback_action_id
                (announce_result lower r a status output_tag rollback_action_id error_detail v
                  mid).1)
  unfolding record_action_result
  record_action_result_inv a status output_tag rollback_action_id error_detail db after v h =
      cases
        (advance_version a status
          (completed a status output_tag rollback_action_id error_detail db))
        refl
    where
      cases :
          (x : Result Error ℕ × Db)
          → advance_version a status
              (completed a status output_tag rollback_action_id error_detail db)
            ≡ x
          → (mid : Db) × (x ≡ (ok v, mid))
            × (is_ok
                  (announce_result lower r a status output_tag rollback_action_id error_detail v
                    mid).0
                ≡ true)
            × (after
                ≡ follow_artifact a status rollback_action_id
                    (announce_result lower r a status output_tag rollback_action_id error_detail v
                      mid).1)
      cases (err e, mid) q = absurd (ground (arith, q))
      cases (ok n, mid) q = (mid, ground (arith, q), ground (arith, q), ground (arith, q))

  -- A result that is recorded moves the sandbox's version exactly when a mutating action has
  -- succeeded: then one sandbox was at the version that the action expected, and it alone is at
  -- the next one. Otherwise no sandbox changes. One event and one audit row are written.
  pub record_action_result-Advanced :
      (a : PendingAction) (status : String)
      (output_tag rollback_action_id error_detail : Option String) (db after : Db) (v : ℕ)
      → record_action_result lower r a status output_tag rollback_action_id error_detail db
        ≡ (ok v, after)
      → Advanced a status db.sandboxes v after.sandboxes
        × (length after.outbox ≡ length db.outbox + 1)
        × (length after.audit ≡ length db.audit + 1)
  record_action_result-Advanced a status output_tag rollback_action_id error_detail db after v h =
      let (mid, moved, told, end) =
        record_action_result_inv a status output_tag rollback_action_id error_detail db after v h in
      let start = completed a status output_tag rollback_action_id error_detail db in
      let kept = advance_version_keeps a status start mid v moved in
      let grown =
        (Announces-announce_result a status output_tag rollback_action_id error_detail v).at mid in
      let last = end ∙ follow_artifact_keeps a status rollback_action_id _ in
      (
        subst (Advanced a status db.sandboxes v)
            (sym (ap (λ (x : Db). x.sandboxes) last ∙ ap (λ (x : Db). x.sandboxes) grown.rest_same))
            (advance_version-Advanced a status start mid v moved),
        omega (
          arith,
          ap (λ (x : Db). length x.outbox) last,
          ap (λ (x : Db). length x.outbox) grown.rest_same,
          grown.outbox_length told,
          ap (λ (x : Db). length x.outbox) kept,
        ),
        omega (
          arith,
          ap (λ (x : Db). length x.audit) last,
          ap (λ (x : Db). length x.audit) grown.rest_same,
          grown.audit_length told,
          ap (λ (x : Db). length x.audit) kept,
        ),
      )

  record_stale :
      (a : PendingAction) (status : String)
      (output_tag rollback_action_id error_detail : Option String) (db : Db) (e : Error)
      → (advance_version a status
          (completed a status output_tag rollback_action_id error_detail db)).0
        ≡ err e
      → (record_action_result lower r a status output_tag rollback_action_id error_detail db).0
        ≡ err e
  unfolding record_action_result
  record_stale a status output_tag rollback_action_id error_detail db e h = ground (arith, h)

  -- No update is lost: of two mutating actions that were opened against the same version of a
  -- sandbox, only one can be recorded as a success. Behind the first, the result of the second
  -- raises the conflict, whatever the two report besides.
  pub record_action_result_once :
      (a b : PendingAction) (output_tag rollback_action_id error_detail : Option String)
      (output_tag' rollback_action_id' error_detail' : Option String) (db after : Db) (v : ℕ)
      → is_mutation a "SUCCESS" ≡ true
      → is_mutation b "SUCCESS" ≡ true
      → b.sandbox_id ≡ a.sandbox_id
      → b.expected_state_version ≡ a.expected_state_version
      → record_action_result lower r a "SUCCESS" output_tag rollback_action_id error_detail db
        ≡ (ok v, after)
      → (record_action_result lower r b "SUCCESS" output_tag' rollback_action_id' error_detail'
          after).0
        ≡ err
            (state_version_conflict b.sandbox_id b.expected_state_version b.expected_state_version)
  record_action_result_once a b output_tag rollback_action_id error_detail output_tag'
        rollback_action_id' error_detail' db after v ma mb same ver h =
      let (moved, _, _) =
        record_action_result-Advanced a "SUCCESS" output_tag rollback_action_id error_detail db
          after v h in
      record_stale b "SUCCESS" output_tag' rollback_action_id' error_detail' after _ (
        advance_version_stale b "SUCCESS"
          (completed b "SUCCESS" output_tag' rollback_action_id' error_detail' after) mb
          (none_left moved))
    where
      none_left :
          Advanced a "SUCCESS" db.sandboxes v after.sandboxes
          → count (at_state_version b.sandbox_id b.expected_state_version) after.sandboxes ≡ 0
      none_left (inl (_, _, _, e)) =
          rw (same, ver)
            (ap (count (at_state_version a.sandbox_id a.expected_state_version)) e
              ∙ count-bumped a db.sandboxes)
      none_left (inr (idle, _, _)) = absurd (ground arith)
