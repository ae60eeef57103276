-- ===== src/Routing/Exclusion.antt =====
-- The exclusion of overlapping decisions for a key, and what a lookup finds.
use mirageby_ai.Common.{
  true-ne-false, ℕ, ◌+◌, String, true, false, ◌≡◌, refl, ap, sym, ◌∙◌, ◌⊎◌, inl, inr, Option, none,
  some, List, [], ◌∷◌, ◌++◌, arith, All, str_eq, eq_iff, select, any, length, Bool-cases,
  All-append,
}
use mathlib.Core.Path.{subst}
use mirageby_ai.Common.Exec.{Result, ok, err, is_ok}
use mirageby_ai.Contracts.Envelope.{Runtime}
use mirageby_ai.Database.{
  Db, DecisionRow, Error, check_violation, exclusion_violation, generate_ulid,
}
use mirageby_ai.Database.Effects.{
  Announces, Announces-bind, Announces-pure, Announces-insert_audit, Announces-emit,
  Announces-generate_ulid, Announces-or_generated,
}
use mirageby_ai.Routing.{
  DecisionRequest, conflicts, before_end, decision_row, is_active, latest, active_decision,
  target_of, default_target, announce_decision, insert_decision, write_routing_decision,
  record_selection, resolve_route,
}

-- No two decisions for one key are valid at one time.
abbrev pub IsDisjoint : List DecisionRow → Type 0
IsDisjoint [] = Unit
IsDisjoint (x ∷ xs) = All (λ y. conflicts x y ≡ false) xs × IsDisjoint xs

-- A later row that does not conflict with those before it.
IsDisjoint-append :
    (xs : List DecisionRow) (row : DecisionRow)
    → any (λ x. conflicts x row) xs ≡ false
    → IsDisjoint xs
    → IsDisjoint (xs ++ row ∷ [])
IsDisjoint-append [] row free d = (tt, tt)
IsDisjoint-append (x ∷ xs) row free d = (
  All-append (λ y. conflicts x y ≡ false) xs (row ∷ []) d.0 (ground arith, tt),
  IsDisjoint-append xs row (ground arith) d.1,
)

both_active :
    (key : String) (now : ℕ) (x y : DecisionRow)
    → is_active key now x ≡ true
    → is_active key now y ≡ true
    → conflicts x y ≡ true
both_active key now x y h k =
    let ex : x.match_key ≡ key = (eq_iff x.match_key key).0 (ground arith) in
    let ey : y.match_key ≡ key = (eq_iff y.match_key key).0 (ground arith) in
    let same : str_eq x.match_key y.match_key ≡ true =
      (eq_iff x.match_key y.match_key).1 (ex ∙ sym ey) in
    ground (arith, same)

none_active :
    (key : String) (now : ℕ) (x : DecisionRow) (xs : List DecisionRow)
    → is_active key now x ≡ true
    → All (λ y. conflicts x y ≡ false) xs
    → (select (is_active key now) xs ≡ []) × All (λ y. is_active key now y ≡ false) xs
none_active key now x [] h free = (refl, tt)
none_active key now x (y ∷ ys) h free =
    let (none_left, rest) = none_active key now x ys h free.1 in
    elim (Bool-cases (is_active key now y)) [
      | inl hit ↦ absurd (true-ne-false (sym (both_active key now x y h hit) ∙ free.0))
      | inr miss ↦ (rw miss none_left, (miss, rest))
    ]

-- What a lookup at a time finds, among all decisions.
abbrev pub IsSelected : String → ℕ → List DecisionRow → String → Type 0
IsSelected key now xs target =
    All (λ x. is_active key now x ≡ true → target ≡ x.target) xs
    × (any (is_active key now) xs ≡ false → target ≡ default_target)

idle :
    (key : String) (now : ℕ) (t : String) (xs : List DecisionRow)
    → All (λ y. is_active key now y ≡ false) xs
    → All (λ x. is_active key now x ≡ true → t ≡ x.target) xs
idle key now t [] h = tt
idle key now t (x ∷ xs) h = ((λ k. absurd (ground arith)), idle key now t xs h.1)

latest-IsSelected :
    (key : String) (now : ℕ) (xs : List DecisionRow)
    → IsDisjoint xs
    → IsSelected key now xs (target_of (latest (select (is_active key now) xs)))
latest-IsSelected key now [] d = (tt, λ _. refl)
latest-IsSelected key now (x ∷ xs) d = elim (Bool-cases (is_active key now x)) [
  | inr miss ↦
      let (each, default) = latest-IsSelected key now xs d.1 in
      let skipped : select (is_active key now) (x ∷ xs) ≡ select (is_active key now) xs =
        rw miss refl in
      subst (IsSelected key now (x ∷ xs)) (ap (λ l. target_of (latest l)) (sym skipped))
        (((λ h. absurd (ground arith)), each), λ h. default (ground arith))
  | inl hit ↦
      let (only, rest) = none_active key now x xs hit d.0 in
      let one : select (is_active key now) (x ∷ xs) ≡ x ∷ [] = rw (hit, only) refl in
      subst (IsSelected key now (x ∷ xs)) (ap (λ l. target_of (latest l)) (sym one))
        (((λ _. refl), idle key now x.target xs rest), λ h. absurd (ground arith))
]

module _ (r : Runtime) where
  Announces-record_selection :
      (key protocol : String) (row : Option DecisionRow)
      → Announces 1 0 (record_selection r key protocol row)
  unfolding record_selection
  Announces-record_selection key protocol row = Announces-bind _ _ (Announces-generate_ulid r) λ _.
      Announces-bind _ _ (Announces-or_generated r _)
        λ _. Announces-bind _ _ (Announces-emit r _ _ _ _ _ _ _) λ _. Announces-pure _

  Announces-announce_decision :
      (q : DecisionRequest) (id : String) (version : ℕ)
      → Announces 1 1 (announce_decision r q id version)
  unfolding announce_decision
  Announces-announce_decision q id version =
      Announces-bind _ _ (Announces-insert_audit _) λ _. Announces-emit r _ _ _ _ _ _ _

  selected_target :
      (key protocol target : String) (row : Option DecisionRow) (db after : Db)
      → record_selection r key protocol row db ≡ (ok target, after)
      → target ≡ target_of row
  unfolding record_selection
  selected_target key protocol target none db after h = ground arith
  selected_target key protocol target (some x) db after h = ground arith

  -- The lookup of a broker, over decisions that do not overlap: a target that is returned is that
  -- of every decision for the key that is valid now, so of the only one, and it is ENDPOINT when
  -- there is none. One event is recorded for it, and no decision and no case is changed.
  pub resolve_route_selects :
      (key protocol target : String) (db after : Db)
      → IsDisjoint db.decisions
      → resolve_route r key protocol db ≡ (ok target, after)
      → IsSelected key db.now db.decisions target
        × (length after.outbox ≡ length db.outbox + 1)
        × (after.decisions ≡ db.decisions)
        × (after.cases ≡ db.cases)
  unfolding resolve_route
  resolve_route_selects key protocol target db after d h =
      let row = active_decision key db in
      let grown = (Announces-record_selection key protocol row).at db in
      let at_end = ap (λ (x : Result Error String × Db). x.1) (sym h) in
      let returned : is_ok (record_selection r key protocol row db).0 ≡ true =
        ap (λ (x : Result Error String × Db). is_ok x.0) h in
      (
        subst (IsSelected key db.now db.decisions)
            (sym (selected_target key protocol target row db after h))
            (latest-IsSelected key db.now db.decisions d),
        ap (λ (x : Db). length x.outbox) (at_end ∙ grown.rest_same) ∙ grown.outbox_length returned,
        ap (λ (x : Db). x.decisions) (at_end ∙ grown.rest_same),
        ap (λ (x : Db). x.cases) (at_end ∙ grown.rest_same),
      )

  inserted :
      (row : DecisionRow) (db : Db)
      → ((e : Error) × (insert_decision row db ≡ (err e, db)))
        ⊎ ((any (λ x. conflicts x row) db.decisions ≡ false)
            × (insert_decision row db
                ≡ (ok tt, record db { decisions = db.decisions ++ row ∷ [] })))
  unfolding insert_decision
  inserted row db = elim (Bool-cases (before_end row.valid_from row.valid_until)) [
    | inr empty ↦ inl (check_violation row.match_key, rw empty refl)
    | inl ordered ↦ elim (Bool-cases (any (λ x. conflicts x row) db.decisions)) [
      | inl overlap ↦ inl (exclusion_violation row.match_key, ground arith)
      | inr free ↦ inr (free, ground arith)
    ]
  ]

  write_raises :
      (q : DecisionRequest) (db : Db) (e : Error)
      → let numbered : Db = record db { drawn = db.drawn + 1 } in
        insert_decision (decision_row q numbered) numbered ≡ (err e, numbered)
        → (write_routing_decision r q db).1.decisions ≡ db.decisions
  unfolding write_routing_decision generate_ulid
  write_raises q db e h = ground (arith, h)

  write_announces :
      (q : DecisionRequest) (db : Db)
      → let numbered : Db = record db { drawn = db.drawn + 1 } in
        let row = decision_row q numbered in
        let placed : Db = record numbered { decisions = db.decisions ++ row ∷ [] } in
        insert_decision row numbered ≡ (ok tt, placed)
        → (write_routing_decision r q db).1
          ≡ (announce_decision r q (r.ulid db.drawn) row.version placed).1
  unfolding write_routing_decision generate_ulid
  write_announces q db h = ground (arith, h)

  -- Whether it returns or raises, and whatever times are asked for, writing a decision keeps the
  -- decisions of a key from overlapping.
  pub write_routing_decision-IsDisjoint :
      (q : DecisionRequest) (db : Db)
      → IsDisjoint db.decisions
      → IsDisjoint (write_routing_decision r q db).1.decisions
  write_routing_decision-IsDisjoint q db d =
      let numbered : Db = record db { drawn = db.drawn + 1 } in
      let row = decision_row q numbered in
      elim (inserted row numbered) [
        | inl (e, h) ↦ subst IsDisjoint (sym (write_raises q db e h)) d
        | inr (free, h) ↦
            let placed : Db = record numbered { decisions = db.decisions ++ row ∷ [] } in
            let grown = (Announces-announce_decision q (r.ulid db.drawn) row.version).at placed in
            subst IsDisjoint
              (sym (
                ap (λ (x : Db). x.decisions) (write_announces q db h)
                ∙ ap (λ (x : Db). x.decisions) grown.rest_same))
              (IsDisjoint-append db.decisions row free d)
      ]
