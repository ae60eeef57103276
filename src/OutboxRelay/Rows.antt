-- ===== src/OutboxRelay/Rows.antt =====
-- Rows of the outbox under distinct identifiers: an update by identifier changes one of them.
use mirageby_ai.Common.{
  ◌≡◌, ◌≢◌, ap, sym, ◌∙◌, refl, String, List, [], ◌∷◌, ◌++◌, All, update, str_eq, eq_refl, eq_iff,
  Bool-cases, inl, inr,
}
use mathlib.Core.Path.{subst}
use mirageby_ai.Database.{OutboxRow}
use mirageby_ai.OutboxRelay.{has_event_id}

-- event_id is the table's primary key.
abbrev pub Distinct : List OutboxRow → Type 0
Distinct [] = Unit
Distinct (x ∷ xs) = All (λ y. x.event_id ≢ y.event_id) xs × Distinct xs

update-absent :
    (id : String) (f : OutboxRow → OutboxRow) (xs : List OutboxRow)
    → All (λ y. id ≢ y.event_id) xs
    → update (has_event_id id) f xs ≡ xs
update-absent id f [] h = refl
update-absent id f (x ∷ xs) h = elim (Bool-cases (str_eq x.event_id id)) [
  | inl hit ↦ absurd (h.0 (sym ((eq_iff x.event_id id).0 hit)))
  | inr miss ↦ rw miss (ap (λ l. x ∷ l) (update-absent id f xs h.1))
]

All-middle :
    (P : OutboxRow → Type 0) (before xs : List OutboxRow) (x : OutboxRow)
    → All P (before ++ x ∷ xs)
    → P x
All-middle P [] xs x h = h.0
All-middle P (b ∷ bs) xs x h = All-middle P bs xs x h.1

-- Under distinct identifiers an update by identifier changes one row.
pub update-one :
    (before xs : List OutboxRow) (x : OutboxRow) (f : OutboxRow → OutboxRow)
    → Distinct (before ++ x ∷ xs)
    → update (has_event_id x.event_id) f (before ++ x ∷ xs) ≡ before ++ f x ∷ xs
update-one [] xs x f d =
    rw (eq_refl x.event_id) (ap (λ l. f x ∷ l) (update-absent x.event_id f xs d.0))
update-one (b ∷ bs) xs x f d = elim (Bool-cases (str_eq b.event_id x.event_id)) [
  | inl hit ↦
      absurd (
        All-middle (λ y. b.event_id ≢ y.event_id) bs xs x d.0
          ((eq_iff b.event_id x.event_id).0 hit))
  | inr miss ↦ rw miss (ap (λ l. b ∷ l) (update-one bs xs x f d.1))
]

All-replace :
    (id : String) (before xs : List OutboxRow) (x y : OutboxRow)
    → y.event_id ≡ x.event_id
    → All (λ z. id ≢ z.event_id) (before ++ x ∷ xs)
    → All (λ z. id ≢ z.event_id) (before ++ y ∷ xs)
All-replace id [] xs x y e h = ((λ k. h.0 (k ∙ e)), h.1)
All-replace id (b ∷ bs) xs x y e h = (h.0, All-replace id bs xs x y e h.1)

pub Distinct-replace :
    (before xs : List OutboxRow) (x y : OutboxRow)
    → y.event_id ≡ x.event_id
    → Distinct (before ++ x ∷ xs)
    → Distinct (before ++ y ∷ xs)
Distinct-replace [] xs x y e d = (subst (λ i. All (λ z. i ≢ z.event_id) xs) (sym e) d.0, d.1)
Distinct-replace (b ∷ bs) xs x y e d =
    (All-replace b.event_id bs xs x y e d.0, Distinct-replace bs xs x y e d.1)

pub append-step :
    (before xs : List OutboxRow) (x : OutboxRow) → (before ++ x ∷ []) ++ xs ≡ before ++ x ∷ xs
append-step [] xs x = refl
append-step (b ∷ bs) xs x = ap (λ l. b ∷ l) (append-step bs xs x)
