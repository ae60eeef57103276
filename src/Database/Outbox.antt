-- ===== src/Database/Outbox.antt =====
-- What publishing an event changes: one more row in the outbox, or nothing.
use mirageby_ai.Common.{
  arith, ◌+◌, true, List, length, length-append, String, ◌≡◌, refl, ◌⊎◌, inl, inr, none, some, [],
  ◌∷◌, ◌++◌, Option-cases,
}
use mirageby_ai.Common.Exec.{Result, ok, err, is_ok}
use mirageby_ai.Contracts.Envelope.{Event, Runtime, validate_event, validate_event_sound}
use mirageby_ai.Contracts.Subjects.{subject_for_event_type}
use mirageby_ai.Database.{OutboxRow, Db, event, outbox_row, publish, Error}

Result-cases : {E A : Type 0} (x : Result E A) → ((a : A) × (x ≡ ok a)) ⊎ ((e : E) × (x ≡ err e))
Result-cases (ok a) = inl (a, refl)
Result-cases (err e) = inr (e, refl)

-- The outbox after publishing: as it was, or with the event behind what stood there.
abbrev pub Published : Db → Event → Result Error (Unit {0}) × Db → Type 0
Published db e (ok _, after) =
    (topic : String) × (subject_for_event_type e.event_type ≡ some topic)
    × (after
        ≡ record db { outbox = db.outbox ++ outbox_row e.event_id topic (event e) db.now ∷ [] })
Published db e (err _, after) = after ≡ db

module _ (r : Runtime) where
  -- Publishing an event adds it to the outbox, as it is and due at once, under the subject of its
  -- type, or it raises and leaves the database as it is.
  pub publish_lem : (e : Event) (db : Db) → Published db e (publish r e db)
  unfolding publish
  publish_lem e db = elim (Result-cases (validate_event r e none)) [
    | inr (c, invalid) ↦ rw invalid refl
    | inl (v, valid) ↦ elim (Option-cases (subject_for_event_type e.event_type)) [
      | inl unmapped ↦ rw (valid, unmapped) refl
      | inr (topic, mapped) ↦
          let same : v.envelope ≡ e = (validate_event_sound r e v valid).0 in
          rw (valid, mapped, same) (topic, mapped, refl)
    ]
  ]

  -- Publishing touches no table but the outbox, whether it raises or not, and adds one row to it
  -- if it returns.
  pub publish_outbox :
      (e : Event) (db : Db)
      → (o : List OutboxRow) × ((publish r e db).1 ≡ record db { outbox = o })
        × (is_ok (publish r e db).0 ≡ true → length o ≡ length db.outbox + 1)
  publish_outbox e db = cases (publish r e db) (publish_lem e db)
    where
      cases :
          (x : Result Error (Unit {0}) × Db)
          → Published db e x
          → (o : List OutboxRow) × (x.1 ≡ record db { outbox = o })
            × (is_ok x.0 ≡ true → length o ≡ length db.outbox + 1)
      cases (ok _, after) (topic, _, same) = (_, same, λ _. length-append db.outbox _)
      cases (err _, after) same = (db.outbox, same, λ h. absurd (ground arith))
