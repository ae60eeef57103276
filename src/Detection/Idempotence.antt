-- ===== src/Detection/Idempotence.antt =====
-- What a detection does to the cases, and what a redelivered one does.
use mirageby_ai.Common.{
  ◌+◌, String, Bool, true, false, ◌≡◌, refl, ap, sym, ◌∙◌, ◌⊎◌, inl, inr, none, some, List, [], ◌∷◌,
  ◌++◌, arith, eq_refl, find, any, length, length-append, Option-cases, Bool-cases,
}
use mathlib.Core.Path.{subst}
use mirageby_ai.Common.Exec.{Result, ok, is_ok, ok_inj}
use mirageby_ai.Contracts.Envelope.{Runtime}
use mirageby_ai.Database.{Db, Error, CaseRow, ProcessedRow, insert_audit, generate_ulid}
use mirageby_ai.Database.Effects.{Announces, Announces-bind, Announces-insert_audit, Announces-emit}
use mirageby_ai.Detection.{
  Detection, CorrelationResult, consumer_name, is_processed, by_correlation_key, existing_case,
  new_case, note_existing, announce_case, correlated_row, create_case, process, correlate_detection,
  case_id_or_empty,
}

module _ (r : Runtime) where
  Announces-announce_case :
      (d : Detection) (case_id : String) → Announces 1 1 (announce_case r d case_id)
  unfolding announce_case
  Announces-announce_case d case_id =
      Announces-bind _ _ (Announces-emit r _ _ _ _ _ _ _) λ _. Announces-insert_audit _

  -- The rows that a detection which is taken up leaves behind.
  pub record TakenUp (d : Detection) (db after : Db) (t : CorrelationResult) : Type 0 where
    pub outcome :
        ((c : CaseRow) × (existing_case d db ≡ some c)
          × (t.case_id ≡ c.case_id)
          × (t.created ≡ false)
          × (after.cases ≡ db.cases)
          × (length after.outbox ≡ length db.outbox))
        ⊎ ((existing_case d db ≡ none)
            × (t.created ≡ true)
            × (after.cases ≡ db.cases ++ new_case d t.case_id ∷ [])
            × (length after.outbox ≡ length db.outbox + 1))
    pub processed :
        after.processed
        ≡ db.processed
          ++ record {
            consumer_name = consumer_name;
            event_id = d.detection_event_id;
            result_hash = t.case_id;
          }
            ∷ []
    pub transitions : after.transitions ≡ db.transitions
    pub decisions : after.decisions ≡ db.decisions
    pub audit : length after.audit ≡ length db.audit + 1
    pub fresh : t.already_processed ≡ false

  process_found :
      (d : Detection) (db after : Db) (t : CorrelationResult) (c : CaseRow)
      → existing_case d db ≡ some c
      → process r d db ≡ (ok t, after)
      → (t ≡ record { case_id = c.case_id; created = false; already_processed = false })
        × (after ≡ record db {
          audit = db.audit ++ correlated_row d c ∷ [];
          processed =
              db.processed
              ++ record {
                consumer_name = consumer_name;
                event_id = d.detection_event_id;
                result_hash = c.case_id;
              }
                ∷ [];
        })
  unfolding process note_existing insert_audit
  process_found d db after t c found h = (ground arith, ground arith)

  abbrev opened_db : Detection → Db → Db
  opened_db d db = record db {
    cases = db.cases ++ new_case d (r.ulid db.drawn) ∷ [];
    drawn = db.drawn + 1;
  }

  process_opens :
      (d : Detection) (db after : Db) (t : CorrelationResult)
      → existing_case d db ≡ none
      → process r d db ≡ (ok t, after)
      → (is_ok (announce_case r d (r.ulid db.drawn) (opened_db d db)).0 ≡ true)
        × (t ≡ record { case_id = r.ulid db.drawn; created = true; already_processed = false })
        × (let told = (announce_case r d (r.ulid db.drawn) (opened_db d db)).1 in
            after ≡ record told {
              processed =
                  told.processed
                  ++ record {
                    consumer_name = consumer_name;
                    event_id = d.detection_event_id;
                    result_hash = r.ulid db.drawn;
                  }
                    ∷ [];
            })
  unfolding process create_case generate_ulid
  process_opens d db after t unknown h = ground arith

  TakenUp-found :
      (d : Detection) (db after : Db) (t : CorrelationResult) (c : CaseRow)
      → existing_case d db ≡ some c
      → process r d db ≡ (ok t, after)
      → TakenUp d db after t
  TakenUp-found d db after t c found h =
      let (e, f) = process_found d db after t c found h in
      record {
        outcome = inl (
          c,
          found,
          ap (λ (x : CorrelationResult). x.case_id) e,
          ap (λ (x : CorrelationResult). x.created) e,
          ap (λ (x : Db). x.cases) f,
          ap (λ (x : Db). length x.outbox) f,
        );
        processed =
            ap (λ (x : Db). x.processed) f
            ∙ ap
                (λ k.
                  db.processed
                  ++ record {
                    consumer_name = consumer_name;
                    event_id = d.detection_event_id;
                    result_hash = k;
                  }
                    ∷ [])
                (ap (λ (x : CorrelationResult). x.case_id) (sym e));
        transitions = ap (λ (x : Db). x.transitions) f;
        decisions = ap (λ (x : Db). x.decisions) f;
        audit =
            ap (λ (x : Db). length x.audit) f ∙ length-append db.audit (correlated_row d c ∷ []);
        fresh = ap (λ (x : CorrelationResult). x.already_processed) e;
      }

  TakenUp-opened :
      (d : Detection) (db after : Db) (t : CorrelationResult)
      → existing_case d db ≡ none
      → process r d db ≡ (ok t, after)
      → TakenUp d db after t
  TakenUp-opened d db after t unknown h =
      let (told, e, f) = process_opens d db after t unknown h in
      let grown = (Announces-announce_case d (r.ulid db.drawn)).at (opened_db d db) in
      let id = ap (λ (x : CorrelationResult). x.case_id) (sym e) in
      record {
        outcome = inr (
          unknown,
          ap (λ (x : CorrelationResult). x.created) e,
          ap (λ (x : Db). x.cases) f
              ∙ ap (λ (x : Db). x.cases) grown.rest_same
              ∙ ap (λ k. db.cases ++ new_case d k ∷ []) id,
          ap (λ (x : Db). length x.outbox) f
              ∙ ap (λ (x : Db). length x.outbox) grown.rest_same
              ∙ grown.outbox_length told,
        );
        processed =
            ap (λ (x : Db). x.processed) f
            ∙ ap
                (λ (x : Db).
                  x.processed
                  ++ record {
                    consumer_name = consumer_name;
                    event_id = d.detection_event_id;
                    result_hash = r.ulid db.drawn;
                  }
                    ∷ [])
                grown.rest_same
            ∙ ap
                (λ k.
                  db.processed
                  ++ record {
                    consumer_name = consumer_name;
                    event_id = d.detection_event_id;
                    result_hash = k;
                  }
                    ∷ [])
                id;
        transitions =
            ap (λ (x : Db). x.transitions) f ∙ ap (λ (x : Db). x.transitions) grown.rest_same;
        decisions = ap (λ (x : Db). x.decisions) f ∙ ap (λ (x : Db). x.decisions) grown.rest_same;
        audit =
            ap (λ (x : Db). length x.audit) f
            ∙ ap (λ (x : Db). length x.audit) grown.rest_same
            ∙ grown.audit_length told;
        fresh = ap (λ (x : CorrelationResult). x.already_processed) e;
      }

  -- A detection that has not been processed and is taken up goes to the first case with its
  -- correlation key, where the cases stay as they are, or, when there is none, to a new case in
  -- CREATED at version 1 with one event to announce it. It is recorded as processed with one
  -- audit row, and neither a transition nor a routing decision is written.
  pub correlate_detection_takes_up :
      (d : Detection) (db after : Db) (t : CorrelationResult)
      → any (is_processed d.detection_event_id) db.processed ≡ false
      → correlate_detection r d db ≡ (ok t, after)
      → TakenUp d db after t
  unfolding correlate_detection
  correlate_detection_takes_up d db after t due h = elim (Option-cases (existing_case d db)) [
    | inl unknown ↦ TakenUp-opened d db after t unknown (ground arith)
    | inr (c, found) ↦ TakenUp-found d db after t c found (ground arith)
  ]

  any-last :
      (p : ProcessedRow → Bool) (xs : List ProcessedRow) (x : ProcessedRow)
      → p x ≡ true
      → any p (xs ++ x ∷ []) ≡ true
  any-last p [] x h = ground arith
  any-last p (y ∷ ys) x h = ground (arith, any-last p ys x h)

  find-last :
      (p : CaseRow → Bool) (xs : List CaseRow) (x : CaseRow)
      → find p xs ≡ none
      → p x ≡ true
      → find p (xs ++ x ∷ []) ≡ some x
  find-last p [] x miss h = ground arith
  find-last p (y ∷ ys) x miss h = ground (arith, find-last p ys x)

  recorded :
      (d : Detection) (db after : Db) (t : CorrelationResult)
      → TakenUp d db after t
      → any (is_processed d.detection_event_id) after.processed ≡ true
  recorded d db after t k =
      ap (any (is_processed d.detection_event_id)) k.processed
      ∙ any-last (is_processed d.detection_event_id) db.processed _
          (ground (arith, eq_refl consumer_name, eq_refl d.detection_event_id))

  still_there :
      (d : Detection) (db after : Db) (t : CorrelationResult)
      → TakenUp d db after t
      → case_id_or_empty (existing_case d after) ≡ t.case_id
  still_there d db after t k = elim k.outcome [
    | inl (c, found, e, _, same, _) ↦
        ap (λ cs. case_id_or_empty (find (by_correlation_key d.correlation_key) cs)) same
        ∙ ap case_id_or_empty found
        ∙ sym e
    | inr (unknown, _, same, _) ↦
        ap (λ cs. case_id_or_empty (find (by_correlation_key d.correlation_key) cs)) same
        ∙ ap case_id_or_empty (
            find-last (by_correlation_key d.correlation_key) db.cases (new_case d t.case_id) unknown
              (eq_refl d.correlation_key))
  ]

  repeated :
      (d : Detection) (after : Db) (id : String)
      → any (is_processed d.detection_event_id) after.processed ≡ true
      → case_id_or_empty (existing_case d after) ≡ id
      → correlate_detection r d after
        ≡ (ok (record { case_id = id; created = false; already_processed = true }), after)
  unfolding correlate_detection
  repeated d after id known same = rw (known, same) refl

  -- A detection that is delivered again has no second effect: behind a run that returned, whether
  -- it took the detection up or found it processed, the same detection returns the same case, as
  -- already processed, and leaves the whole database as it is.
  pub correlate_detection_again :
      (d : Detection) (db after : Db) (t : CorrelationResult)
      → correlate_detection r d db ≡ (ok t, after)
      → correlate_detection r d after
        ≡ (ok (record { case_id = t.case_id; created = false; already_processed = true }), after)
  correlate_detection_again d db after t h =
      elim (Bool-cases (any (is_processed d.detection_event_id) db.processed)) [
        | inr due ↦
            let k = correlate_detection_takes_up d db after t due h in
            repeated d after t.case_id (recorded d db after t k) (still_there d db after t k)
        | inl known ↦
            let run = repeated d db (case_id_or_empty (existing_case d db)) known refl in
            let (e, f) = ok_inj _ t db after (sym run ∙ h) in
            subst
              (λ x. correlate_detection r d x ≡ (
                ok (record { case_id = t.case_id; created = false; already_processed = true }),
                x,
              ))
              f
              (run
                ∙ ap {B = Result Error CorrelationResult × Db}
                    (λ k.
                      (ok (record { case_id = k; created = false; already_processed = true }), db))
                    (ap (λ (x : CorrelationResult). x.case_id) e))
      ]
