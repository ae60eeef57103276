-- ===== src/Database/Effects.antt =====
-- How much a block of statements announces: it writes to the outbox and to the audit log only, and
-- if it returns, so many rows to each. One rule for each way to build a block.
use mirageby_ai.Common.{
  ℕ, ◌+◌, String, ◌≡◌, refl, Bool, true, false, ap, ◌∙◌, Option, none, some, List, [], ◌∷◌, ◌++◌,
  arith, length, length-append,
}
use mirageby_ai.Common.Exec.{Result, ok, err, is_ok, pure, raise, ◌>>=◌}
use mirageby_ai.Contracts.Json.{Json}
use mirageby_ai.Contracts.Envelope.{Event, Runtime}
use mirageby_ai.Database.{
  AuditRow, OutboxRow, Db, Error, Tx, insert_audit, generate_ulid, or_generated, build_event,
  publish, emit,
}
use mirageby_ai.Database.Outbox.{publish_outbox}

-- Between the two states, where the block may have raised.
pub record Grows (events audits : ℕ) (finished : Bool) (db after : Db) : Type 0 where
  pub outbox : List OutboxRow
  pub audit : List AuditRow
  pub drawn : ℕ
  pub rest_same : after ≡ record db { outbox = outbox; audit = audit; drawn = drawn }
  pub outbox_length : finished ≡ true → length outbox ≡ length db.outbox + events
  pub audit_length : finished ≡ true → length audit ≡ length db.audit + audits

pub record Announces {A : Type 0} (events audits : ℕ) (m : Tx A) : Type 0 where
  pub at : (db : Db) → Grows events audits (is_ok (m db).0) db (m db).1

Grows-trans :
    {n a k b : ℕ} {x y z : Db} {done : Bool}
    → Grows n a true x y
    → Grows k b done y z
    → Grows (n + k) (a + b) done x z
Grows-trans g h =
    let o = ap (λ (d : Db). length d.outbox) g.rest_same in
    let l = ap (λ (d : Db). length d.audit) g.rest_same in
    record {
      outbox = h.outbox;
      audit = h.audit;
      drawn = h.drawn;
      rest_same =
          h.rest_same
          ∙ ap (λ (d : Db). record d { outbox = h.outbox; audit = h.audit; drawn = h.drawn })
              g.rest_same;
      outbox_length = λ e. omega (arith, o, g.outbox_length refl, h.outbox_length e);
      audit_length = λ e. omega (arith, l, g.audit_length refl, h.audit_length e);
    }

Grows-raised : {n a k b : ℕ} {x y : Db} → Grows n a false x y → Grows k b false x y
Grows-raised g = record {
  outbox = g.outbox;
  audit = g.audit;
  drawn = g.drawn;
  rest_same = g.rest_same;
  outbox_length = λ h. absurd (ground arith);
  audit_length = λ h. absurd (ground arith);
}

module _ {A : Type 0} where
  pub Announces-pure : (a : A) → Announces 0 0 (pure a)
  Announces-pure a = record {
    at = λ db. record {
      outbox = db.outbox;
      audit = db.audit;
      drawn = db.drawn;
      rest_same = refl;
      outbox_length = λ _. omega arith;
      audit_length = λ _. omega arith;
    };
  }

  pub Announces-raise : (n k : ℕ) (e : Error) → Announces {A = A} n k (raise e)
  Announces-raise n k e = record {
    at = λ db. record {
      outbox = db.outbox;
      audit = db.audit;
      drawn = db.drawn;
      rest_same = refl;
      outbox_length = λ h. absurd (ground arith);
      audit_length = λ h. absurd (ground arith);
    };
  }

pub Announces-insert_audit : (row : AuditRow) → Announces 0 1 (insert_audit row)
unfolding insert_audit
Announces-insert_audit row = record {
  at = λ db. record {
    outbox = db.outbox;
    audit = db.audit ++ row ∷ [];
    drawn = db.drawn;
    rest_same = refl;
    outbox_length = λ _. omega arith;
    audit_length = λ _. length-append db.audit (row ∷ []);
  };
}

module _ (r : Runtime) where
  pub Announces-publish : (e : Event) → Announces 1 0 (publish r e)
  Announces-publish e = record {
    at = λ db.
        let (o, same, grown) = publish_outbox r e db in
        record {
          outbox = o;
          audit = db.audit;
          drawn = db.drawn;
          rest_same = same;
          outbox_length = grown;
          audit_length = λ _. omega arith;
        };
  }

  pub Announces-generate_ulid : Announces 0 0 (generate_ulid r)
  unfolding generate_ulid
  Announces-generate_ulid = record {
    at = λ db. record {
      outbox = db.outbox;
      audit = db.audit;
      drawn = db.drawn + 1;
      rest_same = refl;
      outbox_length = λ _. omega arith;
      audit_length = λ _. omega arith;
    };
  }

  pub Announces-or_generated : (o : Option String) → Announces 0 0 (or_generated r o)
  unfolding or_generated
  Announces-or_generated none = Announces-generate_ulid
  Announces-or_generated (some s) = Announces-pure s

  pub Announces-build_event :
      (event_type : String) (payload : Json) (source_id : String) (sequence : ℕ)
      (actor_type classification : String) (case_id : Option String)
      → Announces 0 0
          (build_event r event_type payload source_id sequence actor_type classification case_id)
  unfolding build_event
  Announces-build_event event_type payload source_id sequence actor_type classification case_id =
      record {
        at = λ db. record {
          outbox = db.outbox;
          audit = db.audit;
          drawn = db.drawn + 1;
          rest_same = refl;
          outbox_length = λ _. omega arith;
          audit_length = λ _. omega arith;
        };
      }

module _ {A B : Type 0} where
  pub Announces-bind :
      {n a k b : ℕ} (m : Tx A) (f : A → Tx B)
      → Announces n a m
      → ((x : A) → Announces k b (f x))
      → Announces (n + k) (a + b) (m >>= f)
  unfolding ◌>>=◌
  Announces-bind {n} {a} {k} {b} m f hm hf = record { at = λ db. cases db (m db) (hm.at db) }
    where
      cases :
          (db : Db) (x : Result Error A × Db)
          → Grows n a (is_ok x.0) db x.1
          → let m' : Tx A = (λ _. x) in
            Grows (n + k) (a + b) (is_ok ((m' >>= f) db).0) db ((m' >>= f) db).1
      cases db (ok v, mid) g = Grows-trans g ((hf v).at mid)
      cases db (err e, mid) g = Grows-raised g

module _ (r : Runtime) where
  pub Announces-emit :
      (event_type : String) (payload : Json) (source_id : String) (sequence : ℕ)
      (actor_type classification : String) (case_id : Option String)
      → Announces 1 0
          (emit r event_type payload source_id sequence actor_type classification case_id)
  unfolding emit
  Announces-emit event_type payload source_id sequence actor_type classification case_id =
      Announces-bind _ _
        (Announces-build_event r event_type payload source_id sequence actor_type classification
          case_id)
        (Announces-publish r)
