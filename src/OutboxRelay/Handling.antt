-- ===== src/OutboxRelay/Handling.antt =====
-- What one batch of the relay does to each row of the outbox.
use mirageby_ai.Common.{
  ℕ, zero, suc, ◌+◌, String, true, false, ◌≡◌, refl, ap, sym, ◌∙◌, ◌⊎◌, inl, inr, Option, none,
  some, List, [], ◌∷◌, ◌++◌, select, take, ◌-◌, min, leb, ◌^◌, ◌*◌, ◌≤◌, ◌<◌, Option-cases, arith,
  Bool-cases,
}
use mathlib.Core.Path.{subst}
use mirageby_ai.Database.{OutboxRow, Db}
use mirageby_ai.OutboxRelay.{
  Relay, delay, get_elem, is_due, published, rescheduled, mark, alerted, counted, relay_rows,
  relay_once,
}
use mirageby_ai.OutboxRelay.Rows.{Distinct, update-one, Distinct-replace, append-step}

abbrev pub IsDue : ℕ → OutboxRow → Type 0
IsDue now x = (x.published_at ≡ none) × (x.next_attempt_at ≤ now)

due : (now : ℕ) (x : OutboxRow) → is_due now x ≡ true → IsDue now x
due now x h = elim (Option-cases x.published_at) [
  | inl n ↦ (n, ground arith)
  | inr (t, sent) ↦ absurd (ground arith)
]

not_due : (now : ℕ) (x : OutboxRow) → is_due now x ≡ false → IsDue now x → ⊥
not_due now x h (unsent, time) = ground (arith, unsent, time)

delay_lem : (n : ℕ) → delay (n + 1) ≡ 5 ^ min n 4 * 1000
delay_lem zero = refl
delay_lem (suc zero) = refl
delay_lem (suc (suc zero)) = refl
delay_lem (suc (suc (suc zero))) = refl
delay_lem (suc (suc (suc (suc n)))) =
    let m = suc (suc (suc (suc n))) in
    let last : min (m + 1 - 1) 4 ≡ 4 = omega arith in
    let most : min m 4 ≡ 4 = omega arith in
    ap (λ i. get_elem (1 ∷ 5 ∷ 25 ∷ 125 ∷ 625 ∷ []) i * 1000) last
    ∙ sym (ap (λ i. 5 ^ i * 1000) most)

module _ {W : Type 0} (relay : Relay W) (now : ℕ) where
  -- What the broker answers for a row, in a world.
  abbrev pub tried : OutboxRow → W → Option String × W
  tried x w = relay.publish x.topic x.payload x.event_id w

  -- From the tenth failure of a row on, each is alerted.
  abbrev pub IsAlerted : OutboxRow → String → W → W → Type 0
  IsAlerted x e w u =
      ((9 ≤ x.attempts)
        × (u
            ≡ relay.on_alert
                (record {
                  event_id = x.event_id;
                  topic = x.topic;
                  attempts = x.attempts + 1;
                  error = e;
                })
                w))
      ⊎ ((x.attempts < 9) × (u ≡ w))

  -- From a world and the rows, a batch that may try k more of them comes to these rows, this count
  -- of published ones and this world: a row that is due, while the batch has room, is tried once
  -- with the broker; it is published and counted where the broker took it, and rescheduled, with
  -- the alert, where the broker failed. Any other row stays, and the broker is not called.
  abbrev pub Handled : ℕ → W → List OutboxRow → List OutboxRow → ℕ → W → Type 0
  Handled k w [] ys n v = (ys ≡ []) × (n ≡ 0) × (v ≡ w)
  Handled k w (x ∷ xs) [] n v = ⊥
  Handled k w (x ∷ xs) (y ∷ ys) n v =
      (((IsDue now x → ⊥) ⊎ (k ≡ 0)) × (y ≡ x) × Handled k w xs ys n v)
      ⊎ (IsDue now x
          × ((j : ℕ) × (k ≡ suc j)
              × ((((tried x w).0 ≡ none)
                    × (y ≡ record x { published_at = some now })
                    × ((m : ℕ) × (n ≡ suc m) × Handled j (tried x w).1 xs ys m v))
                  ⊎ ((e : String) × ((tried x w).0 ≡ some e)
                      × (y ≡ record x {
                        attempts = x.attempts + 1;
                        next_attempt_at = now + 5 ^ min x.attempts 4 * 1000;
                      })
                      × ((u : W) × IsAlerted x e (tried x w).1 u × Handled j u xs ys n v)))))

  Handled-full : (w : W) (xs : List OutboxRow) → Handled 0 w xs xs 0 w
  Handled-full w [] = (refl, refl, refl)
  Handled-full w (x ∷ xs) = inl (inr refl, refl, Handled-full w xs)

module _ {W : Type 0} (relay : Relay W) (now : ℕ) where
  later_row :
      (x : OutboxRow)
      → rescheduled now (x.attempts + 1) x ≡ record x {
        attempts = x.attempts + 1;
        next_attempt_at = now + 5 ^ min x.attempts 4 * 1000;
      }
  later_row x =
      ap (λ n. record x { attempts = x.attempts + 1; next_attempt_at = now + n })
        (delay_lem x.attempts)

  alerted-IsAlerted :
      (x : OutboxRow) (e : String) (w : W)
      → IsAlerted relay now x e w (alerted relay now x (some e) w)
  alerted-IsAlerted x e w = elim (Bool-cases (leb 10 (x.attempts + 1))) [
    | inl many ↦ rw many (inl (ground arith, refl))
    | inr few ↦ rw few (inr (ground arith, refl))
  ]

  -- The table behind the loop, past the rows that are behind the loop already.
  abbrev Behind : ℕ → W → List OutboxRow → List OutboxRow → ℕ × List OutboxRow × W → Type 0
  Behind k w before xs (n, rows, v) =
      (ys : List OutboxRow) × (rows ≡ before ++ ys) × Handled relay now k w xs ys n v

  -- A row that the loop passes, with what stands there afterwards.
  Behind-skip :
      (k : ℕ) (w : W) (before xs : List OutboxRow) (x : OutboxRow) (r : ℕ × List OutboxRow × W)
      → (is_due now x ≡ false)
      → Behind k w (before ++ x ∷ []) xs r
      → Behind k w before (x ∷ xs) r
  Behind-skip k w before xs x (n, rows, v) idle (ys, e, h) =
      (x ∷ ys, e ∙ append-step before ys x, inl (inl (not_due now x idle), refl, h))

  Behind-try :
      (k : ℕ) (w : W) (before xs : List OutboxRow) (x : OutboxRow) (failure : Option String)
      (r : ℕ × List OutboxRow × W)
      → is_due now x ≡ true
      → (tried relay now x w).0 ≡ failure
      → Distinct (before ++ x ∷ xs)
      → ((y : OutboxRow)
          → y.event_id ≡ x.event_id
          → mark relay now x failure (before ++ x ∷ xs) ≡ (before ++ y ∷ []) ++ xs
          → Behind k (alerted relay now x failure (tried relay now x w).1) (before ++ y ∷ []) xs r)
      → Behind (suc k) w before (x ∷ xs) (counted relay now failure r.0, r.1, r.2)
  Behind-try k w before xs x none (n, rows, v) ready took d later =
      let y = published now x in
      let (ys, e, h) =
        later y refl (update-one before xs x (published now) d ∙ sym (append-step before xs y)) in
      (
        y ∷ ys,
        e ∙ append-step before ys y,
        inr (due now x ready, (k, refl, inl (took, refl, (n, refl, h)))),
      )
  Behind-try k w before xs x (some error) (n, rows, v) ready failed d later =
      let y = rescheduled now (x.attempts + 1) x in
      let (ys, e, h) = later y refl (
        update-one before xs x (rescheduled now (x.attempts + 1)) d
        ∙ sym (append-step before xs y)) in
      (
        y ∷ ys,
        e ∙ append-step before ys y,
        inr (
          due now x ready,
          (k, refl, inr (error, failed, later_row x, (_, alerted-IsAlerted x error _, h))),
        ),
      )

  relay_rows-Behind :
      (k : ℕ) (before xs table : List OutboxRow) (w : W)
      → table ≡ before ++ xs
      → Distinct (before ++ xs)
      → Behind k w before xs (relay_rows relay now (take k (select (is_due now) xs)) table w)
  unfolding relay_rows
  relay_rows-Behind zero before xs table w e d = (xs, e, Handled-full relay now w xs)
  relay_rows-Behind (suc k) before [] table w e d = ([], e, (refl, refl, refl))
  relay_rows-Behind (suc k) before (x ∷ xs) table w e d = elim (Bool-cases (is_due now x)) [
    | inr idle ↦ rw idle (
        Behind-skip (suc k) w before xs x
          (relay_rows relay now (take (suc k) (select (is_due now) xs)) table w) idle
          (relay_rows-Behind (suc k) (before ++ x ∷ []) xs table w
            (e ∙ sym (append-step before xs x)) (subst Distinct (sym (append-step before xs x)) d)))
    | inl ready ↦
        let failure = (tried relay now x w).0 in
        let w' = alerted relay now x failure (tried relay now x w).1 in
        rw ready (
          Behind-try k w before xs x failure
            (relay_rows relay now (take k (select (is_due now) xs)) (mark relay now x failure table)
              w')
            ready refl d
            λ y same moved.
              relay_rows-Behind k (before ++ y ∷ []) xs (mark relay now x failure table) w'
                (ap (mark relay now x failure) e ∙ moved)
                (subst Distinct (sym (append-step before xs y))
                  (Distinct-replace before xs x y same d)))
  ]

-- One batch accounts for every row of the outbox, whatever the broker does: rows are neither lost
-- nor reordered; the first rows that are due, up to the size of the batch, are each tried once with
-- the broker, in order, and are published now and counted exactly where the broker took them, or
-- rescheduled with one attempt more where it failed, after a delay of 5 ^ min attempts 4 seconds and
-- with the alert from the tenth failure on; no other
-- row is touched, the broker is told nothing else, and no other table is changed. Rows have distinct
-- identifiers.
pub relay_once-Handled :
    {W : Type 0} (relay : Relay W) (db : Db) (w : W)
    → Distinct db.outbox
    → let (n, after, w') = relay_once relay db w in
      Handled relay db.now relay.batch_size w db.outbox after.outbox n w'
      × (after ≡ record db { outbox = after.outbox })
unfolding relay_once
relay_once-Handled relay db w d =
    let (ys, e, h) =
      relay_rows-Behind relay db.now relay.batch_size [] db.outbox db.outbox w refl d in
    let batch = take relay.batch_size (select (is_due db.now) db.outbox) in
    let r = relay_rows relay db.now batch db.outbox w in
    (subst (λ l. Handled relay db.now relay.batch_size w db.outbox l r.0 r.2) (sym e) h, refl)
