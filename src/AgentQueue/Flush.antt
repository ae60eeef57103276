-- ===== src/AgentQueue/Flush.antt =====
-- What one call of `flush_queue` delivers.
use mirageby_ai.Common.{
  ℕ, zero, suc, ◌+◌, ◌≤◌, ◌<◌, ◌≡◌, refl, ap, sym, ◌∙◌, Bool, true, false, ◌⊎◌, inl, inr, List, [],
  ◌∷◌, ◌++◌, arith, Option, some, select, length-select, length, take, drop, take-append-drop,
  drop-drop, length-drop, length-append, map, map-drop, Bool-cases, ◌==◌, if◌then◌else◌,
}
use mathlib.Core.Path.{subst}
use mirageby_ai.AgentQueue.{
  Row, Queue, is_pending, opened, ack, pending_count, backlog, send_batch, flush_rounds,
  flush_queue,
}
use mirageby_ai.AgentQueue.Order.{IsOrdered, ack-IsOrdered, select-ack_first}

module _ {E B W : Type 0} (encrypt : E → B) (decrypt : B → E) (send : E → W → Bool × W) where
  abbrev undelivered : Queue B → List (Row B)
  undelivered q = select is_pending q.rows

  -- The transport's calls from one world to another. Each is given the head of what is left of the
  -- backlog, which leaves it exactly when the transport has taken it; the number of those is counted.
  pub data Calls : W → List (ℕ × E) → ℕ → W → List (ℕ × E) → Type 0 where
    done : (w : W) (xs : List (ℕ × E)) → Calls w xs 0 w xs
    took :
        (w v : W) (x : ℕ × E) (xs ys : List (ℕ × E)) (n : ℕ)
        → (send x.1 w).0 ≡ true
        → Calls (send x.1 w).1 xs n v ys
        → Calls w (x ∷ xs) (suc n) v ys
    refused :
        (w v : W) (x : ℕ × E) (xs ys : List (ℕ × E)) (n : ℕ)
        → (send x.1 w).0 ≡ false
        → Calls (send x.1 w).1 (x ∷ xs) n v ys
        → Calls w (x ∷ xs) n v ys

  Calls-append :
      (w u v : W) (xs ys zs : List (ℕ × E)) (n m : ℕ)
      → Calls w xs n u ys
      → Calls u ys m v zs
      → Calls w xs (n + m) v zs
  Calls-append w u v xs ys zs n m (done w0 xs0) d = subst (λ k. Calls w0 xs0 k v zs) (omega arith) d
  Calls-append w u v xs ys zs n m (took w0 v0 x xs0 ys0 k h c) d =
      subst (λ l. Calls w0 (x ∷ xs0) l v zs) (omega arith)
        (took w0 v x xs0 zs (k + m) h (Calls-append (send x.1 w0).1 u v xs0 ys zs k m c d))
  Calls-append w u v xs ys zs n m (refused w0 v0 x xs0 ys0 k h c) d =
      refused w0 v x xs0 zs (k + m) h (Calls-append (send x.1 w0).1 u v (x ∷ xs0) ys zs k m c d)

  -- The head of the backlog is the event that the transport has refused in the last call.
  abbrev pub IsRefused : W → List (ℕ × E) → Type 0
  IsRefused v [] = ⊥
  IsRefused v ((id, event) ∷ rest) = (w : W) × ((send event w).0 ≡ false) × (v ≡ (send event w).1)

  -- What a pass over the undelivered rows `ps` has done to the queue: it took the first n of them.
  abbrev Passed : W → List (Row B) → List (Row B) → ℕ × Queue B × W → Type 0
  Passed w ps more (n, q, v) =
      (n ≤ length ps)
      × IsOrdered q
      × (undelivered q ≡ drop n (ps ++ more))
      × ((n ≡ length ps) ⊎ IsRefused v (map (opened encrypt decrypt) (drop n (ps ++ more))))
      × Calls w (map (opened encrypt decrypt) (ps ++ more)) n v
          (map (opened encrypt decrypt) (drop n (ps ++ more)))

  Passed-counted :
      (x : Row B) (ps more : List (Row B)) (w : W) (y : ℕ × Queue B × W)
      → (send (decrypt x.encrypted_blob) w).0 ≡ true
      → Passed (send (decrypt x.encrypted_blob) w).1 ps more y
      → Passed w (x ∷ ps) more (suc y.0, y.1, y.2)
  Passed-counted x ps more w y sent (le, o, e, inl all, calls) =
      (omega arith, o, e, inl (ap suc all), took w y.2 _ _ _ y.0 sent calls)
  Passed-counted x ps more w y sent (le, o, e, inr stop, calls) =
      (omega arith, o, e, inr stop, took w y.2 _ _ _ y.0 sent calls)

  send_batch_lem :
      (ps more : List (Row B)) (q : Queue B) (w : W)
      → IsOrdered q
      → undelivered q ≡ ps ++ more
      → Passed w ps more (send_batch encrypt decrypt send (map (opened encrypt decrypt) ps) q w)
  unfolding send_batch
  send_batch_lem [] more q w o e = (omega arith, o, e, inl refl, done w _)
  send_batch_lem (x ∷ ps) more q w o e = elim (Bool-cases (send (decrypt x.encrypted_blob) w).0) [
    | inr stop ↦
        rw stop (omega arith, o, e, inr (w, stop, refl), refused w _ _ _ _ 0 stop (done _ _))
    | inl sent ↦
        let q' : Queue B = ack (x.id ∷ []) q in
        let ih =
          send_batch_lem ps more q' (send (decrypt x.encrypted_blob) w).1
            (ack-IsOrdered (x.id ∷ []) q o)
            (select-ack_first 0 q.rows q.last_id x (ps ++ more) o e) in
        rw sent (
          Passed-counted x ps more w
            (send_batch encrypt decrypt send (map (opened encrypt decrypt) ps) q'
              (send (decrypt x.encrypted_blob) w).1)
            sent ih)
  ]

  -- Where the flush ends: the events that were sent are the first of the backlog, and what stops it
  -- is an empty backlog or a refusal of its head.
  abbrev pub Flushed : ℕ → Queue B → W → ℕ × Queue B × W → Type 0
  Flushed total q w (n, q', v) =
      (sent : ℕ) × (n ≡ total + sent)
      × (sent ≤ pending_count q)
      × IsOrdered q'
      × (undelivered q' ≡ drop sent (undelivered q))
      × ((undelivered q' ≡ []) ⊎ IsRefused v (backlog encrypt decrypt q'))
      × Calls w (backlog encrypt decrypt q) sent v (backlog encrypt decrypt q')

  Ends : ℕ → Queue B → W → Option (ℕ × Queue B × W) → Type 0
  Ends total q w x = (y : ℕ × Queue B × W) × (x ≡ some y) × Flushed total q w y

  -- A round that has sent nothing has met a refusal at its first event.
  stopped :
      (x : Row B) (ps more : List (Row B)) (total : ℕ) (q q' : Queue B) (w v : W)
      → undelivered q ≡ (x ∷ ps) ++ more
      → Passed w (x ∷ ps) more (0, q', v)
      → Flushed total q w (total, q', v)
  stopped x ps more total q q' w v e (le, o, left, inl all, calls) = absurd (omega arith)
  stopped x ps more total q q' w v e (le, o, left, inr stop, calls) =
      (0, omega arith, omega arith, o, left ∙ sym e, inr (rw left stop), rw (e, left) calls)

  pending_count-after :
      (ps more : List (Row B)) (n : ℕ) (q q' : Queue B) (w v : W)
      → undelivered q ≡ ps ++ more
      → Passed w ps more (n, q', v)
      → pending_count q' + n ≡ pending_count q
  unfolding pending_count
  pending_count-after ps more n q q' w v e (le, o, left, _, calls) = omega (
    arith,
    length-select is_pending q.rows,
    length-select is_pending q'.rows,
    ap length e,
    ap length left,
    length-drop n (ps ++ more),
    length-append ps more,
  )

  -- A later flush goes on from where this round has come to.
  continued :
      (ps more : List (Row B)) (total n : ℕ) (q q' : Queue B) (w v : W) (y : ℕ × Queue B × W)
      → undelivered q ≡ ps ++ more
      → Passed w ps more (n, q', v)
      → Flushed (total + n) q' v y
      → Flushed total q w y
  continued ps more total n q q' w v y e (le, o, left, why, calls)
        (sent, t, small, o', rest, end, later) =
      (
        n + sent,
        omega arith,
        omega (arith, pending_count-after ps more n q q' w v e (le, o, left, why, calls)),
        o',
        rest ∙ ap (drop sent) left ∙ drop-drop n sent (ps ++ more) ∙ ap (drop (n + sent)) (sym e),
        end,
        Calls-append w v y.2 (backlog encrypt decrypt q) (backlog encrypt decrypt q') _ n sent
            (rw (e, left) calls) later,
      )

  ends :
      (total : ℕ) (q : Queue B) (w : W) (y : ℕ × Queue B × W)
      → Flushed total q w y
      → Ends total q w (some y)
  unfolding Ends
  ends total q w y h = (y, refl, h)

  Ends-continued :
      (ps more : List (Row B)) (total n : ℕ) (q q' : Queue B) (w v : W)
      (z : Option (ℕ × Queue B × W))
      → undelivered q ≡ ps ++ more
      → Passed w ps more (n, q', v)
      → Ends (total + n) q' v z
      → Ends total q w z
  unfolding Ends
  Ends-continued ps more total n q q' w v z e passed (y, s, h) =
      (y, s, continued ps more total n q q' w v y e passed h)

  -- What a round does after its batch, when later rounds do what they should.
  after_batch :
      (x : Row B) (ps more : List (Row B)) (fuel batch_size total : ℕ) (q : Queue B) (w : W)
      (y : ℕ × Queue B × W)
      → undelivered q ≡ x ∷ (ps ++ more)
      → pending_count q < suc fuel
      → Passed w (x ∷ ps) more y
      → ((n : ℕ) (q' : Queue B) (v : W)
          → IsOrdered q'
          → pending_count q' < fuel
          → Ends n q' v (flush_rounds encrypt decrypt send fuel batch_size n q' v))
      → Ends total q w (
          let more = flush_rounds encrypt decrypt send fuel batch_size (total + y.0) y.1 y.2 in
          if y.0 == 0 then some (total, y.1, y.2) else more)
  after_batch x ps more fuel batch_size total q w (zero, q', v) e m passed later =
      ends total q w (total, q', v) (stopped x ps more total q q' w v e passed)
  after_batch x ps more fuel batch_size total q w (suc n, q', v) e m passed later =
      let some_sent : (suc n == 0) ≡ false = ground arith in
      rw some_sent (
        Ends-continued (x ∷ ps) more total (suc n) q q' w v _ e passed (
          later (total + suc n) q' v passed.1
            (omega (arith, pending_count-after (x ∷ ps) more (suc n) q q' w v e passed))))

  -- One round, by what there is to deliver.
  round :
      (fuel k total : ℕ) (q : Queue B) (w : W) (ps : List (Row B))
      → undelivered q ≡ ps
      → IsOrdered q
      → pending_count q < suc fuel
      → ((n : ℕ) (q' : Queue B) (w' : W)
          → IsOrdered q'
          → pending_count q' < fuel
          → Ends n q' w' (flush_rounds encrypt decrypt send fuel (suc k) n q' w'))
      → Ends total q w (flush_rounds encrypt decrypt send (suc fuel) (suc k) total q w)
  unfolding flush_rounds
  round fuel k total q w [] e o m later =
      rw (e, flush_rounds)
        (ends total q w (total, q, w) (0, omega arith, omega arith, o, refl, inl e, done w _))
  round fuel k total q w (x ∷ ps) e o m later =
      let split = e ∙ ap (λ l. x ∷ l) (sym (take-append-drop k ps)) in
      rw (e, flush_rounds)
        (after_batch x (take k ps) (drop k ps) fuel (suc k) total q w
          (send_batch encrypt decrypt send (map (opened encrypt decrypt) (x ∷ take k ps)) q w) split
          m (send_batch_lem (x ∷ take k ps) (drop k ps) q w o split) later)

  flush_rounds_lem :
      (fuel batch_size total : ℕ) (q : Queue B) (w : W)
      → 0 < batch_size
      → IsOrdered q
      → pending_count q < fuel
      → Ends total q w (flush_rounds encrypt decrypt send fuel batch_size total q w)
  flush_rounds_lem zero batch_size total q w b o m = absurd (omega arith)
  flush_rounds_lem (suc fuel) zero total q w b o m = absurd (omega arith)
  flush_rounds_lem (suc fuel) (suc k) total q w b o m =
      round fuel k total q w (undelivered q) refl o m
        λ n q' w' o' m'. flush_rounds_lem fuel (suc k) n q' w' b o' m'

  -- For every transport, also one that fails and recovers: with a positive batch size a flush of a
  -- queue in order comes to an end. Each call of the transport is given the event at the head of what
  -- is left of the backlog, and an event leaves it exactly when the transport has taken it. The
  -- result counts those; they were the first of the backlog, the rest of it is left undelivered in
  -- its order, and either nothing is left or the event at its head has been refused in the last
  -- call.
  pub flush_queue_delivers :
      (batch_size : ℕ) (q : Queue B) (w : W)
      → 0 < batch_size
      → IsOrdered q
      → (n : ℕ) × (q' : Queue B) × (w' : W) × (flush_queue encrypt decrypt send batch_size q w
          ≡ some (n, q', w'))
        × (n ≤ pending_count q)
        × IsOrdered q'
        × (backlog encrypt decrypt q' ≡ drop n (backlog encrypt decrypt q))
        × ((backlog encrypt decrypt q' ≡ []) ⊎ IsRefused w' (backlog encrypt decrypt q'))
        × Calls w (backlog encrypt decrypt q) n w' (backlog encrypt decrypt q')
  unfolding flush_queue Ends
  flush_queue_delivers batch_size q w b o =
      let (y, run, (sent, total, small, o', left, end, calls)) =
        flush_rounds_lem (suc (pending_count q)) batch_size 0 q w b o (omega arith) in
      let n = y.0 in
      let q' = y.1 in
      let same : n ≡ sent = omega arith in
      (
        n,
        q',
        y.2,
        run,
        omega arith,
        o',
        ap (map (opened encrypt decrypt)) left
            ∙ map-drop (opened encrypt decrypt) sent (undelivered q)
            ∙ ap (λ k. drop k (backlog encrypt decrypt q)) (sym same),
        ended q' y.2 end,
        subst (λ k. Calls w (backlog encrypt decrypt q) k y.2 (backlog encrypt decrypt q'))
            (sym same) calls,
      )
    where
      ended :
          (q' : Queue B) (v : W)
          → (undelivered q' ≡ []) ⊎ IsRefused v (backlog encrypt decrypt q')
          → (backlog encrypt decrypt q' ≡ []) ⊎ IsRefused v (backlog encrypt decrypt q')
      ended q' v (inl none_left) = inl (ap (map (opened encrypt decrypt)) none_left)
      ended q' v (inr stop) = inr stop
