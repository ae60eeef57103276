-- ===== src/AgentQueue/Capacity.antt =====
-- Backpressure: the capacity of the queue under its operations.
use mirageby_ai.Common.{
  ℕ, ◌+◌, ◌≤◌, ◌<◌, String, ◌≡◌, refl, ap, ◌∙◌, Bool, true, false, not, inl, inr, Option, some,
  none, List, [], ◌∷◌, ◌++◌, arith, select, select-append, count, count-append, update, map, leb,
  Bool-cases, Option-cases, find,
}
use mathlib.Core.List.{map-append}
use mirageby_ai.AgentQueue.{
  Row, Queue, is_pending, is_acknowledged, is_dead_letter, is_in, opened, pending, pending_count,
  ack, record_attempt_failure, failed, buried, dead_letter_rows, vacuum_acked, next_sequence,
  enqueue, backlog,
}
use mirageby_ai.AgentQueue.Order.{Between-append, Between-update, IsOrdered, vacuum_acked-IsOrdered}

module _ {B : Type 0} where
  -- An update that makes no row pending adds nothing to the backlog's count.
  count-update_le :
      (p : Row B → Bool) (f : Row B → Row B) (xs : List (Row B))
      → ((x : Row B) → is_pending (f x) ≡ true → is_pending x ≡ true)
      → count is_pending (update p f xs) ≤ count is_pending xs
  count-update_le p f [] h = omega arith
  count-update_le p f (x ∷ xs) h = ground (arith, h x, count-update_le p f xs h)

  count-select_le :
      (p : Row B → Bool) (xs : List (Row B)) → count is_pending (select p xs) ≤ count is_pending xs
  count-select_le p [] = omega arith
  count-select_le p (x ∷ xs) = ground (arith, count-select_le p xs)

  select-vacuum :
      (p : Row B → Bool) (xs : List (Row B))
      → ((x : Row B) → is_acknowledged x ≡ true → p x ≡ false)
      → select p (select (λ x. not (is_acknowledged x)) xs) ≡ select p xs
  select-vacuum p [] h = refl
  select-vacuum p (x ∷ xs) h = ground (arith, h x, select-vacuum p xs h)

-- The operations of the queue, as an agent calls them.
pub data Operation (E : Type 0) : Type 0 where
  enqueue_event : E → String → Operation E
  ack_rows : List ℕ → Operation E
  fail_row : ℕ → String → Operation E
  bury_rows : List ℕ → Option String → Operation E
  vacuum : Operation E
  draw_sequence : Operation E

-- The rows are in order, and the undelivered ones within the capacity.
pub record IsValid {B : Type 0} (q : Queue B) : Type 0 where
  pub ordered : IsOrdered q
  pub within : pending_count q ≤ q.max_queue_size

module _ {E B : Type 0} (encrypt : E → B) (decrypt : B → E) where
  abbrev after : {A : Type 0} → Queue B → Option (A × Queue B) → Queue B
  after q none = q
  after q (some (a, q')) = q'

  -- An operation that raises has changed nothing.
  pub operate : Operation E → Queue B → Queue B
  operate (enqueue_event e at_time) q = after q (enqueue encrypt decrypt e at_time q)
  operate (ack_rows ids) q = ack ids q
  operate (fail_row id error) q = after q (record_attempt_failure id error q)
  operate (bury_rows ids error) q = dead_letter_rows ids error q
  operate vacuum q = vacuum_acked q
  operate draw_sequence q = (next_sequence q).1

  pub operate_all : List (Operation E) → Queue B → Queue B
  operate_all [] q = q
  operate_all (o ∷ os) q = operate_all os (operate o q)

  enqueue-IsValid :
      (e : E) (at_time : String) (q : Queue B)
      → IsValid q
      → IsValid (after q (enqueue encrypt decrypt e at_time q))
  unfolding enqueue pending_count
  enqueue-IsValid e at_time q v =
      let row : Row B = record {
        id = q.last_id + 1;
        enqueued_at = at_time;
        encrypted_blob = encrypt e;
        status = pending;
        attempts = 0;
        last_error = none;
      } in
      elim (Bool-cases (leb q.max_queue_size (count is_pending q.rows))) [
        | inl full ↦ rw full v
        | inr room ↦ rw room (record {
          ordered = Between-append 0 q.rows q.last_id _ v.ordered refl;
          within = ground (arith, count-append is_pending q.rows (row ∷ []));
        })
      ]

  update-IsValid :
      (p : Row B → Bool) (f : Row B → Row B) (q : Queue B)
      → ((x : Row B) → (f x).id ≡ x.id)
      → ((x : Row B) → is_pending (f x) ≡ true → is_pending x ≡ true)
      → IsValid q
      → IsValid (record q { rows = update p f q.rows })
  unfolding pending_count
  update-IsValid p f q same less v = record {
    ordered = Between-update p f 0 q.rows q.last_id same v.ordered;
    within = omega (arith, v.within, count-update_le p f q.rows less);
  }

  operate-IsValid : (o : Operation E) (q : Queue B) → IsValid q → IsValid (operate o q)
  unfolding operate ack dead_letter_rows vacuum_acked next_sequence record_attempt_failure
      pending_count
  operate-IsValid (enqueue_event e at_time) q v = enqueue-IsValid e at_time q v
  operate-IsValid (ack_rows ids) q v = update-IsValid (is_in ids) _ q (λ x. refl) (λ x h. cc) v
  operate-IsValid (fail_row id error) q v = elim (Option-cases (find (is_in (id ∷ [])) q.rows)) [
    | inl missing ↦ rw (missing, operate, record_attempt_failure) v
    | inr (x, found) ↦
        rw (found, operate, record_attempt_failure)
          (update-IsValid (is_in (id ∷ [])) (failed error) q (λ x. refl) (λ x h. h) v)
  ]
  operate-IsValid (bury_rows ids none) q v =
      update-IsValid (is_in ids) (buried none) q (λ x. refl) (λ x h. cc) v
  operate-IsValid (bury_rows ids (some error)) q v =
      update-IsValid (is_in ids) (buried (some error)) q (λ x. refl) (λ x h. cc) v
  operate-IsValid vacuum q v = record {
    ordered = vacuum_acked-IsOrdered q v.ordered;
    within = omega (arith, v.within, count-select_le (λ x. not (is_acknowledged x)) q.rows);
  }
  operate-IsValid draw_sequence q v = record { ordered = v.ordered; within = v.within }

  -- Whatever operations are called, failing or not, in whatever order: the identifiers stay in
  -- order and the undelivered events stay within the capacity.
  pub operate_all-IsValid :
      (os : List (Operation E)) (q : Queue B) → IsValid q → IsValid (operate_all os q)
  unfolding operate_all
  operate_all-IsValid [] q v = v
  operate_all-IsValid (o ∷ os) q v = operate_all-IsValid os (operate o q) (operate-IsValid o q v)

  -- With a decryption that undoes the encryption, an event that is let in is found at the end of
  -- the backlog under a new identifier; one that finds the queue full is refused, and only then.
  pub enqueue_lem :
      (e : E) (at_time : String) (q : Queue B)
      → decrypt (encrypt e) ≡ e
      → (pending_count q < q.max_queue_size
          → (q' : Queue B) × (enqueue encrypt decrypt e at_time q ≡ some (q.last_id + 1, q'))
            × (backlog encrypt decrypt q' ≡ backlog encrypt decrypt q ++ (q.last_id + 1, e) ∷ []))
        × (q.max_queue_size ≤ pending_count q → enqueue encrypt decrypt e at_time q ≡ none)
  unfolding enqueue
  enqueue_lem e at_time q opens = (
    λ room.
        let open_queue : leb q.max_queue_size (pending_count q) ≡ false = ground arith in
        rw open_queue (
          _,
          refl,
          ap (map (opened encrypt decrypt)) (select-append is_pending q.rows _)
              ∙ map-append (opened encrypt decrypt) (select is_pending q.rows) _
              ∙ ap (λ d. backlog encrypt decrypt q ++ (q.last_id + 1, d) ∷ []) opens,
        ),
    λ full.
        let refused : leb q.max_queue_size (pending_count q) ≡ true = ground arith in rw refused,
  )

-- Reclaiming space drops acknowledged rows only: the backlog and the dead letters stay, in order.
pub vacuum_acked_keeps :
    {B : Type 0} (q : Queue B)
    → (select is_pending (vacuum_acked q).rows ≡ select is_pending q.rows)
      × (select is_dead_letter (vacuum_acked q).rows ≡ select is_dead_letter q.rows)
      × (count is_acknowledged (vacuum_acked q).rows ≡ 0)
unfolding vacuum_acked
vacuum_acked_keeps q = (
  select-vacuum is_pending q.rows (λ x h. ground arith),
  select-vacuum is_dead_letter q.rows (λ x h. ground arith),
  none_left q.rows,
)
  where
    none_left :
        {B : Type 0} (xs : List (Row B))
        → count is_acknowledged (select (λ x. not (is_acknowledged x)) xs) ≡ 0
    none_left [] = refl
    none_left (x ∷ xs) = ground (arith, none_left xs)
