-- ===== src/AgentQueue.antt =====
-- libs/mirage_common/agent_queue.py: the encrypted local queue and the sequence store of the
-- Windows agents, and the `flush_queue` of agents/mirage-endpoint that drains it. The table is the
-- list of its rows in the order of their identifiers, since AUTOINCREMENT hands those out upwards.
-- Fernet and the JSON encoding behind it are the parameters `encrypt` and `decrypt`.
pub mod Order
pub mod Flush
pub mod Capacity
pub mod Tests
use mirageby_ai.Common.{
  ℕ, zero, suc, ◌+◌, String, Bool, true, false, not, Option, none, some, List, [], ◌∷◌, ◌++◌, leb,
  ◌==◌, map, any, find, count, select, update, take, if◌then◌else◌,
}

pub data Status : Type 0 where
  pending acknowledged dead_letter : Status

pub record Row (B : Type 0) : Type 0 where
  pub id : ℕ
  pub enqueued_at : String
  pub encrypted_blob : B
  pub status : Status
  pub attempts : ℕ
  pub last_error : Option String

-- `last_id` is the largest identifier that was ever handed out.
pub record Queue (B : Type 0) : Type 0 where
  pub max_queue_size : ℕ
  pub rows : List (Row B)
  pub last_id : ℕ
  pub sequence : ℕ

module _ {B : Type 0} where
  abbrev pub is_pending : Row B → Bool
  is_pending x = elim x.status [ pending ↦ true | acknowledged ↦ false | dead_letter ↦ false ]

  abbrev pub is_acknowledged : Row B → Bool
  is_acknowledged x = elim x.status [ pending ↦ false | acknowledged ↦ true | dead_letter ↦ false ]

  abbrev pub is_dead_letter : Row B → Bool
  is_dead_letter x = elim x.status [ pending ↦ false | acknowledged ↦ false | dead_letter ↦ true ]

  -- id IN (...)
  abbrev pub is_in : List ℕ → Row B → Bool
  is_in ids x = any (λ k. k == x.id) ids

  pub pending_count : Queue B → ℕ
  pending_count q = count is_pending q.rows

  pub dead_letter_count : Queue B → ℕ
  dead_letter_count q = count is_dead_letter q.rows

  pub ack : List ℕ → Queue B → Queue B
  ack ids q = record q {
    rows = update (is_in ids) (λ x. record x { status = acknowledged }) q.rows;
  }

  abbrev failed : String → Row B → Row B
  failed error x = record x { attempts = x.attempts + 1; last_error = some error }

  -- The result is the row's new count of attempts; without such a row `fetchone()[0]` raises.
  pub record_attempt_failure : ℕ → String → Queue B → Option (ℕ × Queue B)
  record_attempt_failure row_id error q = elim (find (is_in (row_id ∷ [])) q.rows) [
    | none ↦ none
    | some x ↦
        some
          (x.attempts + 1, record q { rows = update (is_in (row_id ∷ [])) (failed error) q.rows })
  ]

  -- An error that is given replaces the row's last one.
  abbrev buried : Option String → Row B → Row B
  buried none x = record x { status = dead_letter }
  buried (some error) x = record x { status = dead_letter; last_error = some error }

  pub dead_letter_rows : List ℕ → Option String → Queue B → Queue B
  dead_letter_rows ids error q = record q { rows = update (is_in ids) (buried error) q.rows }

  pub vacuum_acked : Queue B → Queue B
  vacuum_acked q = record q { rows = select (λ x. not (is_acknowledged x)) q.rows }

  pub next_sequence : Queue B → ℕ × Queue B
  next_sequence q = (q.sequence + 1, record q { sequence = q.sequence + 1 })

  pub current_sequence : Queue B → ℕ
  current_sequence q = q.sequence

module _ {E B : Type 0} (encrypt : E → B) (decrypt : B → E) where
  -- `none` is QueueCapacityExceeded.
  pub enqueue : E → String → Queue B → Option (ℕ × Queue B)
  unfolding pending_count
  enqueue event enqueued_at q =
      if leb q.max_queue_size (pending_count q)
      then none
      else some (
        q.last_id + 1,
        record q {
          rows =
              q.rows
              ++ record {
                id = q.last_id + 1;
                enqueued_at = enqueued_at;
                encrypted_blob = encrypt event;
                status = pending;
                attempts = 0;
                last_error = none;
              }
                ∷ [];
          last_id = q.last_id + 1;
        },
      )

  abbrev pub opened : Row B → ℕ × E
  opened x = (x.id, decrypt x.encrypted_blob)

  -- SELECT ... WHERE status = 'PENDING' ORDER BY id LIMIT
  pub peek_batch : ℕ → Queue B → List (ℕ × E)
  peek_batch limit q = map opened (take limit (select is_pending q.rows))

  -- All that is undelivered, in order: what `peek_batch` shows without a limit.
  abbrev pub backlog : Queue B → List (ℕ × E)
  backlog q = map opened (select is_pending q.rows)

  module _ {W : Type 0} (send : E → W → Bool × W) where
    -- The inner loop: how many events were sent, the queue and the rest of the world.
    abbrev counted : ℕ × Queue B × W → ℕ × Queue B × W
    counted (n, q, w) = (suc n, q, w)

    pub send_batch : List (ℕ × E) → Queue B → W → ℕ × Queue B × W
    unfolding ack
    send_batch [] q w = (0, q, w)
    send_batch ((row_id, event) ∷ rest) q w =
        let (sent, w') = send event w in
        let more = counted (send_batch rest (ack (row_id ∷ []) q) w') in
        if sent then more else (0, q, w')

    -- The outer loop, with fuel for its rounds; `none` is that the fuel ran out.
    pub flush_rounds : ℕ → ℕ → ℕ → Queue B → W → Option (ℕ × Queue B × W)
    unfolding send_batch peek_batch
    flush_rounds zero batch_size total q w = none
    flush_rounds (suc fuel) batch_size total q w = elim (peek_batch batch_size q) [
      | [] ↦ some (total, q, w)
      | b ∷ bs ↦
          let (n, q', w') = send_batch (b ∷ bs) q w in
          let more = flush_rounds fuel batch_size (total + n) q' w' in
          if n == 0 then some (total, q', w') else more
    ]

    -- `flush_queue`, with more fuel than there are events to send
    pub flush_queue : ℕ → Queue B → W → Option (ℕ × Queue B × W)
    unfolding flush_rounds pending_count
    flush_queue batch_size q w = flush_rounds (suc (pending_count q)) batch_size 0 q w
