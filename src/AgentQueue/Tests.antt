-- ===== src/AgentQueue/Tests.antt =====
-- A queue of numbers that are kept as they are.
use mirageby_ai.Common.{
  ℕ, ◌+◌, ◌≤◌, ◌≡◌, Bool, true, false, none, some, [], ◌∷◌, ◌⊎◌, drop, arith, ◌==◌, if◌then◌else◌,
}
use mirageby_ai.AgentQueue.{Row, Queue, pending, acknowledged, pending_count, backlog, flush_queue}
use mirageby_ai.AgentQueue.Order.{IsOrdered}
use mirageby_ai.AgentQueue.Flush.{IsRefused, Calls, flush_queue_delivers}
use mirageby_ai.AgentQueue.Capacity.{
  enqueue_event, ack_rows, vacuum, IsValid, operate_all, operate_all-IsValid,
}

abbrev plain : ℕ → ℕ
plain n = n

-- The transport fails at its second call.
abbrev send : ℕ → ℕ → Bool × ℕ
send event calls = (if calls == 1 then false else true, calls + 1)

abbrev row : ℕ → ℕ → Row ℕ
row id n = record {
  id = id;
  enqueued_at = "t";
  encrypted_blob = n;
  status = pending;
  attempts = 0;
  last_error = none;
}

abbrev queue : Queue ℕ
queue = record {
  max_queue_size = 3;
  rows = row 1 10 ∷ record (row 2 20) { status = acknowledged } ∷ row 4 40 ∷ [];
  last_id = 4;
  sequence = 9;
}

queue-IsOrdered : IsOrdered queue
queue-IsOrdered = omega arith

flush_queue_delivers_example :
    (n : ℕ) × (q' : Queue ℕ) × (w' : ℕ) × (flush_queue plain plain send 2 queue 0
      ≡ some (n, q', w'))
    × (n ≤ pending_count queue)
    × IsOrdered q'
    × (backlog plain plain q' ≡ drop n (backlog plain plain queue))
    × ((backlog plain plain q' ≡ []) ⊎ IsRefused plain plain send w' (backlog plain plain q'))
    × Calls plain plain send 0 (backlog plain plain queue) n w' (backlog plain plain q')
flush_queue_delivers_example =
    flush_queue_delivers plain plain send 2 queue 0 (omega arith) queue-IsOrdered

queue-IsValid : IsValid queue
unfolding pending_count
queue-IsValid = record { ordered = queue-IsOrdered; within = omega arith }

operate_all-IsValid_example : IsValid (
    operate_all plain plain
      (enqueue_event 50 "u" ∷ enqueue_event 60 "v" ∷ ack_rows (1 ∷ []) ∷ vacuum ∷ [])
      queue)
operate_all-IsValid_example =
    operate_all-IsValid plain plain
      (enqueue_event 50 "u" ∷ enqueue_event 60 "v" ∷ ack_rows (1 ∷ []) ∷ vacuum ∷ []) queue
      queue-IsValid
