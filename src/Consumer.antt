-- ===== src/Consumer.antt =====
-- libs/mirage_common/nats_client.py: the dead-letter rule of `DeadLetterAwareConsumer.process`. The
-- handler and JetStream's publish are parameters; what is sent to the broker is a list of signals.
-- JetStream counts the deliveries of a message from 1. The alert callback is left out.
pub mod Delivery
pub mod Tests
use mirageby_ai.Common.{
  ℕ, zero, suc, ◌+◌, ◌-◌, String, Bool, true, false, not, ◌&&◌, Option, none, some, List, [], ◌∷◌,
  ◌++◌, str_eq, leb, min, length, take, find, select, if◌then◌else◌,
}
use mirageby_ai.Contracts.Subjects.{failed_subject_for}

pub record Msg : Type 0 where
  pub event_id : Option String
  pub subject : String
  pub num_delivered : ℕ

-- An exception of the handler; its message is given by its code points.
pub record Failure : Type 0 where
  pub error_type : String
  pub error_message : List ℕ

pub record DeadLetterInfo : Type 0 where
  pub original_event_id : Option String
  pub consumer_name : String
  pub error_type : String
  pub error_message : List ℕ
  pub attempt_count : ℕ
  pub first_failure_at : String
  pub last_failure_at : String
  pub original_subject : String

pub data Signal : Type 0 where
  ack : Signal
  nak : ℕ → Signal
  published : String → DeadLetterInfo → Signal

pub data Outcome : Type 0 where
  processed retried dead_lettered : Outcome
  -- the publication of the dead letter raised
  not_published : Outcome

-- A delay is in seconds.
pub record Consumer : Type 0 where
  pub durable_name : String
  pub max_deliver : ℕ
  pub backoff_seconds : List ℕ
  pub first_failure_seen : List (String × String)

abbrev is_key : String → String × String → Bool
is_key k e = str_eq e.0 k

-- A dict's `get` with a default
abbrev pub get_or : String → String → List (String × String) → String
get_or k default d = elim (find (is_key k) d) [ none ↦ default | some e ↦ e.1 ]

abbrev has_key : String → List (String × String) → Bool
has_key k d = elim (find (is_key k) d) [ none ↦ false | some e ↦ true ]

-- `event_id and event_id not in ...`: an empty text counts as none.
abbrev pub remember : Option String → String → List (String × String) → List (String × String)
remember none now d = d
remember (some k) now d = if str_eq k "" then d else if has_key k d then d else d ++ (k, now) ∷ []

abbrev pub forget : Option String → List (String × String) → List (String × String)
forget none d = d
forget (some k) d = if str_eq k "" then d else select (λ e. not (is_key k e)) d

abbrev pub or_empty : Option String → String
or_empty none = ""
or_empty (some k) = k

-- backoff_seconds[min(num_delivered - 1, len(backoff_seconds) - 1)], of a list that is not empty
abbrev pub backoff : List ℕ → ℕ → ℕ
backoff [] n = 0
backoff (d ∷ []) n = d
backoff (d ∷ e ∷ ds) zero = d
backoff (d ∷ e ∷ ds) (suc n) = backoff (e ∷ ds) n

abbrev pub dead_letter : Consumer → Msg → Failure → String → DeadLetterInfo
dead_letter c msg e now = record {
  original_event_id = msg.event_id;
  consumer_name = c.durable_name;
  error_type = e.error_type;
  error_message = take 1000 e.error_message;
  attempt_count = msg.num_delivered;
  first_failure_at = get_or (or_empty msg.event_id) now c.first_failure_seen;
  last_failure_at = now;
  original_subject = msg.subject;
}

abbrev pub forgetting : Msg → Consumer → Consumer
forgetting msg c = record c { first_failure_seen = forget msg.event_id c.first_failure_seen }

module _ {W : Type 0} (handler : Msg → W → Option Failure × W)
    (publish : String → DeadLetterInfo → W → Bool × W) where
  -- `_dead_letter`, and the acknowledgement behind it
  abbrev pub bury : Msg → Failure → String → Consumer → W → Outcome × List Signal × Consumer × W
  bury msg e now c w =
      let info = dead_letter c msg e now in
      let (sent, w') = publish (failed_subject_for msg.subject) info w in
      if sent
      then (
        dead_lettered,
        published (failed_subject_for msg.subject) info ∷ ack ∷ [],
        forgetting msg c,
        w',
      )
      else (not_published, [], c, w')

  -- What follows the handler.
  abbrev pub settle :
      Msg → Option Failure → String → Consumer → W → Outcome × List Signal × Consumer × W
  settle msg none now c w = (processed, ack ∷ [], forgetting msg c, w)
  settle msg (some e) now c w =
      if leb c.max_deliver msg.num_delivered
      then bury msg e now c w
      else (retried, nak (backoff c.backoff_seconds (msg.num_delivered - 1)) ∷ [], c, w)

  unfoldable pub process : Msg → String → Consumer → W → Outcome × List Signal × Consumer × W
  process msg now c w =
      let (failure, w') = handler msg w in
      settle msg failure now
        (record c { first_failure_seen = remember msg.event_id now c.first_failure_seen }) w'
