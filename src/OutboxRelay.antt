-- ===== src/OutboxRelay.antt =====
-- services/mirage-outbox-relay/mirage_outbox_relay/relay.py: one batch of the relay that publishes
-- the outbox. JetStream and the alert callback are parameters. now() is the start of the
-- transaction, so it is one time for a batch; created_at is the order of the table.
pub mod Rows
pub mod Handling
pub mod Tests
use mirageby_ai.Common.{
  ℕ, zero, suc, ◌+◌, ◌-◌, ◌*◌, String, Bool, true, false, ◌&&◌, Option, none, some, List, [], ◌∷◌,
  leb, str_eq, min, length, select, update, take, if◌then◌else◌,
}
use mirageby_ai.Database.{OutboxRow, Message, Db}

pub record RelayAlert : Type 0 where
  pub event_id : String
  pub topic : String
  pub attempts : ℕ
  pub error : String

-- `publish` is `publish_event`, where a text is the exception that it raised.
pub record Relay (W : Type 0) : Type 0 where
  pub publish : String → Message → String → W → Option String × W
  pub on_alert : RelayAlert → W → W
  pub batch_size : ℕ

abbrev pub alert_after_attempts : ℕ
alert_after_attempts = 10

abbrev pub backoff_seconds : List ℕ
backoff_seconds = 1 ∷ 5 ∷ 25 ∷ 125 ∷ 625 ∷ []

abbrev pub get_elem : List ℕ → ℕ → ℕ
get_elem [] n = 0
get_elem (x ∷ xs) zero = x
get_elem (x ∷ xs) (suc n) = get_elem xs n

-- BACKOFF_SECONDS[min(new_attempts - 1, len(BACKOFF_SECONDS) - 1)], in milliseconds
abbrev pub delay : ℕ → ℕ
delay new_attempts =
    get_elem backoff_seconds (min (new_attempts - 1) (length backoff_seconds - 1)) * 1000

abbrev is_unpublished : Option ℕ → Bool
is_unpublished none = true
is_unpublished (some t) = false

-- WHERE published_at IS NULL AND next_attempt_at <= now()
abbrev pub is_due : ℕ → OutboxRow → Bool
is_due now x = is_unpublished x.published_at && leb x.next_attempt_at now

abbrev pub has_event_id : String → OutboxRow → Bool
has_event_id id x = str_eq x.event_id id

abbrev pub published : ℕ → OutboxRow → OutboxRow
published now x = record x { published_at = some now }

-- The new number of attempts and time of the next one, as they are written over a row.
abbrev pub rescheduled : ℕ → ℕ → OutboxRow → OutboxRow
rescheduled now new_attempts x = record x {
  attempts = new_attempts;
  next_attempt_at = now + delay new_attempts;
}

module _ {W : Type 0} (relay : Relay W) (now : ℕ) where
  -- The UPDATE behind one attempt at a row.
  abbrev pub mark : OutboxRow → Option String → List OutboxRow → List OutboxRow
  mark x none rows = update (has_event_id x.event_id) (published now) rows
  mark x (some error) rows =
      update (has_event_id x.event_id) (rescheduled now (x.attempts + 1)) rows

  abbrev pub alerted : OutboxRow → Option String → W → W
  alerted x none w = w
  alerted x (some error) w =
      if leb alert_after_attempts (x.attempts + 1)
      then relay.on_alert
          (record {
            event_id = x.event_id;
            topic = x.topic;
            attempts = x.attempts + 1;
            error = error;
          })
          w
      else w

  abbrev pub counted : Option String → ℕ → ℕ
  counted none n = suc n
  counted (some error) n = n

  -- The loop over the batch: how many were published, and the table behind it.
  pub relay_rows : List OutboxRow → List OutboxRow → W → ℕ × List OutboxRow × W
  relay_rows [] rows w = (0, rows, w)
  relay_rows (x ∷ xs) rows w =
      let (failure, w') = relay.publish x.topic x.payload x.event_id w in
      let (n, rows', w'') = relay_rows xs (mark x failure rows) (alerted x failure w') in
      (counted failure n, rows', w'')

-- One batch, which ends in a commit.
pub relay_once : {W : Type 0} → Relay W → Db → W → ℕ × Db × W
relay_once relay db w =
    let batch = take relay.batch_size (select (is_due db.now) db.outbox) in
    let (n, rows, w') = relay_rows relay db.now batch db.outbox w in
    (n, record db { outbox = rows }, w')
