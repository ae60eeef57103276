-- ===== src/OutboxRelay/Tests.antt =====
-- A batch of two over an outbox of three, with a broker that refuses the second event.
use mirageby_ai.Common.{
  false-ne-true, ℕ, ◌+◌, ◌≡◌, refl, ap, none, some, [], ◌∷◌, str_eq, ◌==◌, if◌then◌else◌,
}
use mirageby_ai.Samples.{empty_db}
use mirageby_ai.Contracts.Tests.{sample_event}
use mirageby_ai.Database.{event, outbox_row, Db}
use mirageby_ai.OutboxRelay.{Relay, relay_once}
use mirageby_ai.OutboxRelay.Rows.{Distinct}
use mirageby_ai.OutboxRelay.Handling.{Handled, relay_once-Handled}

-- The world counts the calls of the broker.
abbrev relay : Relay ℕ
relay = record {
  publish = λ topic payload id calls. (if calls == 1 then some "timeout" else none, calls + 1);
  on_alert = λ alert calls. calls;
  batch_size = 2;
}

abbrev waiting : Db
waiting = record empty_db {
  outbox =
      outbox_row "a" "t" (event sample_event) 1000
      ∷ outbox_row "b" "t" (event sample_event) 2000
      ∷ outbox_row "c" "t" (event sample_event) 3000
      ∷ [];
}

waiting-Distinct : Distinct waiting.outbox
waiting-Distinct = (
  (
    (λ e. false-ne-true (ap (λ s. str_eq s "b") e)),
    ((λ e. false-ne-true (ap (λ s. str_eq s "c") e)), tt),
  ),
  ((((λ e. false-ne-true (ap (λ s. str_eq s "c") e)), tt)), (tt, tt)),
)

relay_once-Handled_example :
    let (n, after, w') = relay_once relay waiting 0 in
    Handled relay 5000 2 0 waiting.outbox after.outbox n w'
    × (after ≡ record waiting { outbox = after.outbox })
relay_once-Handled_example = relay_once-Handled relay waiting 0 waiting-Distinct

relay_once_counts : (relay_once relay waiting 0).0 ≡ 1
unfolding relay_once mirageby_ai.OutboxRelay.relay_rows
relay_once_counts = refl
