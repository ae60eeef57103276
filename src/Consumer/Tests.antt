-- ===== src/Consumer/Tests.antt =====
-- A message whose handler fails every time, and may be delivered three times.
use mirageby_ai.Common.{
  ℕ, ◌+◌, ◌≤◌, ◌≡◌, refl, String, Bool, true, Option, none, some, List, [], ◌∷◌, arith,
}
use mirageby_ai.Consumer.{
  Msg, Failure, DeadLetterInfo, Outcome, Signal, dead_lettered, Consumer, process,
}
use mirageby_ai.Consumer.Delivery.{
  IsSignalled, process-IsSignalled, deliver, IsSettled, deliver_settles,
}

abbrev failing : Msg → ℕ → Option Failure × ℕ
failing msg calls = (some (record { error_type = "KeyError"; error_message = 107 ∷ [] }), calls + 1)

abbrev reliable : String → DeadLetterInfo → ℕ → Bool × ℕ
reliable subject info calls = (true, calls)

abbrev consumer : Consumer
consumer = record {
  durable_name = "worker";
  max_deliver = 3;
  backoff_seconds = 1 ∷ 5 ∷ [];
  first_failure_seen = [];
}

abbrev message : Msg
message = record { event_id = some "event"; subject = "agent.heartbeat"; num_delivered = 1 }

abbrev clock : ℕ → String
clock n = "now"

process-IsSignalled_example :
    IsSignalled failing reliable message consumer 0
      (process failing reliable message "now" consumer 0)
process-IsSignalled_example = process-IsSignalled failing reliable message "now" consumer 0

deliver_settles_example :
    (m : Msg) × (d : Consumer) × (calls : ℕ) × (o : Outcome) × (signals : List Signal) × (deliver
        failing reliable 3 clock message consumer 0
      ≡ some (m, d, calls, o, signals))
    × (m.num_delivered ≤ 3)
    × IsSettled failing reliable 3 m calls signals
deliver_settles_example =
    deliver_settles failing reliable 3 clock message consumer 0 (omega arith) (omega arith)

abbrev outcome_of : Option (Msg × Consumer × ℕ × Outcome × List Signal) → Option Outcome
outcome_of none = none
outcome_of (some (m, c, calls, o, signals)) = some o

third_is_buried :
    outcome_of (deliver failing reliable 3 clock message consumer 0) ≡ some dead_lettered
unfolding process
third_is_buried = refl
