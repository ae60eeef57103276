-- ===== src/Samples.antt =====
-- Test data that the tests of several parts share: a runtime of constant functions and a small
-- database.
use mirageby_ai.Common.{ℕ, String, true, none, some, [], ◌∷◌}
use mirageby_ai.Contracts.Envelope.{Runtime}
use mirageby_ai.Database.{Db, CaseRow, CaseState, created, sandbox_active}

abbrev pub runtime : Runtime
runtime = record {
  ulid = λ n. "01ARZ3NDEKTSV4RRFFQ69G5FAV";
  rfc3339 = λ t. "2026-01-01T00:00:00Z";
  sha256_hex = λ j. "00";
  canonical_size = λ j. 100;
  event_is_wellformed = λ e. true;
  command_is_wellformed = λ c. true;
  payload_conforms = λ t m j. true;
  event_majors = λ t. 1 ∷ [];
  command_majors = λ t. 1 ∷ [];
}

abbrev pub case_row : String → CaseState → ℕ → CaseRow
case_row case_id s v = record {
  case_id = case_id;
  state = s;
  version = v;
  severity = "HIGH";
  correlation_key = some "key";
}

abbrev pub empty_db : Db
empty_db = record {
  cases = [];
  transitions = [];
  audit = [];
  outbox = [];
  processed = [];
  decisions = [];
  sandboxes = [];
  actions = [];
  placements = none;
  snapshots = [];
  now = 5000;
  drawn = 0;
}

abbrev pub created_db : Db
created_db = record empty_db { cases = case_row "case" created 1 ∷ [] }

abbrev pub waiting_db : Db
waiting_db = record empty_db { cases = case_row "case" sandbox_active 5 ∷ [] }
