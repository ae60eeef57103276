-- ===== src/Routing.antt =====
-- libs/mirage_common/routing.py: the routing decisions, the lookup that a broker makes before it
-- opens a backend, and the cache in front of it. Of the table's constraints the order of the
-- validity and the exclusion of overlaps are modelled, and not the foreign key. A time is in
-- milliseconds, and NULL for the end of a validity is open.
pub mod Exclusion
pub mod Cache
pub mod Tests
use mirageby_ai.Common.{
  ℕ, ◌+◌, String, Bool, true, false, not, ◌&&◌, Option, none, some, List, [], ◌∷◌, ◌++◌, str_eq,
  ltb, leb, max, any, select, find, if◌then◌else◌,
}
use mirageby_ai.Common.Exec.{ok, err, pure, raise, raise_if, modify, gets, ◌>>=◌, ◌>>◌}
use mirageby_ai.Contracts.Text.{concat}
use mirageby_ai.Contracts.Json.{Json, text, num, dict}
use mirageby_ai.Contracts.Envelope.{Runtime}
use mirageby_ai.Database.{
  Db, Tx, DecisionRow, insert_audit, generate_ulid, non_empty, or_generated, emit,
  exclusion_violation, check_violation,
}

abbrev pub default_target : String
default_target = "ENDPOINT"

pub build_match_key : String → String → String → String → String
build_match_key protocol listener_id source_ip principal =
    concat (protocol ∷ "|" ∷ listener_id ∷ "|" ∷ source_ip ∷ "|" ∷ principal ∷ [])

pub record RoutingDecision : Type 0 where
  pub decision_id : String
  pub case_id : String
  pub match_key : String
  pub target : String
  pub version : ℕ
  pub valid_from : ℕ
  pub valid_until : Option ℕ

-- The arguments of `write_routing_decision`.
pub record DecisionRequest : Type 0 where
  pub case_id : String
  pub match_key : String
  pub protocol : String
  pub target : String
  pub created_by : String
  pub valid_from : Option ℕ
  pub valid_until : Option ℕ

abbrev pub before_end : ℕ → Option ℕ → Bool
before_end t none = true
before_end t (some e) = ltb t e

-- The constraint of migration 0005: one key, overlapping [valid_from, valid_until)
abbrev pub conflicts : DecisionRow → DecisionRow → Bool
conflicts x y =
    str_eq x.match_key y.match_key
    && (before_end x.valid_from y.valid_until && before_end y.valid_from x.valid_until)

pub insert_decision : DecisionRow → Tx (Unit {0})
insert_decision row db =
    if not (before_end row.valid_from row.valid_until)
    then (err (check_violation row.match_key), db)
    else if any (λ x. conflicts x row) db.decisions
    then (err (exclusion_violation row.match_key), db)
    else (ok tt, record db { decisions = db.decisions ++ row ∷ [] })

-- COALESCE(MAX(version), 0)
abbrev pub last_version : String → List DecisionRow → ℕ
last_version key [] = 0
last_version key (x ∷ xs) =
    let rest = last_version key xs in if str_eq x.match_key key then max x.version rest else rest

abbrev or_now : Option ℕ → ℕ → ℕ
or_now none now = now
or_now (some t) now = t

abbrev pub decision_row : DecisionRequest → Db → DecisionRow
decision_row q db = record {
  case_id = q.case_id;
  match_key = q.match_key;
  target = q.target;
  valid_from = or_now q.valid_from db.now;
  valid_until = q.valid_until;
  version = last_version q.match_key db.decisions + 1;
  created_by = q.created_by;
}

-- valid_from <= now() AND (valid_until IS NULL OR valid_until > now())
abbrev pub is_active : String → ℕ → DecisionRow → Bool
is_active key now x =
    str_eq x.match_key key && (leb x.valid_from now && before_end now x.valid_until)

-- ORDER BY valid_from DESC LIMIT 1
abbrev pub latest : List DecisionRow → Option DecisionRow
latest [] = none
latest (x ∷ xs) = elim (latest xs) [
  | none ↦ some x
  | some y ↦ if ltb x.valid_from y.valid_from then some y else some x
]

abbrev pub active_decision : String → Db → Option DecisionRow
active_decision key db = latest (select (is_active key db.now) db.decisions)

abbrev case_of : Option DecisionRow → Option String
case_of none = none
case_of (some x) = some x.case_id

abbrev pub target_of : Option DecisionRow → String
target_of none = default_target
target_of (some x) = x.target

abbrev version_of : Option DecisionRow → ℕ
version_of none = 0
version_of (some x) = x.version

abbrev action_of : Option DecisionRow → String
action_of none = "FAILSAFE_DEFAULT"
action_of (some x) = "SELECTED"

abbrev decision_payload : String → String → String → String → String → ℕ → String → Json
decision_payload decision_id case_id protocol match_key target version action = dict (
    ("decision_id", text decision_id)
    ∷ ("case_id", text case_id)
    ∷ ("protocol", text protocol)
    ∷ ("match_key", text match_key)
    ∷ ("target", text target)
    ∷ ("decision_version", num version)
    ∷ ("action", text action)
    ∷ [])

module _ (r : Runtime) where
  -- The audit row and the event of a decision that was written.
  pub announce_decision : DecisionRequest → String → ℕ → Tx (Unit {0})
  unfolding ◌>>=◌
  announce_decision q decision_id version = do
    insert_audit (record {
      actor = q.created_by;
      actor_type = "ANALYST";
      action = "routing.decision_approved";
      target = q.case_id;
      outcome = "SUCCESS";
      correlation_id = decision_id;
      detail = concat ("match_key=" ∷ q.match_key ∷ " target=" ∷ q.target ∷ []);
    })
    emit r "steering.decision_recorded"
        (decision_payload decision_id q.case_id q.protocol q.match_key q.target version "CREATED")
        "mirage-api" version "ANALYST" "INTERNAL" (some q.case_id)

  pub write_routing_decision : DecisionRequest → Tx RoutingDecision
  unfolding ◌>>=◌
  write_routing_decision q = do
    decision_id ← generate_ulid r
    row ← gets (decision_row q)
    insert_decision row
    announce_decision q decision_id row.version
    pure (record {
      decision_id = decision_id;
      case_id = q.case_id;
      match_key = q.match_key;
      target = q.target;
      version = row.version;
      valid_from = row.valid_from;
      valid_until = row.valid_until;
    })

  -- What `resolve_route` does with the row that its query found.
  pub record_selection : String → String → Option DecisionRow → Tx String
  unfolding ◌>>=◌
  record_selection match_key protocol row = do
    decision_id ← generate_ulid r
    case_id ← or_generated r (non_empty (case_of row))
    emit r "steering.decision_recorded"
        (decision_payload decision_id case_id protocol match_key (target_of row)
          (max (version_of row) 1) (action_of row))
        "mirage-api" (max (version_of row) 1) "SYSTEM" "INTERNAL" (case_of row)
    pure (target_of row)

  pub resolve_route : String → String → Tx String
  resolve_route match_key protocol db =
      record_selection match_key protocol (active_decision match_key db) db

-- `RouteCache`: a dict from a key to a target and the reading of the clock at which it was put in
pub record CacheEntry : Type 0 where
  pub match_key : String
  pub target : String
  pub cached_at : ℕ

pub record RouteCache : Type 0 where
  pub ttl : ℕ
  pub entries : List CacheEntry

abbrev pub entry_for : String → CacheEntry → Bool
entry_for key e = str_eq e.match_key key

abbrev pub without : String → List CacheEntry → List CacheEntry
without key entries = select (λ e. not (entry_for key e)) entries

abbrev cached : String → ℕ → CacheEntry → RouteCache → Option String × RouteCache
cached key now e c =
    if ltb (e.cached_at + c.ttl) now
    then (none, record c { entries = without key c.entries })
    else (some e.target, c)

-- `get` at a reading of the monotonic clock: time.monotonic() - cached_at > ttl
unfoldable pub get : String → ℕ → RouteCache → Option String × RouteCache
get key now c = elim (find (entry_for key) c.entries) [
  | none ↦ (none, c)
  | some e ↦ cached key now e c
]

pub set : String → String → ℕ → RouteCache → RouteCache
set key target now c = record c {
  entries =
      without key c.entries ++ record { match_key = key; target = target; cached_at = now } ∷ [];
}
