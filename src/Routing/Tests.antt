-- ===== src/Routing/Tests.antt =====
-- A decision for one key, its lookup, and the cache.
use mirageby_ai.Common.{◌+◌, ◌≡◌, refl, none, some, [], ◌∷◌, length}
use mirageby_ai.Common.Exec.{ok}
use mirageby_ai.Samples.{runtime, empty_db}
use mirageby_ai.Database.{Db, DecisionRow}
use mirageby_ai.Routing.{
  DecisionRequest, RouteCache, write_routing_decision, resolve_route, get, set,
}
use mirageby_ai.Routing.Exclusion.{
  IsDisjoint, IsSelected, resolve_route_selects, write_routing_decision-IsDisjoint,
}

abbrev steered : DecisionRow
steered = record {
  case_id = "case";
  match_key = "ssh|l|ip|root";
  target = "SANDBOX";
  valid_from = 1000;
  valid_until = some 9000;
  version = 1;
  created_by = "ana";
}

abbrev steered_db : Db
steered_db = record empty_db { decisions = steered ∷ [] }

steered-IsDisjoint : IsDisjoint steered_db.decisions
steered-IsDisjoint = (tt, tt)

abbrev request : DecisionRequest
request = record {
  case_id = "case";
  match_key = "ssh|l|ip|root";
  protocol = "ssh";
  target = "ENDPOINT";
  created_by = "ana";
  valid_from = some 9000;
  valid_until = none;
}

abbrev resolved_db : Db
resolved_db = (resolve_route runtime "ssh|l|ip|root" "ssh" steered_db).1

route_runs : resolve_route runtime "ssh|l|ip|root" "ssh" steered_db ≡ (ok "SANDBOX", resolved_db)
unfolding resolve_route mirageby_ai.Routing.record_selection mirageby_ai.Database.generate_ulid
    mirageby_ai.Database.or_generated mirageby_ai.Database.emit
    mirageby_ai.Contracts.Envelope.validate_event
    mirageby_ai.Contracts.Versions.parse_schema_version
    mirageby_ai.Contracts.Subjects.subject_for_event_type
route_runs = refl

resolve_route_selects_example :
    IsSelected "ssh|l|ip|root" 5000 steered_db.decisions "SANDBOX"
    × (length resolved_db.outbox ≡ length steered_db.outbox + 1)
    × (resolved_db.decisions ≡ steered_db.decisions)
    × (resolved_db.cases ≡ steered_db.cases)
resolve_route_selects_example =
    resolve_route_selects runtime "ssh|l|ip|root" "ssh" "SANDBOX" steered_db resolved_db
      steered-IsDisjoint route_runs

write_routing_decision-IsDisjoint_example :
    IsDisjoint (write_routing_decision runtime request steered_db).1.decisions
write_routing_decision-IsDisjoint_example =
    write_routing_decision-IsDisjoint runtime request steered_db steered-IsDisjoint

abbrev cache : RouteCache
cache = record { ttl = 1000; entries = [] }
