-- ===== src/Ai/Snapshot/Assembly.antt =====
-- libs/mirage_common/ai.py: the loop of assemble_snapshot that trims a snapshot to its bounds, and
-- the result.
use mirageby_ai.Common.{
  ℕ, zero, suc, ◌+◌, ◌/◌, ltb, String, Bool, true, false, not, ◌||◌, Option, none, some, List, [],
  ◌∷◌, ◌++◌, map, any, length, if◌then◌else◌,
}
use mirageby_ai.Common.Exec.{Result, ok, err}
use mirageby_ai.Ai.Snapshot.{
  Directive, Snapshot, Material, Libraries, SnapshotError, protected_too_large, max_snapshot_bytes,
  max_estimated_tokens, is_member, sorted_set, curate, Event,
}

-- The names of the lists that are trimmed
pub data Field : Type 0 where
  untrusted_intruder_content available_artifacts previous_actions : Field
  analyst_directives recent_events : Field

abbrev pub same_field : Field → Field → Bool
same_field untrusted_intruder_content untrusted_intruder_content = true
same_field available_artifacts available_artifacts = true
same_field previous_actions previous_actions = true
same_field analyst_directives analyst_directives = true
same_field recent_events recent_events = true
same_field f g = false

-- estimate_tokens, of the size in bytes
abbrev pub estimate_tokens : ℕ → ℕ
estimate_tokens size = (size + 3) / 4

abbrev pub over_limit : Libraries → Snapshot → Bool
over_limit libs s =
    let size = length (libs.snapshot_bytes s) in
    ltb max_snapshot_bytes size || ltb max_estimated_tokens (estimate_tokens size)

abbrev pub is_active : Directive → Bool
is_active d = is_member d.status ("SUBMITTED" ∷ "ACKNOWLEDGED" ∷ "QUEUED" ∷ [])

-- list.pop()
abbrev pub pop_last {ℓ} : {A : Type ℓ} → A → List A → List A
pop_last x [] = []
pop_last x (y ∷ ys) = x ∷ pop_last y ys

-- The directives without the first that is not active, where there is one
unfoldable pub pop_inactive : List Directive → Option (List Directive)
pop_inactive [] = none
pop_inactive (d ∷ ds) =
    let later = pop_inactive ds in
    if not (is_active d) then some ds else elim later [ none ↦ none | some rest ↦ some (d ∷ rest) ]

-- The field that one round pops from, and what it leaves; none where only protected fields are left
abbrev pub trim_events : Snapshot → Option (Field × Snapshot)
trim_events s = elim s.recent_events [
  | [] ↦ none
  | (e ∷ es) ↦ some (recent_events, record s { recent_events = es })
]

abbrev pub trim_directives : Snapshot → Option (Field × Snapshot)
trim_directives s = elim (pop_inactive s.analyst_directives) [
  | none ↦ trim_events s
  | some ds ↦ some (analyst_directives, record s { analyst_directives = ds })
]

abbrev pub trim_actions : Snapshot → Option (Field × Snapshot)
trim_actions s = elim s.previous_actions [
  | [] ↦ trim_directives s
  | (a ∷ as_) ↦ some (previous_actions, record s { previous_actions = as_ })
]

abbrev pub trim_artifacts : Snapshot → Option (Field × Snapshot)
trim_artifacts s = elim s.available_artifacts [
  | [] ↦ trim_actions s
  | (a ∷ as_) ↦ some (available_artifacts, record s { available_artifacts = pop_last a as_ })
]

unfoldable pub trim_step : Snapshot → Option (Field × Snapshot)
trim_step s = elim s.untrusted_intruder_content [
  | [] ↦ trim_artifacts s
  | (t ∷ ts) ↦ some (untrusted_intruder_content, record s { untrusted_intruder_content = ts })
]

abbrev pub noted : Field → List Field → List Field
noted f fs = if any (same_field f) fs then fs else fs ++ f ∷ []

-- The loop, on fuel
unfoldable pub trim :
    ℕ → Libraries → Snapshot → List Field → Option (Result SnapshotError (Snapshot × List Field))
trim zero libs s fs = none
trim (suc fuel) libs s fs = elim (over_limit libs s) [
  | false ↦ some (ok (s, fs))
  | true ↦ elim (trim_step s) [
    | none ↦ some (err protected_too_large)
    | some (f, t) ↦ trim fuel libs t (noted f fs)
  ]
]

-- The elements that a round could pop
abbrev pub removable : Snapshot → ℕ
removable s =
    length s.untrusted_intruder_content
    + length s.available_artifacts
    + length s.previous_actions
    + length s.analyst_directives
    + length s.recent_events

pub record SnapshotResult : Type 0 where
  pub snapshot_id : String
  pub snapshot : Snapshot
  pub snapshot_hash : String
  pub snapshot_size_bytes : ℕ
  pub estimated_tokens : ℕ
  pub trimmed : Bool
  pub trimmed_fields : List Field
  pub source_event_ids : List String
  pub source_profile_version : ℕ

abbrev pub is_some_field : List Field → Bool
is_some_field [] = false
is_some_field (f ∷ fs) = true

abbrev pub result_of : Libraries → Material → Snapshot → List Field → SnapshotResult
result_of libs m s fs =
    let canonical = libs.snapshot_bytes s in
    record {
      snapshot_id = libs.ulid;
      snapshot = s;
      snapshot_hash = libs.sha256 canonical;
      snapshot_size_bytes = length canonical;
      estimated_tokens = estimate_tokens (length canonical);
      trimmed = is_some_field fs;
      trimmed_fields = fs;
      source_event_ids = sorted_set (
          map (λ (e : Event). e.event_id) s.recent_events
          ++ (s.skill_profile.supporting_event_ids ++ s.skill_profile.contradictory_event_ids));
      source_profile_version = m.source_profile_version;
    }

abbrev pub assembled :
    Libraries
    → Material
    → Result SnapshotError (Snapshot × List Field)
    → Result SnapshotError SnapshotResult
assembled libs m (err e) = err e
assembled libs m (ok (s, fs)) = ok (result_of libs m s fs)

-- assemble_snapshot; none stands for a loop that the fuel does not suffice for.
unfoldable pub assemble_snapshot :
    Libraries → Material → Option (Result SnapshotError SnapshotResult)
assemble_snapshot libs m = elim (curate libs m) [
  | err e ↦ some (err e)
  | ok draft ↦ elim (trim (suc (removable draft)) libs draft []) [
    | none ↦ none
    | some r ↦ some (assembled libs m r)
  ]
]
