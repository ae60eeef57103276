-- ===== src/Ai/Snapshot.antt =====
-- libs/mirage_common/ai.py: the snapshot of a case that a provider is shown, curated and trimmed
-- to its size. The dicts of the callers are records with the keys that are read; a missing summary
-- or objective is the empty text. Hashing and the JSON text are parameters.
pub mod Tests
pub mod Objects
pub mod Segments
pub mod Assembly
pub mod Trimming
pub mod Bounds
pub mod Curation
use Prim.Native.String.{compare}
use Prim.Native.Nat.{Ordering}
use mirageby_ai.Common.{
  ℕ, zero, suc, ◌+◌, ◌*◌, ◌/◌, ltb, String, Bool, true, false, not, ◌||◌, Option, none, some, List,
  [], ◌∷◌, ◌++◌, map, any, select, length, take, take_last, min, str_eq, if◌then◌else◌,
}
use mirageby_ai.Common.Exec.{Result, ok, err}
use mirageby_ai.Contracts.Json.{Json}
use mirageby_ai.Ai.Utf8.{Text, truncate_utf8}

abbrev pub max_snapshot_bytes : ℕ
max_snapshot_bytes = 16 * 1024

abbrev pub max_estimated_tokens : ℕ
max_estimated_tokens = 4000

abbrev pub action_types : List String
action_types =
    "PLACE_ARTIFACT" ∷ "MOVE_ARTIFACT" ∷ "CREATE_DECOY_DIRECTORY" ∷ "CHANGE_VISIBLE_METADATA"
    ∷ "DISPLAY_MESSAGE" ∷ "ENABLE_DECOY_SERVICE" ∷ "DISABLE_DECOY_SERVICE" ∷ "REQUEST_SNAPSHOT"
    ∷ "ROLLBACK_ACTION" ∷ "CONCLUDE_SESSION" ∷ []

abbrev pub case_states : List String
case_states =
    "CREATED" ∷ "ARMED" ∷ "MONITORING" ∷ "STEERING_PENDING" ∷ "SANDBOX_ACTIVE" ∷ "ENGAGING"
    ∷ "CONCLUDING" ∷ "EVIDENCE_VERIFYING" ∷ "EXPORTED" ∷ "DESTROYED" ∷ []

abbrev pub is_member : String → List String → Bool
is_member x xs = any (λ y. str_eq y x) xs

-- A confidence in thousandths
pub data Confidence : Type 0 where
  negative : Confidence
  thousandths : ℕ → Confidence

pub record SkillProfile : Type 0 where
  pub band : Option String
  pub confidence : Option Confidence
  pub supporting_event_ids : List String
  pub contradictory_event_ids : List String
  pub uncertainties : List String

pub record Profile : Type 0 where
  pub band : String
  pub confidence : ℕ
  pub supporting_event_ids : List String
  pub contradictory_event_ids : List String
  pub uncertainties : List String
  pub profile_version : ℕ

pub record Event : Type 0 where
  pub event_id : String
  pub event_time : String
  pub summary : Text

pub record DirectiveItem : Type 0 where
  pub directive_id : String
  pub objective : Text
  pub status : Option String
  pub created_at : Option String

pub record Directive : Type 0 where
  pub directive_id : String
  pub objective : Text
  pub status : String
  pub created_at : Option String

-- Of the untrusted content the texts; each stands beside the same tag.
pub record Snapshot : Type 0 where
  pub case_state : String
  pub objective : Text
  pub recent_events : List Event
  pub behaviour_summary : Text
  pub skill_profile : Profile
  pub sandbox_state : List (String × Json)
  pub available_artifacts : List Json
  pub allowed_actions : List String
  pub analyst_directives : List Directive
  pub previous_actions : List Json
  pub untrusted_intruder_content : List Text

-- What assemble_snapshot is given
pub record Material : Type 0 where
  pub case_state : String
  pub objective : Text
  pub recent_events : List Event
  pub behaviour_summary : Text
  pub skill_profile : SkillProfile
  pub sandbox_state : List (String × Json)
  pub available_artifacts : List Json
  pub allowed_actions : List String
  pub analyst_directives : List DirectiveItem
  pub previous_actions : List Json
  pub untrusted_intruder_content : List Text
  pub source_profile_version : ℕ

-- json.loads(json.dumps(..)) of an object, canonical_json_bytes, sha256 and the ULID package
pub record Libraries : Type 0 where
  pub reread : List (String × Json) → List (String × Json)
  pub object_bytes : List (String × Json) → List ℕ
  pub snapshot_bytes : Snapshot → List ℕ
  pub sha256 : List ℕ → String
  pub ulid : String

pub data SnapshotError : Type 0 where
  invalid_case_state invalid_actions object_too_large protected_too_large : SnapshotError

abbrev pub precedes : String → String → Bool
precedes a b = elim (compare a b) [ Ordering.lt ↦ true | _ ↦ false ]

-- sorted(bounded)[-1], given the greatest key so far
abbrev pub greatest_key : String → List (String × Json) → String
greatest_key k [] = k
greatest_key k ((j, v) ∷ rest) = greatest_key (if precedes k j then j else k) rest

-- bounded.pop(sorted(bounded)[-1])
abbrev pub pop_greatest : String × Json → List (String × Json) → List (String × Json)
pop_greatest e rest = let k = greatest_key e.0 rest in select (λ x. not (str_eq x.0 k)) (e ∷ rest)

-- The loop of `_bounded_json_object`, on fuel
pub bounded_rounds :
    ℕ → Libraries → ℕ → List (String × Json) → Result SnapshotError (List (String × Json))
bounded_rounds zero libs max_bytes o = err object_too_large
bounded_rounds (suc fuel) libs max_bytes o = elim (ltb max_bytes (length (libs.object_bytes o))) [
  | false ↦ ok o
  | true ↦ elim o [
    | [] ↦ err object_too_large
    | (e ∷ rest) ↦ bounded_rounds fuel libs max_bytes (pop_greatest e rest)
  ]
]

pub bounded_json_object :
    Libraries → List (String × Json) → ℕ → Result SnapshotError (List (String × Json))
bounded_json_object libs value max_bytes =
    let o = libs.reread value in bounded_rounds (suc (length o)) libs max_bytes o

-- sorted(set(..))
pub insert_once : String → List String → List String
insert_once x [] = x ∷ []
insert_once x (y ∷ ys) =
    let later = insert_once x ys in
    elim (compare x y) [ Ordering.lt ↦ x ∷ y ∷ ys | Ordering.eq ↦ y ∷ ys | Ordering.gt ↦ y ∷ later ]

pub sorted_set : List String → List String
sorted_set [] = []
sorted_set (x ∷ xs) = insert_once x (sorted_set xs)

-- max(0.0, min(confidence, 1.0)), with 0.0 for a missing one
abbrev pub clamped : Option Confidence → ℕ
clamped none = 0
clamped (some negative) = 0
clamped (some (thousandths n)) = min n 1000

abbrev or_text : Option String → String → String
or_text none d = d
or_text (some s) d = s

abbrev pub profile_of : SkillProfile → ℕ → Profile
profile_of p version = record {
  band = or_text p.band "UNKNOWN";
  confidence = clamped p.confidence;
  supporting_event_ids = take 8 p.supporting_event_ids;
  contradictory_event_ids = take 8 p.contradictory_event_ids;
  uncertainties = take 8 p.uncertainties;
  profile_version = version;
}

abbrev pub shown_event : Event → Event
shown_event e = record e { summary = truncate_utf8 e.summary 256 }

abbrev pub shown_directive : DirectiveItem → Directive
shown_directive d = record {
  directive_id = d.directive_id;
  objective = truncate_utf8 d.objective 512;
  status = or_text d.status "SUBMITTED";
  created_at = d.created_at;
}

-- The snapshot before it is trimmed
abbrev pub draft_of : Material → List (String × Json) → Snapshot
draft_of m sandbox = record {
  case_state = m.case_state;
  objective = truncate_utf8 m.objective 512;
  recent_events = map shown_event (take_last 50 m.recent_events);
  behaviour_summary = truncate_utf8 m.behaviour_summary 2048;
  skill_profile = profile_of m.skill_profile m.source_profile_version;
  sandbox_state = sandbox;
  available_artifacts = take 20 m.available_artifacts;
  allowed_actions = sorted_set m.allowed_actions;
  analyst_directives = map shown_directive (take_last 5 m.analyst_directives);
  previous_actions = take_last 10 m.previous_actions;
  untrusted_intruder_content =
      map (λ s. truncate_utf8 s 1024) (take_last 10 m.untrusted_intruder_content);
}

abbrev pub is_empty : List String → Bool
is_empty [] = true
is_empty (x ∷ xs) = false

pub curate : Libraries → Material → Result SnapshotError Snapshot
curate libs m =
    if not (is_member m.case_state case_states)
    then err invalid_case_state
    else if is_empty m.allowed_actions
        || any (λ a. not (is_member a action_types)) m.allowed_actions
    then err invalid_actions
    else elim (bounded_json_object libs m.sandbox_state 4096) [
      | err e ↦ err e
      | ok sandbox ↦ ok (draft_of m sandbox)
    ]
