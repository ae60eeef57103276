-- ===== src/Ai/Proposal.antt =====
-- libs/mirage_common/ai.py: the model Proposal with its validators, and validate_proposal. Reading
-- JSON and the types of the fields are pydantic's and json's, and the JSON text and str.lower are
-- parameters. An expires_at without a time zone, for which the comparison raises, is left out.
pub mod Tests
pub mod Keys
pub mod Commands
pub mod Pattern
pub mod Conditions
pub mod Acceptance
use mirageby_ai.Common.{
  ℕ, ◌*◌, ltb, leb, ◌==◌, String, Bool, true, false, not, ◌&&◌, ◌||◌, Option, none, some, List, [],
  ◌∷◌, ◌++◌, any, length, if◌then◌else◌,
}
use mirageby_ai.Common.Exec.{Result, ok, err}
use mirageby_ai.Contracts.Json.{
  Json, Items, Fields, null, flag, num, ratio, text, arr, obj, nil, cons, end, entry,
}
use mirageby_ai.Contracts.Ulid.{is_crockford}
use mirageby_ai.Ai.Utf8.{Text, encode}
use mirageby_ai.Ai.Snapshot.{Confidence, negative, thousandths, is_member, action_types}
use mirageby_ai.Ai.Proposal.Commands.{search}

abbrev pub phases : List String
phases = "OBSERVE" ∷ "PROFILE" ∷ "ENGAGE" ∷ "DEEPEN" ∷ "VERIFY" ∷ "CONTAIN" ∷ "CONCLUDE" ∷ []

abbrev pub dangerous_keys : List String
dangerous_keys =
    "command" ∷ "shell" ∷ "script" ∷ "executable" ∷ "executable_path" ∷ "argv" ∷ "environment" ∷ []

-- The fields in their types; params is an object.
pub record Proposal : Type 0 where
  pub proposal_id : Text
  pub case_id : Text
  pub snapshot_id : Text
  pub strategy_phase : String
  pub action_type : String
  pub params : Fields
  pub rationale : Text
  pub confidence : Confidence
  pub supporting_event_ids : List String
  pub expected_effect : Text
  pub rollback_required : Bool
  pub policy_reference : Text
  pub expires_at : ℕ

-- json.loads, the fields of the model in their types with no other field and the version "1.0",
-- the text of canonical_json_bytes and str.lower
pub record Libraries : Type 0 where
  pub loads : Text → Option Json
  pub typed : Json → Option Proposal
  pub canonical : Json → Text
  pub lower : String → String

pub data ProposalError : Type 0 where
  response_too_large not_json invalid_proposal expired : ProposalError

-- The pattern of the identifiers; the `$` of pydantic's patterns is the end of the text.
abbrev pub is_identifier : Text → Bool
is_identifier [] = false
is_identifier (c ∷ s) =
    leb b'0' c && leb c b'7' && (length s == 25) && not (any (λ d. not (is_crockford d)) s)

abbrev pub has_length : ℕ → Text → Bool
has_length max s = not (length s == 0) && leb (length s) max

abbrev pub is_unit : Confidence → Bool
is_unit negative = false
is_unit (thousandths n) = leb n 1000

-- all_keys of reject_executable_content
unfoldable mutual
  pub all_keys : (String → String) → Json → List String
  all_keys lower null = []
  all_keys lower (flag b) = []
  all_keys lower (num n) = []
  all_keys lower (ratio n d) = []
  all_keys lower (text s) = []
  all_keys lower (arr xs) = item_keys lower xs
  all_keys lower (obj fs) = field_keys lower fs

  pub item_keys : (String → String) → Items → List String
  item_keys lower nil = []
  item_keys lower (cons j rest) = all_keys lower j ++ item_keys lower rest

  pub field_keys : (String → String) → Fields → List String
  field_keys lower end = []
  field_keys lower (entry k j rest) = lower k ∷ (all_keys lower j ++ field_keys lower rest)

abbrev pub is_dangerous : String → Bool
is_dangerous k = is_member k dangerous_keys

-- reject_executable_content: whether the params are let through
abbrev pub is_inert : Libraries → Fields → Bool
is_inert libs params =
    let encoded = libs.canonical (obj params) in
    not (any is_dangerous (all_keys libs.lower (obj params)))
    && leb (length (encode encoded)) 8192
    && not (search encoded)

-- The constraints and validators of the model
unfoldable pub is_valid : Libraries → Proposal → Bool
is_valid libs p =
    is_identifier p.proposal_id
    && is_identifier p.case_id
    && is_identifier p.snapshot_id
    && is_member p.strategy_phase phases
    && is_member p.action_type action_types
    && is_inert libs p.params
    && has_length 2048 p.rationale
    && is_unit p.confidence
    && leb (length p.supporting_event_ids) 8
    && has_length 1024 p.expected_effect
    && has_length 128 p.policy_reference

-- A response is a text, of which len is taken, or a dict.
pub data Response : Type 0 where
  raw : Text → Response
  read : Json → Response

abbrev pub loaded : Libraries → Response → Result ProposalError Json
loaded libs (read j) = ok j
loaded libs (raw s) =
    if ltb (16 * 1024) (length s)
    then err response_too_large
    else elim (libs.loads s) [ none ↦ err not_json | some j ↦ ok j ]

abbrev pub model_validate : Libraries → Json → Option Proposal
model_validate libs j = elim (libs.typed j) [
  | none ↦ none
  | some p ↦ if is_valid libs p then some p else none
]

unfoldable pub validate_proposal : Libraries → Response → ℕ → Result ProposalError Proposal
validate_proposal libs r now = elim (loaded libs r) [
  | err e ↦ err e
  | ok j ↦ elim (model_validate libs j) [
    | none ↦ err invalid_proposal
    | some p ↦ if leb p.expires_at now then err expired else ok p
  ]
]
