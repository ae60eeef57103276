-- ===== src/Contracts/Envelope.antt =====
-- contracts/python/mirage_contracts/envelope.py: event and command envelopes and their validation.
-- The JSON Schema validators (jsonschema), SHA-256 and the text of a timestamp are parameters.
use mirageby_ai.Common.{
  ℕ, ◌*◌, String, ◌≡◌, Bool, true, false, not, List, [], ◌∷◌, Option, none, some, ◌==◌, ltb, any,
  str_eq, eq_iff, Option-cases, inl, inr, arith, if◌then◌else◌,
}
use mirageby_ai.Common.Exec.{Result, ok, err}
use mirageby_ai.Contracts.Text.{codes}
use mirageby_ai.Contracts.Json.{Json}
use mirageby_ai.Contracts.Versions.{parse_schema_version}

pub record Event : Type 0 where
  pub event_id : String
  pub event_type : String
  pub schema_version : String
  pub event_time : String
  pub ingest_time : String
  pub case_id : Option String
  pub session_id : Option String
  pub source_id : String
  pub sequence : ℕ
  pub actor_type : String
  pub sha256 : String
  pub classification : String
  pub payload : Json

pub record Command : Type 0 where
  pub command_id : String
  pub command_type : String
  pub schema_version : String
  pub case_id : String
  pub sandbox_id : String
  pub expected_state_version : ℕ
  pub issued_by : String
  pub policy_decision_id : String
  pub params : Json

-- The subclasses of ContractError that the two validators raise.
pub data ContractError : Type 0 where
  envelope_validation : ContractError
  payload_too_large : ℕ → ContractError
  integrity_mismatch : String → String → ContractError
  malformed_schema_version : String → ContractError
  unknown_type : String → ContractError
  unsupported_schema_version : String → String → ContractError
  payload_validation : String → ContractError

-- What the validators take from outside the repository's code.
pub record Runtime : Type 0 where
  -- the n-th call of the ulid package
  pub ulid : ℕ → String
  pub rfc3339 : ℕ → String
  pub sha256_hex : Json → String
  -- len(canonical_json_bytes(value))
  pub canonical_size : Json → ℕ
  pub event_is_wellformed : Event → Bool
  pub command_is_wellformed : Command → Bool
  -- the schema of a registered type and major version accepts the payload
  pub payload_conforms : String → ℕ → Json → Bool
  -- SchemaRegistry.supported_majors of the two registries
  pub event_majors : String → List ℕ
  pub command_majors : String → List ℕ

abbrev pub max_payload_bytes : ℕ
max_payload_bytes = 256 * 1024

pub record ValidatedEvent : Type 0 where
  pub envelope : Event
  pub major_version : ℕ

pub record ValidatedCommand : Type 0 where
  pub envelope : Command
  pub major_version : ℕ

-- `supported_majors if supported_majors is not None else registered_majors`
abbrev allowed_majors : Option (List ℕ) → List ℕ → List ℕ
allowed_majors none registered = registered
allowed_majors (some supported) registered = supported

abbrev is_empty : List ℕ → Bool
is_empty [] = true
is_empty (m ∷ ms) = false

module _ (r : Runtime) where
  event_payload : Event → Option (List ℕ) → Option (ℕ × ℕ) → Result ContractError ValidatedEvent
  event_payload e supported none = err (malformed_schema_version e.schema_version)
  event_payload e supported (some (major, minor)) =
      let registered = r.event_majors e.event_type in
      if is_empty registered
      then err (unknown_type e.event_type)
      else if not (any (λ m. m == major) (allowed_majors supported registered))
      then err (unsupported_schema_version e.event_type e.schema_version)
      else if not (r.payload_conforms e.event_type major e.payload)
      then err (payload_validation e.event_type)
      else ok (record { envelope = e; major_version = major })

  unfoldable pub validate_event : Event → Option (List ℕ) → Result ContractError ValidatedEvent
  unfolding event_payload
  validate_event e supported =
      if not (r.event_is_wellformed e)
      then err envelope_validation
      else if ltb max_payload_bytes (r.canonical_size e.payload)
      then err (payload_too_large (r.canonical_size e.payload))
      else if not (str_eq (r.sha256_hex e.payload) e.sha256)
      then err (integrity_mismatch e.sha256 (r.sha256_hex e.payload))
      else event_payload e supported (parse_schema_version (codes e.schema_version))

  command_params :
      Command → Option (List ℕ) → Option (ℕ × ℕ) → Result ContractError ValidatedCommand
  command_params c supported none = err (malformed_schema_version c.schema_version)
  command_params c supported (some (major, minor)) =
      let registered = r.command_majors c.command_type in
      if is_empty registered
      then err (unknown_type c.command_type)
      else if not (any (λ m. m == major) (allowed_majors supported registered))
      then err (unsupported_schema_version c.command_type c.schema_version)
      else if not (r.payload_conforms c.command_type major c.params)
      then err (payload_validation c.command_type)
      else ok (record { envelope = c; major_version = major })

  unfoldable pub validate_command :
      Command → Option (List ℕ) → Result ContractError ValidatedCommand
  unfolding command_params
  validate_command c supported =
      if not (r.command_is_wellformed c)
      then err envelope_validation
      else command_params c supported (parse_schema_version (codes c.schema_version))

  -- An accepted event is the event that was handed in: well formed, within the size limit, with
  -- the digest of its own payload, and of a registered type whose schema accepts the payload.
  pub validate_event_sound :
      (e : Event) (v : ValidatedEvent)
      → validate_event e none ≡ ok v
      → (v.envelope ≡ e)
        × (r.event_is_wellformed e ≡ true)
        × (ltb max_payload_bytes (r.canonical_size e.payload) ≡ false)
        × (r.sha256_hex e.payload ≡ e.sha256)
        × (any (λ m. m == v.major_version) (r.event_majors e.event_type) ≡ true)
        × (r.payload_conforms e.event_type v.major_version e.payload ≡ true)
  unfolding validate_event
  validate_event_sound e v h = elim (Option-cases (parse_schema_version (codes e.schema_version))) [
    | inl bad ↦ ground (arith, eq_iff (r.sha256_hex e.payload) e.sha256)
    | inr (m, good) ↦ ground (arith, eq_iff (r.sha256_hex e.payload) e.sha256)
  ]
