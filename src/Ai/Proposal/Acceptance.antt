-- ===== src/Ai/Proposal/Acceptance.antt =====
-- What validate_proposal accepts, against an account of the keys at every depth of the params.
use mirageby_ai.Common.{
  ℕ, ◌≤◌, ◌<◌, ◌≡◌, sym, ap, ◌∙◌, ◌↔◌, leb, String, Bool, true, false, ◌&&◌, some, [], ◌∷◌, inl,
  inr, any, length, arith, Bool-cases, Option-cases, leb→le, le→leb,
}
use mathlib.Core.Path.{subst}
use mirageby_ai.Common.Exec.{result_inj, ok, Result-cases}
use mirageby_ai.Contracts.Json.{Json, Fields, obj}
use mirageby_ai.Contracts.Ulid.{IsUlid}
use mirageby_ai.Ai.Utf8.{encode}
use mirageby_ai.Ai.Snapshot.{thousandths, is_member, action_types}
use mirageby_ai.Ai.Proposal.{
  Proposal, Libraries, ProposalError, Response, phases, dangerous_keys, is_identifier, has_length,
  is_unit, all_keys, is_dangerous, is_inert, is_valid, loaded, validate_proposal,
}
use mirageby_ai.Ai.Proposal.Commands.{search}
use mirageby_ai.Ai.Proposal.Pattern.{IsFreeOfCommands, search_sound, search_complete}
use mirageby_ai.Ai.Proposal.Conditions.{
  IsOneOf, IsDocument, IsFitting, IsOneOf-iff, none_of_iff, identifier_iff, IsFitting-iff, unit_iff,
  IsDocument-iff,
}
use mirageby_ai.Ai.Proposal.Keys.{InFields, in_fields, harmless_json, no_danger_fields}

-- A proposal that may be accepted from a response
pub record IsAcceptable (libs : Libraries) (r : Response) (now : ℕ) (p : Proposal) : Type 0 where
  pub source : Json
  pub document : IsDocument libs r source
  pub typed : libs.typed source ≡ some p
  pub identifiers : IsUlid p.proposal_id × IsUlid p.case_id × IsUlid p.snapshot_id
  pub phase_known :
      IsOneOf
        ("OBSERVE" ∷ "PROFILE" ∷ "ENGAGE" ∷ "DEEPEN" ∷ "VERIFY" ∷ "CONTAIN" ∷ "CONCLUDE" ∷ [])
        p.strategy_phase
  pub action_known :
      IsOneOf
        ("PLACE_ARTIFACT" ∷ "MOVE_ARTIFACT" ∷ "CREATE_DECOY_DIRECTORY" ∷ "CHANGE_VISIBLE_METADATA"
          ∷ "DISPLAY_MESSAGE" ∷ "ENABLE_DECOY_SERVICE" ∷ "DISABLE_DECOY_SERVICE"
          ∷ "REQUEST_SNAPSHOT" ∷ "ROLLBACK_ACTION" ∷ "CONCLUDE_SESSION" ∷ [])
        p.action_type
  pub harmless :
      (k : String)
      → InFields k p.params
      → IsOneOf
          ("command" ∷ "shell" ∷ "script" ∷ "executable" ∷ "executable_path" ∷ "argv"
            ∷ "environment" ∷ [])
          (libs.lower k)
      → ⊥
  pub params_fit : length (encode (libs.canonical (obj p.params))) ≤ 8192
  pub no_command : IsFreeOfCommands (libs.canonical (obj p.params))
  pub texts_fit :
      IsFitting 2048 p.rationale
      × IsFitting 1024 p.expected_effect
      × IsFitting 128 p.policy_reference
  pub confidence_fits : (n : ℕ) × (p.confidence ≡ thousandths n) × (n ≤ 1000)
  pub events_fit : length p.supporting_event_ids ≤ 8
  pub unexpired : now < p.expires_at

accepted_inv :
    (libs : Libraries) (r : Response) (now : ℕ) (p : Proposal)
    → validate_proposal libs r now ≡ ok p
    → (j : Json) × (loaded libs r ≡ ok j)
      × (libs.typed j ≡ some p)
      × (is_valid libs p ≡ true)
      × (now < p.expires_at)
unfolding validate_proposal
accepted_inv libs r now p h = elim (Result-cases (loaded libs r)) [
  | inr (e, raised) ↦ absurd (ground arith)
  | inl (j, loads) ↦ elim (Option-cases (libs.typed j)) [
    | inl n ↦ absurd (ground arith)
    | inr (q, typed) ↦ elim (Bool-cases (is_valid libs q)) [
      | inr bad ↦ absurd (ground arith)
      | inl good ↦ elim (Bool-cases (leb q.expires_at now)) [
        | inl late ↦ absurd (ground arith)
        | inr fresh ↦
            let same : q ≡ p = result_inj {E = ProposalError} q p (ground arith) in
            (
              j,
              loads,
              typed ∙ ap some same,
              ap (is_valid libs) (sym same) ∙ good,
              subst (λ x. now < x.expires_at) same (ground arith),
            )
      ]
    ]
  ]
]

is_inert_iff :
    (libs : Libraries) (fs : Fields)
    → (is_inert libs fs ≡ true) ↔ (
        (any is_dangerous (all_keys libs.lower (obj fs)) ≡ false)
        × (length (encode (libs.canonical (obj fs))) ≤ 8192)
        × (search (libs.canonical (obj fs)) ≡ false))
is_inert_iff libs fs = ground arith

conjuncts :
    (a b c d e f g i j k l : Bool)
    → (a && b && c && d && e && f && g && i && j && k && l ≡ true) ↔ (
        (a ≡ true)
        × (b ≡ true)
        × (c ≡ true)
        × (d ≡ true)
        × (e ≡ true)
        × (f ≡ true)
        × (g ≡ true)
        × (i ≡ true)
        × (j ≡ true)
        × (k ≡ true)
        × (l ≡ true))
conjuncts a b c d e f g i j k l = ground arith

-- The validators of the model, one by one
abbrev Valid : Libraries → Proposal → Type 0
Valid libs p =
    (IsUlid p.proposal_id × IsUlid p.case_id × IsUlid p.snapshot_id)
    × IsOneOf phases p.strategy_phase
    × IsOneOf action_types p.action_type
    × (is_inert libs p.params ≡ true)
    × (IsFitting 2048 p.rationale
        × IsFitting 1024 p.expected_effect
        × IsFitting 128 p.policy_reference)
    × ((n : ℕ) × (p.confidence ≡ thousandths n) × (n ≤ 1000))
    × (length p.supporting_event_ids ≤ 8)

is_valid_iff : (libs : Libraries) (p : Proposal) → (is_valid libs p ≡ true) ↔ Valid libs p
unfolding is_valid
is_valid_iff libs p =
    let whole =
      conjuncts (is_identifier p.proposal_id) (is_identifier p.case_id)
        (is_identifier p.snapshot_id) (is_member p.strategy_phase phases)
        (is_member p.action_type action_types) (is_inert libs p.params)
        (has_length 2048 p.rationale) (is_unit p.confidence) (leb (length p.supporting_event_ids) 8)
        (has_length 1024 p.expected_effect) (has_length 128 p.policy_reference) in
    let one = identifier_iff p.proposal_id in
    let two = identifier_iff p.case_id in
    let three = identifier_iff p.snapshot_id in
    let phase = IsOneOf-iff phases p.strategy_phase in
    let action = IsOneOf-iff action_types p.action_type in
    let rationale = IsFitting-iff 2048 p.rationale in
    let effect = IsFitting-iff 1024 p.expected_effect in
    let policy = IsFitting-iff 128 p.policy_reference in
    let confidence = unit_iff p.confidence in
    (
      λ h.
          let (a, b, c, d, e, f, g, i, j, k, l) = whole.0 h in
          (
            (one.0 a, two.0 b, three.0 c),
            phase.0 d,
            action.0 e,
            f,
            (rationale.0 g, effect.0 k, policy.0 l),
            confidence.0 i,
            leb→le (length p.supporting_event_ids) 8 j,
          ),
      λ ((a, b, c), d, e, f, (g, k, l), i, j). whole.1 (
        one.1 a,
        two.1 b,
        three.1 c,
        phase.1 d,
        action.1 e,
        f,
        rationale.1 g,
        confidence.1 i,
        le→leb (length p.supporting_event_ids) 8 j,
        effect.1 k,
        policy.1 l,
      ),
    )

accepts :
    (libs : Libraries) (r : Response) (now : ℕ) (p : Proposal) (j : Json)
    → loaded libs r ≡ ok j
    → libs.typed j ≡ some p
    → is_valid libs p ≡ true
    → now < p.expires_at
    → validate_proposal libs r now ≡ ok p
unfolding validate_proposal
accepts libs r now p j loads typed valid fresh = ground arith

-- A response is accepted as a proposal exactly when it is a document, or a text of at most 16384
-- characters that is read as one, with the fields of the proposal in their types and lengths and
-- ULIDs for identifiers; it names a known phase and a known action, has no forbidden key at any depth
-- of its params, whose canonical JSON text is of at most 8192 bytes and shows nowhere a shell's path,
-- powershell, or cmd with spaces and the switch /c, and has not expired. The canonical text is
-- searched as it is written, with its escapes.
pub validate_proposal_iff :
    (libs : Libraries) (r : Response) (now : ℕ) (p : Proposal)
    → (validate_proposal libs r now ≡ ok p) ↔ IsAcceptable libs r now p
validate_proposal_iff libs r now p = (
  λ h.
      let (j, loads, typed, valid, fresh) = accepted_inv libs r now p h in
      let (identifiers, phase, action, inert, texts, unit_, events) =
        (is_valid_iff libs p).0 valid in
      let (keys, fits, commands) = (is_inert_iff libs p.params).0 inert in
      record {
        source = j;
        document = (IsDocument-iff libs r j).0 loads;
        typed = typed;
        identifiers = identifiers;
        phase_known = phase;
        action_known = action;
        harmless = λ k i.
            (none_of_iff dangerous_keys (libs.lower k)).0
              (harmless_json libs.lower k (obj p.params) keys (in_fields p.params i));
        params_fit = fits;
        no_command = λ a b e. search_sound (libs.canonical (obj p.params)) a b commands e;
        texts_fit = texts;
        confidence_fits = unit_;
        events_fit = events;
        unexpired = fresh;
      },
  λ k.
      let keys : any is_dangerous (all_keys libs.lower (obj p.params)) ≡ false =
        unfold all_keys in
        no_danger_fields libs.lower p.params
          λ i at_. (none_of_iff dangerous_keys (libs.lower i)).1 (k.harmless i at_) in
      let inert =
        (is_inert_iff libs p.params).1
          (keys, k.params_fit, search_complete (libs.canonical (obj p.params)) k.no_command) in
      accepts libs r now p k.source ((IsDocument-iff libs r k.source).1 k.document) k.typed
        ((is_valid_iff libs p).1 (
          k.identifiers, k.phase_known, k.action_known, inert, k.texts_fit, k.confidence_fits,
          k.events_fit,
        ))
        k.unexpired,
)
