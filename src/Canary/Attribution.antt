-- ===== src/Canary/Attribution.antt =====
-- When a callback is attributed to an outside address, which forwarding headers count, and the
-- signature of callbacks and the issue of tokens.
use mirageby_ai.Common.{
  ℕ, ◌≡◌, refl, sym, ap, ◌∙◌, ◌↔◌, String, Bool, true, false, ◌&&◌, ◌||◌, Option, none, some, List,
  [], ◌∷◌, ◌++◌, ◌⊎◌, inl, inr, arith, Bool-cases, Option-cases, any, select, str_eq, eq_refl,
  eq_iff, some_inj, ◌≢◌, ◌<◌,
}
use mirageby_ai.Common.Exec.{Result, ok}
use mirageby_ai.Contracts.Json.{Json}
use mirageby_ai.Canary.{
  Address, InfrastructureSource, contains, matches_at, matching_sources, Parser,
  resolve_callback_source, external, CallbackClassification, classify_address, classify_callback,
  externally, sign_callback_event, verify_callback_signature, SignedCallback,
}
use mirageby_ai.Canary.Tokens.{TokenRequest, CanaryToken, issue_canary_token, owned_by, token_of}

select_none :
    {A : Type 0} (p r : A → Bool) (xs : List A)
    → ((x : A) → p x ≡ true → r x ≡ true)
    → any r xs ≡ false
    → select p xs ≡ []
select_none p r [] implied h = refl
select_none p r (x ∷ xs) implied h = ground (arith, implied x, select_none p r xs implied)

classify_address_external :
    (a : Address) (at : ℕ) (sources : List InfrastructureSource) (conflict : Bool)
    → (classify_address a at sources conflict).classification ≡ external
    → (conflict ≡ false)
      × (any (contains a) sources ≡ false)
      × ((classify_address a at sources conflict).network_indicator ≡ some a)
unfolding classify_address
classify_address_external a at sources conflict h = elim (Bool-cases (any (contains a) sources)) [
  | inl known ↦ absurd (ground arith)
  | inr outside ↦ (ground arith, outside, ground arith)
]

classify_address_outside :
    (a : Address) (at : ℕ) (sources : List InfrastructureSource)
    → any (contains a) sources ≡ false
    → classify_address a at sources false ≡ externally a
unfolding classify_address matching_sources
classify_address_outside a at sources outside =
    let none_found : matching_sources a at sources ≡ [] =
      select_none (matches_at a at) (contains a) sources (λ x h. ground arith) outside in
    rw (none_found, classify_address) (ground arith)

classify_address_indicator :
    (a b : Address) (at : ℕ) (sources : List InfrastructureSource) (conflict : Bool)
    → (classify_address a at sources conflict).network_indicator ≡ some b
    → ((classify_address a at sources conflict).classification ≡ external) × (a ≡ b)
unfolding classify_address
classify_address_indicator a b at sources conflict h = (ground arith, ground arith)

-- What stands behind an attribution
pub record IsOutside (ip : Parser) (source_ip : String) (sources : List InfrastructureSource)
    (conflict : Bool) : Type 0 where
  pub address : Address
  pub is_address : ip source_ip ≡ some address
  pub undisputed : conflict ≡ false
  pub never_known : any (contains address) sources ≡ false

-- A callback is classified as EXTERNAL exactly when its source is an address, its forwarding is free
-- of conflict, and no known source contains the address, whether or not it is valid at the time of
-- the callback; and whenever there is a network indicator, it is that address of an EXTERNAL one.
pub classify_callback_external_iff :
    (ip : Parser) (source_ip : String) (at : ℕ) (sources : List InfrastructureSource)
    (conflict : Bool)
    → let c = classify_callback ip source_ip at sources conflict in
      ((c.classification ≡ external) ↔ IsOutside ip source_ip sources conflict)
      × ((a : Address)
          → c.network_indicator ≡ some a
          → (c.classification ≡ external) × (ip source_ip ≡ some a))
unfolding classify_callback
classify_callback_external_iff ip source_ip at sources conflict =
    elim (Option-cases (ip source_ip)) [
      | inl e ↦ (
        (λ h. absurd (ground arith), λ o. let known = o.is_address in absurd (ground arith)),
        λ a h. absurd (ground arith),
      )
      | inr (a, e) ↦
          let same : classify_callback ip source_ip at sources conflict
              ≡ classify_address a at sources conflict =
            ground arith in
          (
            (
              λ h.
                  let sound =
                    classify_address_external a at sources conflict
                      (sym (ap (λ (c : CallbackClassification). c.classification) same) ∙ h) in
                  record {
                    address = a;
                    is_address = e;
                    undisputed = sound.0;
                    never_known = sound.1;
                  },
              λ o.
                  let own : a ≡ o.address = some_inj a o.address (sym e ∙ o.is_address) in
                  let outside : any (contains a) sources ≡ false =
                    ap (λ x. any (contains x) sources) own ∙ o.never_known in
                  ap (λ (c : CallbackClassification). c.classification)
                    (same
                      ∙ ap (classify_address a at sources) o.undisputed
                      ∙ classify_address_outside a at sources outside),
            ),
            λ b h.
                let found =
                  classify_address_indicator a b at sources conflict
                    (sym (ap (λ (c : CallbackClassification). c.network_indicator) same) ∙ h) in
                (
                  ap (λ (c : CallbackClassification). c.classification) same ∙ found.0,
                  e ∙ ap some found.1,
                ),
          )
    ]

untrusted :
    (peer : Address) (at : ℕ) (sources : List InfrastructureSource)
    → any (λ s. matches_at peer at s && s.trusted_proxy) sources ≡ false
    → any (λ s. s.trusted_proxy) (matching_sources peer at sources) ≡ false
unfolding matching_sources
untrusted peer at [] h = refl
untrusted peer at (s ∷ sources) h = ground (arith, untrusted peer at sources)

-- When no source that contains the peer at the time of the callback is a trusted proxy, the
-- forwarding header is ignored: the source is the peer, without a conflict.
pub resolve_callback_source_untrusted :
    (ip : Parser) (peer : Address) (header : Option (List String)) (at : ℕ)
    (sources : List InfrastructureSource)
    → any (λ s. matches_at peer at s && s.trusted_proxy) sources ≡ false
    → resolve_callback_source ip peer header at sources ≡ (peer, false)
unfolding resolve_callback_source
resolve_callback_source_untrusted ip peer none at sources h = refl
resolve_callback_source_untrusted ip peer (some tokens) at sources h =
    let none_trusted : any (λ s. s.trusted_proxy) (matching_sources peer at sources) ≡ false =
      untrusted peer at sources h in
    ground arith

-- A signed callback verifies under its key; under another key or with another payload, where the
-- MAC differs, it does not.
pub verify-sign :
    (hmac : String → String → String) (canonical : Json → String) (payload : Json) (key : String)
    → (verify_callback_signature hmac canonical (sign_callback_event hmac canonical payload key) key
        ≡ true)
      × ((e : SignedCallback) (other : String)
          → e.signature ≡ (sign_callback_event hmac canonical payload key).signature
          → hmac other (canonical e.payload) ≢ hmac key (canonical payload)
          → verify_callback_signature hmac canonical e other ≡ false)
unfolding verify_callback_signature sign_callback_event
verify-sign hmac canonical payload key = (
  eq_refl (hmac key (canonical payload)),
  λ e other same differs.
      elim (Bool-cases (str_eq (hmac other (canonical e.payload)) e.signature)) [
        | inl hit ↦
            absurd (differs ((eq_iff (hmac other (canonical e.payload)) e.signature).0 hit ∙ same))
        | inr miss ↦ miss
      ],
)

tokens_inj :
    (a b : List CanaryToken)
    → let x : Result String (List CanaryToken) = ok a in
      let y : Result String (List CanaryToken) = ok b in x ≡ y → a ≡ b
tokens_inj a b h = cc

-- A token is issued exactly when its usage is known, it expires later than now and the artifact is
-- free or of the case; it is then the one new row, active, with the hash of its public text.
pub issue_canary_token_iff :
    (sha256 : String → String) (r : TokenRequest) (artifacts : List (String × Option String))
    (tokens after : List CanaryToken)
    → (issue_canary_token sha256 r artifacts tokens ≡ ok after) ↔ (
        ((r.expected_usage ≡ "ONE_TIME") ⊎ (r.expected_usage ≡ "REUSABLE"))
        × (r.now < r.expires_at)
        × (any (owned_by r.artifact_id r.case_id) artifacts ≡ true)
        × (after ≡ tokens ++ token_of sha256 r ∷ []))
unfolding issue_canary_token
issue_canary_token_iff sha256 r artifacts tokens after =
    let once = eq_iff r.expected_usage "ONE_TIME" in
    let again = eq_iff r.expected_usage "REUSABLE" in
    let row = tokens ++ token_of sha256 r ∷ [] in
    (
      λ h. (
        elim (Bool-cases (str_eq r.expected_usage "ONE_TIME")) [
          | inl e ↦ inl (once.0 e)
          | inr e ↦ inr (again.0 (ground arith))
        ],
        ground arith,
        ground arith,
        sym (tokens_inj row after (ground arith)),
      ),
      λ p.
          let usage : str_eq r.expected_usage "ONE_TIME" || str_eq r.expected_usage "REUSABLE"
              ≡ true =
            elim p.0 [ inl e ↦ ground (arith, once.1 e) | inr e ↦ ground (arith, again.1 e) ] in
          let issued : issue_canary_token sha256 r artifacts tokens ≡ ok row =
            ground (arith, p.1, p.2) in
          issued ∙ ap ok (sym p.3),
    )
