-- ===== src/Canary/Tests.antt =====
-- The properties of canary callbacks at concrete inputs.
use mirageby_ai.Common.{
  ◌≡◌, refl, ◌↔◌, String, true, false, none, some, [], ◌∷◌, str_eq, if◌then◌else◌,
}
use mirageby_ai.Common.Exec.{ok}
use mirageby_ai.Contracts.Json.{Json}
use mirageby_ai.Canary.{
  Address, v4, InfrastructureSource, Parser, resolve_callback_source, classify_callback,
  classify_address, external, matching_sources, verify_callback_signature, sign_callback_event,
}
use mirageby_ai.Canary.Tokens.{TokenRequest, token_of, issue_canary_token}
use mirageby_ai.Canary.Attribution.{IsOutside, classify_callback_external_iff}

abbrev parser : Parser
parser s = if str_eq s "10.0.0.9" then some (v4 167772169) else some (v4 7)

-- 10.0.0.0/24, valid until 100
abbrev bastion : InfrastructureSource
bastion = record {
  source_id = "s";
  network = record { base = v4 167772160; host_bits = 8 };
  category = "SSH_BASTION";
  valid_from = 0;
  valid_until = some 100;
  confidence = 90;
  trusted_proxy = false;
}

-- An address of a source that has expired is not attributed.
stale_run : (classify_callback parser "10.0.0.9" 200 (bastion ∷ []) false).network_indicator ≡ none
unfolding classify_callback classify_address matching_sources
stale_run = refl

classify_callback_external_iff_example :
    let c = classify_callback parser "8.8.8.8" 5 (bastion ∷ []) false in
    ((c.classification ≡ external) ↔ IsOutside parser "8.8.8.8" (bastion ∷ []) false)
    × ((a : Address)
        → c.network_indicator ≡ some a
        → (c.classification ≡ external) × (parser "8.8.8.8" ≡ some a))
classify_callback_external_iff_example =
    classify_callback_external_iff parser "8.8.8.8" 5 (bastion ∷ []) false

abbrev mac : String → String → String
mac key body = key

abbrev canonical : Json → String
canonical j = "body"

abbrev request : TokenRequest
request = record {
  token_id = "t";
  public_token = "p";
  case_id = "c";
  artifact_id = "a";
  now = 5;
  expires_at = 9;
  expected_usage = "ONE_TIME";
  signing_version = "1";
}

abbrev hash : String → String
hash s = s

-- A signature under another key is refused.
signed_run :
    verify_callback_signature mac canonical (sign_callback_event mac canonical Json.null "k") "k"
    ≡ true
unfolding verify_callback_signature sign_callback_event
signed_run = refl

forged_run :
    verify_callback_signature mac canonical (sign_callback_event mac canonical Json.null "k") "l"
    ≡ false
unfolding verify_callback_signature sign_callback_event
forged_run = refl

issued_run : issue_canary_token hash request (("a", none) ∷ []) [] ≡ ok (token_of hash request ∷ [])
unfolding issue_canary_token
issued_run = refl

-- A header of a peer that is no trusted proxy is ignored.
untrusted_run :
    resolve_callback_source parser (v4 167772169) (some ("8.8.8.8" ∷ [])) 5 (bastion ∷ [])
    ≡ (v4 167772169, false)
unfolding resolve_callback_source matching_sources
untrusted_run = refl
