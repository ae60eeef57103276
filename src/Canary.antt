-- ===== src/Canary.antt =====
-- libs/mirage_common/canary.py: the source of a callback behind proxies, its classification and its
-- signature; the tokens are in Tokens.
pub mod Tokens
pub mod Attribution
pub mod Tests
use mirageby_ai.Common.{
  ℕ, ◌+◌, ◌-◌, ◌/◌, ◌^◌, max, ltb, leb, ◌==◌, String, Bool, true, false, not, ◌&&◌, ◌||◌, Option,
  none, some, List, [], ◌∷◌, ◌++◌, any, select, str_eq, if◌then◌else◌,
}
use mirageby_ai.Common.Exec.{Result, ok, err}
use mirageby_ai.Contracts.Json.{Json, text, flag, ratio, optional, dict}

-- An IPv4 or IPv6 address with its value
pub data Address : Type 0 where
  v4 v6 : ℕ → Address

-- ip_network(cidr, strict=False): an address of the network and the number of its host bits
pub record Network : Type 0 where
  pub base : Address
  pub host_bits : ℕ

abbrev same_prefix : ℕ → ℕ → ℕ → Bool
same_prefix bits a b = (a / 2 ^ bits) == (b / 2 ^ bits)

abbrev pub is_in : Network → Address → Bool
is_in n (v4 a) = elim n.base [ v4 b ↦ same_prefix n.host_bits a b | v6 b ↦ false ]
is_in n (v6 a) = elim n.base [ v4 b ↦ false | v6 b ↦ same_prefix n.host_bits a b ]

abbrev pub same_address : Address → Address → Bool
same_address (v4 a) (v4 b) = a == b
same_address (v6 a) (v6 b) = a == b
same_address (v4 a) (v6 b) = false
same_address (v6 a) (v4 b) = false

-- Confidences are in hundredths.
pub record InfrastructureSource : Type 0 where
  pub source_id : String
  pub network : Network
  pub category : String
  pub valid_from : ℕ
  pub valid_until : Option ℕ
  pub confidence : ℕ
  pub trusted_proxy : Bool

abbrev pub contains : Address → InfrastructureSource → Bool
contains a s = is_in s.network a

abbrev pub valid_at : ℕ → InfrastructureSource → Bool
valid_at at s =
    leb s.valid_from at && (elim s.valid_until [ none ↦ true | some end_ ↦ ltb at end_ ])

-- `_matching_sources`
abbrev pub matches_at : Address → ℕ → InfrastructureSource → Bool
matches_at a at s = valid_at at s && contains a s

pub matching_sources : Address → ℕ → List InfrastructureSource → List InfrastructureSource
matching_sources a at sources = select (matches_at a at) sources

-- ipaddress.ip_address: none where it raises ValueError
abbrev pub Parser : Type 0
Parser = String → Option Address

unfoldable pub parse_all : Parser → List String → Option (List Address)
parse_all ip [] = some []
parse_all ip (t ∷ ts) = elim (ip t) [
  | none ↦ none
  | some a ↦ elim (parse_all ip ts) [ none ↦ none | some rest ↦ some (a ∷ rest) ]
]

-- Whether several addresses differ from the first
unfoldable pub differ : Address → List Address → Bool
differ a rest = any (λ b. not (same_address a b)) rest

abbrev pub forwarded_source : Address → Option (List Address) → Address × Bool
forwarded_source peer none = (peer, true)
forwarded_source peer (some []) = (peer, true)
forwarded_source peer (some (a ∷ rest)) = (a, differ a rest)

-- resolve_callback_source, from a peer that is an address. The header is absent or the tokens
-- between its commas that are not blank.
pub resolve_callback_source :
    Parser → Address → Option (List String) → ℕ → List InfrastructureSource → Address × Bool
resolve_callback_source ip peer none at sources = (peer, false)
resolve_callback_source ip peer (some tokens) at sources =
    if any (λ s. s.trusted_proxy) (matching_sources peer at sources)
    then forwarded_source peer (parse_all ip tokens)
    else (peer, false)

pub data Kind : Type 0 where
  unknown in_sandbox security_scanner external : Kind

-- A confidence is in percent.
pub record CallbackClassification : Type 0 where
  pub classification : Kind
  pub confidence : ℕ
  pub network_indicator : Option Address
  pub uncertainty : String
  pub analyst_review_required : Bool

abbrev pub is_internal : InfrastructureSource → Bool
is_internal s =
    any (λ c. str_eq c s.category)
      ("SANDBOX_ENI" ∷ "ENDPOINT_ENI" ∷ "MIRAGE_PROXY" ∷ "NGINX_BROKER" ∷ "SSH_BASTION"
        ∷ "RD_GATEWAY" ∷ "NAT" ∷ "VPN_EGRESS" ∷ "TEST_INFRASTRUCTURE" ∷ [])

abbrev pub is_scanner : InfrastructureSource → Bool
is_scanner s =
    any (λ c. str_eq c s.category)
      ("SECURITY_SCANNER" ∷ "EMAIL_SCANNER" ∷ "AV_GATEWAY" ∷ "BROWSER_SECURITY_SCANNER" ∷ [])

unfoldable pub max_confidence : List InfrastructureSource → ℕ
max_confidence [] = 0
max_confidence (s ∷ rest) = max s.confidence (max_confidence rest)

abbrev pub controlled : Kind → ℕ → String → Bool → CallbackClassification
controlled kind confidence uncertainty review = record {
  classification = kind;
  confidence = confidence;
  network_indicator = none;
  uncertainty = uncertainty;
  analyst_review_required = review;
}

abbrev pub externally : Address → CallbackClassification
externally a = record {
  classification = external;
  confidence = 75;
  network_indicator = some a;
  uncertainty = "network indicator only; VPN, proxy, NAT, and shared-network uncertainty applies";
  analyst_review_required = false;
}

abbrev pub is_nil : List InfrastructureSource → Bool
is_nil [] = true
is_nil (s ∷ rest) = false

-- classify_callback of a source that is an address
pub classify_address : Address → ℕ → List InfrastructureSource → Bool → CallbackClassification
classify_address a at sources conflict =
    let found = matching_sources a at sources in
    if conflict || (any is_internal found && any is_scanner found)
    then controlled unknown 25 "conflicting forwarding or infrastructure-source signals" true
    else if any is_internal found
    then controlled in_sandbox (max_confidence found)
        "controlled Mirage infrastructure; never an attacker location" false
    else if any is_scanner found
    then controlled security_scanner (max_confidence found)
        "configured security scanner; no attacker attribution" false
    else if not (is_nil found)
    then controlled unknown (max_confidence found)
        "source matched an unclassified infrastructure range" true
    else if any (contains a) sources
    then controlled unknown 25
        "source matches only stale infrastructure records; analyst review required" true
    else externally a

pub classify_callback :
    Parser → String → ℕ → List InfrastructureSource → Bool → CallbackClassification
classify_callback ip source_ip at sources conflict = elim (ip source_ip) [
  | none ↦ controlled unknown 0 "invalid source address" true
  | some a ↦ classify_address a at sources conflict
]

-- The functions of hmac, hashlib and json, and the key
pub record SignedCallback : Type 0 where
  pub payload : Json
  pub signature : String

pub sign_callback_event :
    (String → String → String) → (Json → String) → Json → String → SignedCallback
sign_callback_event hmac canonical payload key = record {
  payload = payload;
  signature = hmac key (canonical payload);
}

pub verify_callback_signature :
    (String → String → String) → (Json → String) → SignedCallback → String → Bool
verify_callback_signature hmac canonical e key = str_eq (hmac key (canonical e.payload)) e.signature
