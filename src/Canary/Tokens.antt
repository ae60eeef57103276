-- ===== src/Canary/Tokens.antt =====
-- libs/mirage_common/canary.py: canary tokens and their issue.
use mirageby_ai.Common.{
  ℕ, leb, String, Bool, true, not, ◌&&◌, ◌||◌, Option, none, some, List, [], ◌∷◌, ◌++◌, any, str_eq,
  if◌then◌else◌,
}
use mirageby_ai.Common.Exec.{Result, ok, err}

-- A token of the table canary_tokens
pub record CanaryToken : Type 0 where
  pub token_id : String
  pub public_token_hash : String
  pub case_id : String
  pub artifact_id : String
  pub created_at : ℕ
  pub expires_at : ℕ
  pub expected_usage : String
  pub signing_version : String
  pub status : String
  pub classification_status : String

-- What issue_canary_token is given; the public token and the identifier are random.
pub record TokenRequest : Type 0 where
  pub token_id : String
  pub public_token : String
  pub case_id : String
  pub artifact_id : String
  pub now : ℕ
  pub expires_at : ℕ
  pub expected_usage : String
  pub signing_version : String

-- The table artifacts: an identifier and the case it belongs to, if any
abbrev pub owned_by : String → String → String × Option String → Bool
owned_by artifact_id case_id row =
    str_eq row.0 artifact_id && (elim row.1 [ none ↦ true | some owner ↦ str_eq owner case_id ])

abbrev pub token_of : (String → String) → TokenRequest → CanaryToken
token_of sha256 r = record {
  token_id = r.token_id;
  public_token_hash = sha256 r.public_token;
  case_id = r.case_id;
  artifact_id = r.artifact_id;
  created_at = r.now;
  expires_at = r.expires_at;
  expected_usage = r.expected_usage;
  signing_version = r.signing_version;
  status = "ACTIVE";
  classification_status = "PENDING";
}

-- create_canary_token and issue_canary_token: the table of tokens afterwards
unfoldable pub issue_canary_token :
    (String → String)
    → TokenRequest
    → List (String × Option String)
    → List CanaryToken
    → Result String (List CanaryToken)
issue_canary_token sha256 r artifacts tokens =
    if not (str_eq r.expected_usage "ONE_TIME" || str_eq r.expected_usage "REUSABLE")
    then err "expected_usage must be ONE_TIME or REUSABLE"
    else if leb r.expires_at r.now
    then err "canary token expiry must be in the future"
    else if not (any (owned_by r.artifact_id r.case_id) artifacts)
    then err "artifact does not belong to case"
    else ok (tokens ++ token_of sha256 r ∷ [])
