-- ===== src/Ai/Credentials.antt =====
-- The configuration, the provider's secret with its refresh, and the choice of the provider.
-- Times are in milliseconds. A secret source gives a secret or raises.
use mirageby_ai.Common.{
  ℕ, ◌+◌, ◌≡◌, refl, ap, sym, ◌∙◌, Bool-cases, String, Bool, true, false, not, ◌&&◌, ◌||◌, Option,
  none, some, List, [], ◌∷◌, arith, ltb, leb, str_eq, any, if◌then◌else◌, ◌⊎◌, inl, inr,
}
use mathlib.Core.Path.{subst}
use mirageby_ai.Common.Exec.{Result, ok, err, is_ok}

pub record ProviderSecret : Type 0 where
  pub provider : String
  pub api_key : String
  pub model : String
  pub base_url : String
  pub organisation : Option String
  pub project : Option String

pub record AiConfig : Type 0 where
  pub provider_secret_arn : String
  pub timeout : ℕ
  pub max_concurrent_requests : ℕ
  pub max_input_tokens : ℕ
  pub max_output_tokens : ℕ
  pub usage_alert_percent : ℕ
  pub allow_external_provider : Bool
  pub model_allowlist : List String
  pub per_case_request_limit : ℕ

pub data ConfigError : Type 0 where
  secret_arn_required timeout_out_of_range concurrency_not_positive : ConfigError
  invalid_token_caps alert_percent_out_of_range request_limit_not_positive : ConfigError
  model_not_allowed external_provider_not_allowed refresh_failed : ConfigError

-- `__post_init__`
unfoldable pub post_init : AiConfig → Result ConfigError (Unit {0})
post_init c =
    if str_eq c.provider_secret_arn ""
    then err secret_arn_required
    else if not (ltb 0 c.timeout && leb c.timeout 10000)
    then err timeout_out_of_range
    else if ltb c.max_concurrent_requests 1
    then err concurrency_not_positive
    else if ltb 4000 c.max_input_tokens || ltb c.max_output_tokens 1
    then err invalid_token_caps
    else if not (leb 1 c.usage_alert_percent && leb c.usage_alert_percent 100)
    then err alert_percent_out_of_range
    else if ltb c.per_case_request_limit 1
    then err request_limit_not_positive
    else ok tt

pub data ProviderKind : Type 0 where
  disabled : ProviderKind
  configured_external : ProviderSecret → ℕ → ProviderKind

unfoldable pub provider_from_secret : ProviderSecret → AiConfig → Result ConfigError ProviderKind
provider_from_secret s c =
    if not (any (λ m. str_eq m s.model) c.model_allowlist)
    then err model_not_allowed
    else if str_eq s.provider "disabled"
    then ok disabled
    else if not c.allow_external_provider
    then err external_provider_not_allowed
    else ok (configured_external s c.timeout)

pub record RefreshingSecret : Type 0 where
  pub refresh_interval : ℕ
  pub current : Option ProviderSecret
  pub last_refresh_at : Option ℕ
  pub last_error : Option String

-- now - last_refresh_at < refresh_interval_seconds
abbrev is_recent : ℕ → ℕ → Option ℕ → Bool
is_recent now interval none = false
is_recent now interval (some at) = ltb now (at + interval)

abbrev adopt : ProviderSecret → ℕ → RefreshingSecret → RefreshingSecret
adopt s now r = record r { current = some s; last_refresh_at = some now; last_error = none }

abbrev pub failed : String → RefreshingSecret → RefreshingSecret
failed error r = record r { last_error = some error }

-- What `refresh` does with the source's answer.
abbrev pub reload :
    Result String ProviderSecret
    → ℕ
    → RefreshingSecret
    → Result ConfigError ProviderSecret × RefreshingSecret
reload (ok s) now r = (ok s, adopt s now r)
reload (err error) now r = elim r.current [
  | none ↦ (err refresh_failed, failed error r)
  | some s ↦ (ok s, failed error r)
]

-- `refresh`; the source's answer is used only when it is asked.
pub refresh :
    Bool
    → ℕ
    → Result String ProviderSecret
    → RefreshingSecret
    → Result ConfigError ProviderSecret × RefreshingSecret
refresh force now answer r = elim r.current [
  | none ↦ reload answer now r
  | some s ↦
      if not force && is_recent now r.refresh_interval r.last_refresh_at
      then (ok s, r)
      else reload answer now r
]

-- `load_startup` does not catch what the source raises.
unfoldable pub load_startup :
    ℕ
    → Result String ProviderSecret
    → RefreshingSecret
    → Result String ProviderSecret × RefreshingSecret
load_startup now (ok s) r = (ok s, adopt s now r)
load_startup now (err error) r = (err error, r)

unfoldable pub explicit_reload :
    ℕ
    → Result String ProviderSecret
    → RefreshingSecret
    → Result ConfigError ProviderSecret × RefreshingSecret
unfolding refresh
explicit_reload now answer r = refresh true now answer r

-- One refresh with what the source would answer.
pub record Refresh : Type 0 where
  pub force : Bool
  pub now : ℕ
  pub answer : Result String ProviderSecret

abbrev pub refreshes : List Refresh → RefreshingSecret → RefreshingSecret
refreshes [] r = r
refreshes (x ∷ xs) r = refreshes xs (refresh x.force x.now x.answer r).1

-- The secrets that may be in use: the first, and those that the source has answered since.
abbrev pub IsKnown : ProviderSecret → List Refresh → ProviderSecret → Type 0
IsKnown first [] s = s ≡ first
IsKnown first (x ∷ xs) s = (x.answer ≡ ok s) ⊎ IsKnown first xs s

refresh_step :
    (force : Bool) (now : ℕ) (answer : Result String ProviderSecret) (r : RefreshingSecret)
    (s : ProviderSecret)
    → r.current ≡ some s
    → (t : ProviderSecret) × ((refresh force now answer r).0 ≡ ok t)
      × ((refresh force now answer r).1.current ≡ some t)
      × ((t ≡ s) ⊎ (answer ≡ ok t))
unfolding refresh
refresh_step force now (ok u) r s h =
    elim (Bool-cases (not force && is_recent now r.refresh_interval r.last_refresh_at)) [
      | inl recent ↦ (s, rw (h, recent) refl, rw (h, recent) refl, inl refl)
      | inr due ↦ (u, rw (h, due) refl, rw (h, due) refl, inr refl)
    ]
refresh_step force now (err e) r s h =
    elim (Bool-cases (not force && is_recent now r.refresh_interval r.last_refresh_at)) [
      | inl recent ↦ (s, rw (h, recent) refl, rw (h, recent) refl, inl refl)
      | inr due ↦ (s, ground (arith, due), ground (arith, due), inl refl)
    ]

IsKnown-or_later :
    (xs : List Refresh) (first other t : ProviderSecret)
    → IsKnown first xs t
    → (t ≡ first) ⊎ IsKnown other xs t
IsKnown-or_later [] first other t h = inl h
IsKnown-or_later (x ∷ xs) first other t (inl answered) = inr (inl answered)
IsKnown-or_later (x ∷ xs) first other t (inr later) =
    elim (IsKnown-or_later xs first other t later) [ inl e ↦ inl e | inr k ↦ inr (inr k) ]

IsKnown-step :
    (x : Refresh) (xs : List Refresh) (s u t : ProviderSecret)
    → (u ≡ s) ⊎ (x.answer ≡ ok u)
    → IsKnown u xs t
    → IsKnown s (x ∷ xs) t
IsKnown-step x xs s u t (inl e) k = inr (subst (λ f. IsKnown f xs t) e k)
IsKnown-step x xs s u t (inr answered) k = elim (IsKnown-or_later xs u s t k) [
  | inl e ↦ inl (answered ∙ ap ok (sym e))
  | inr later ↦ inr later
]

-- Once there is a secret, no refresh raises, whatever the source answers: after any of them the
-- secret in use is the first one or one that the source has answered since, and another refresh
-- returns a secret too.
pub refreshes-IsKnown :
    (xs : List Refresh) (r : RefreshingSecret) (s : ProviderSecret)
    → r.current ≡ some s
    → (t : ProviderSecret) × ((refreshes xs r).current ≡ some t)
      × IsKnown s xs t
      × ((x : Refresh) → is_ok (refresh x.force x.now x.answer (refreshes xs r)).0 ≡ true)
refreshes-IsKnown [] r s h =
    (s, h, refl, λ x. let (t, e, _, _) = refresh_step x.force x.now x.answer r s h in ap is_ok e)
refreshes-IsKnown (x ∷ xs) r s h =
    let (u, _, kept, from) = refresh_step x.force x.now x.answer r s h in
    let (t, e, known, more) = refreshes-IsKnown xs (refresh x.force x.now x.answer r).1 u kept in
    (t, e, IsKnown-step x xs s u t from known, more)

-- A provider outside the process is chosen only for a model of the allowlist, when the
-- configuration allows it and the secret does not name the disabled provider.
pub provider_from_secret_lem :
    (s t : ProviderSecret) (c : AiConfig) (timeout : ℕ)
    → provider_from_secret s c ≡ ok (configured_external t timeout)
    → (any (λ m. str_eq m s.model) c.model_allowlist ≡ true)
      × (c.allow_external_provider ≡ true)
      × (str_eq s.provider "disabled" ≡ false)
      × (timeout ≡ c.timeout)
unfolding provider_from_secret
provider_from_secret_lem s t c timeout h = ground arith
