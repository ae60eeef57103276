-- ===== src/Teardown/Resources.antt =====
-- The resources as the local adapter of libs/mirage_common/teardown.py lists and removes them.
use mirageby_ai.Common.{
  String, Bool, true, false, not, ◌&&◌, Option, none, some, List, [], ◌∷◌, str_eq, select, update,
  if◌then◌else◌,
}
use mirageby_ai.Teardown.Types.{
  CloudResource, Config, ResourceType, World, compute, credential, public_endpoint, sandbox, token,
  volume,
}

abbrev pub is_case : String → Option String → Bool
is_case k none = false
is_case k (some c) = str_eq c k

-- The filter of `LocalCloudAdapter.inventory` for the workflow's environment and case.
abbrev pub is_listed : Config → CloudResource → Bool
is_listed c x =
    x.active
    && (str_eq x.project "mirage"
        && (str_eq x.environment c.environment && is_case c.case_id x.case_id))

abbrev pub inventory : Config → World → List CloudResource
inventory c w = select (is_listed c) w.resources

-- `deactivate`: the adapter keeps one resource to an identifier
abbrev pub deactivate : String → List CloudResource → List CloudResource
deactivate id = update (λ x. str_eq x.resource_id id) (λ x. record x { active = false })

abbrev pub is_disposable : CloudResource → Bool
is_disposable x = x.temporary && not x.protected_evidence

-- The loop over the inventory, which is a list of its own by then.
abbrev pub deactivate_each :
    (ResourceType → Bool) → List CloudResource → List CloudResource → List CloudResource
deactivate_each types [] rs = rs
deactivate_each types (x ∷ xs) rs =
    deactivate_each types xs
      (if types x.resource_type && is_disposable x then deactivate x.resource_id rs else rs)

abbrev pub is_sandbox : ResourceType → Bool
is_sandbox sandbox = true
is_sandbox _ = false

abbrev pub is_compute_or_volume : ResourceType → Bool
is_compute_or_volume compute = true
is_compute_or_volume volume = true
is_compute_or_volume _ = false

abbrev pub is_credential_or_token : ResourceType → Bool
is_credential_or_token credential = true
is_credential_or_token token = true
is_credential_or_token _ = false

abbrev pub is_public_endpoint : ResourceType → Bool
is_public_endpoint public_endpoint = true
is_public_endpoint _ = false
