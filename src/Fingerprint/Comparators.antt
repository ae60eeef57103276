-- ===== src/Fingerprint/Comparators.antt =====
-- libs/mirage_common/fingerprint.py: the values of a baseline and the comparators without a pattern.
use Prim.Native.String.{compare, ◌∷◌ as text_cons}
use Prim.Native.Nat.{Ordering}
use mirageby_ai.Common.{
  ℕ, zero, suc, String, Bool, true, false, ◌&&◌, List, [], ◌∷◌, Option, none, some, leb, ◌==◌,
  str_eq, any, if◌then◌else◌,
}

-- The values that the baseline and the observations hold.
pub data Value : Type 0 where
  null : Value
  num : ℕ → Value
  text : String → Value
  list : List String → Value

abbrev pub Dict : Type 0
Dict = List (String × Value)

-- d.get(k, default)
abbrev pub get_or : Dict → String → Value → Value
get_or [] k d = d
get_or ((j, v) ∷ rest) k d = if str_eq j k then v else get_or rest k d

abbrev pub has_key : Dict → String → Bool
has_key d k = any (λ row. str_eq row.0 k) d

abbrev pub same_list : List String → List String → Bool
same_list [] [] = true
same_list [] (t ∷ ts) = false
same_list (s ∷ ss) [] = false
same_list (s ∷ ss) (t ∷ ts) = str_eq s t && same_list ss ts

-- Python's `==`
abbrev pub same_value : Value → Value → Bool
same_value null null = true
same_value (num a) (num b) = a == b
same_value (text s) (text t) = str_eq s t
same_value (list s) (list t) = same_list s t
same_value _ _ = false

abbrev pub contains : List String → String → Bool
contains l s = any (λ t. str_eq t s) l

abbrev pub subset : List String → List String → Bool
subset [] l = true
subset (s ∷ ss) l = contains l s && subset ss l

abbrev characters : String → List String
characters String.[] = []
characters (String.◌∷◌ c s) = text_cons c "" ∷ characters s

-- set(v), which raises on what cannot be iterated
abbrev pub set_of : Value → Option (List String)
set_of (list l) = some l
set_of (text s) = some (characters s)
set_of _ = none

-- `v or []`
abbrev or_empty : Value → Value
or_empty null = list []
or_empty (num zero) = list []
or_empty (text String.[]) = list []
or_empty v = v

abbrev both_sets :
    Option (List String) → Option (List String) → (List String → List String → Bool) → Option Bool
both_sets (some s) (some t) f = some (f s t)
both_sets _ _ f = none

unfoldable pub compare_exact : Dict → Dict → Option Bool
compare_exact [] observed = some true
compare_exact ((k, v) ∷ expected) observed =
    let rest = compare_exact expected observed in
    if same_value (get_or observed k null) v then rest else some false

-- One field of `_compare_baseline_match`: a list is compared as a set.
pub field_matches : Value → Value → Option Bool
field_matches (list v) ev =
    both_sets (some v) (set_of (or_empty ev)) (λ s t. subset s t && subset t s)
field_matches v ev = some (same_value ev v)

-- Every field is compared, also behind a mismatch, so an error in any of them raises.
abbrev and_also : Option Bool → Option Bool → Option Bool
and_also (some a) (some b) = some (a && b)
and_also _ _ = none

unfoldable pub compare_baseline_match : Dict → Dict → Option Bool
unfolding field_matches
compare_baseline_match [] observed = some true
compare_baseline_match ((k, v) ∷ expected) observed =
    and_also (field_matches v (get_or observed k null)) (compare_baseline_match expected observed)

unfoldable pub compare_required_subset : Dict → Dict → Option Bool
compare_required_subset expected observed =
    both_sets (set_of (get_or expected "required" (list [])))
      (set_of (get_or observed "installed" (list []))) subset

-- `if offenders:` and then `len(offenders)`, which a number does not have
abbrev no_offenders : Value → Option Bool
no_offenders null = some true
no_offenders (num zero) = some true
no_offenders (num (suc n)) = none
no_offenders (text String.[]) = some true
no_offenders (text (String.◌∷◌ c s)) = some false
no_offenders (list []) = some true
no_offenders (list (s ∷ ss)) = some false

unfoldable pub compare_no_file_predates_date : Dict → Dict → Option Bool
compare_no_file_predates_date expected observed =
    no_offenders (get_or observed "files_predating_hire_date" (list []))

-- value >= bound
abbrev at_least : Value → Value → Option Bool
at_least (num a) (num b) = some (leb b a)
at_least (text s) (text t) = some (elim (compare s t) [ Ordering.lt ↦ false | _ ↦ true ])
at_least _ _ = none

-- lo is None or value >= lo
abbrev above : Value → Value → Option Bool
above value null = some true
above value lo = at_least value lo

abbrev below : Value → Value → Option Bool
below value null = some true
below value hi = at_least hi value

-- `and` stops at the first False
abbrev and_then : Option Bool → Option Bool → Option Bool
and_then none b = none
and_then (some false) b = some false
and_then (some true) b = b

abbrev in_range : Value → Value → Value → Option Bool
in_range null lo hi = some false
in_range value lo hi = and_then (above value lo) (below value hi)

unfoldable pub compare_range : Dict → Dict → Option Bool
compare_range expected observed =
    in_range (get_or observed "value" null)
      (if has_key expected "min"
        then get_or expected "min" null
        else get_or expected "min_hours" null)
      (if has_key expected "max"
        then get_or expected "max" null
        else get_or expected "max_hours" null)
