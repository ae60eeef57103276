-- ===== src/EnvController/Journal/Refinement.antt =====
-- The journal against an abstract map from action identifiers to entries.
use mirageby_ai.Common.{
  ◌≡◌, refl, ap, ◌∙◌, String, false, not, Option, none, some, List, [], ◌∷◌, arith, str_eq, eq_iff,
  find, select, if◌then◌else◌,
}
use mirageby_ai.EnvController.Journal.{
  Entry, Journal, by_action_id, with_status, record_entry, get, mark_status,
}

-- The abstract map
abbrev pub Entries : Type 0
Entries = String → Option Entry

pub data Statement : Type 0 where
  record_of : Entry → Statement
  status_set : String → String → Statement

abbrev pub run : List Statement → Journal → Journal
run [] j = j
run (record_of e ∷ rest) j = run rest (record_entry e j)
run (status_set id s ∷ rest) j = run rest (mark_status id s j)

abbrev marked : String → Option Entry → Option Entry
marked s none = none
marked s (some e) = some (with_status s e)

abbrev pub replay : List Statement → Entries → Entries
replay [] m = m
replay (record_of e ∷ rest) m = replay rest (λ id. if str_eq e.action_id id then some e else m id)
replay (status_set target s ∷ rest) m =
    replay rest (λ id. if str_eq target id then marked s (m id) else m id)

find-select_other :
    (a id : String) (j : Journal)
    → str_eq a id ≡ false
    → find (by_action_id id) (select (λ old. not (by_action_id a old)) j) ≡ find (by_action_id id) j
find-select_other a id [] h = refl
find-select_other a id (e ∷ j) h =
    ground
      (arith, eq_iff e.action_id a, eq_iff e.action_id id, eq_iff a id, find-select_other a id j h)

pub get-record_entry :
    (e : Entry) (j : Journal) (id : String)
    → get id (record_entry e j) ≡ (if str_eq e.action_id id then some e else get id j)
unfolding get record_entry
get-record_entry e j id = ground (arith, find-select_other e.action_id id j)

pub get-mark_status :
    (target s : String) (j : Journal) (id : String)
    → get id (mark_status target s j) ≡ (if str_eq target id then marked s (get id j) else get id j)
unfolding get mark_status
get-mark_status target s [] id = ground arith
get-mark_status target s (e ∷ j) id = ground (
  arith,
  eq_iff e.action_id target,
  eq_iff e.action_id id,
  eq_iff target id,
  get-mark_status target s j id,
)

-- After any sequence of `record` and `mark_status` an identifier is looked up as in the abstract map
-- that the same sequence has changed: the last entry recorded for it, with the last status set since.
pub get-run :
    (statements : List Statement) (j : Journal) (id : String)
    → get id (run statements j) ≡ replay statements (λ i. get i j) id
get-run [] j id = refl
get-run (record_of e ∷ rest) j id =
    get-run rest (record_entry e j) id
    ∙ ap (λ m. replay rest m id) (λ i k. get-record_entry e j k i)
get-run (status_set target s ∷ rest) j id =
    get-run rest (mark_status target s j) id
    ∙ ap (λ m. replay rest m id) (λ i k. get-mark_status target s j k i)
