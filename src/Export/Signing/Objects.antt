-- ===== src/Export/Signing/Objects.antt =====
-- The members of an export that hold its objects: what is read of them, and that no fault
-- is found in them.
use mirageby_ai.Common.{
  ◌≡◌, refl, sym, ap, ◌∙◌, String, true, false, Option, none, some, List, [], ◌∷◌, inl, inr, arith,
  Bool-cases, All, str_eq, eq_iff, if◌then◌else◌,
}
use mirageby_ai.Export.Package.{
  Evidence, MemberName, object, Package, Libraries, same_name, read, has_duplicates, object_faults,
  is_listed, unlisted_faults,
}
use mirageby_ai.Export.Signing.{Objects, id_before, insert_object, sort_objects, object_members}

-- The value of a key
abbrev pub value_of : String → Objects → Option String
value_of id [] = none
value_of id ((i, d) ∷ rest) = let later = value_of id rest in if str_eq i id then some d else later

-- A dict has each key once.
abbrev pub IsDict : Objects → Type 0
IsDict [] = Unit
IsDict ((i, d) ∷ rest) = (value_of i rest ≡ none) × IsDict rest

read_insert :
    (a : String × String) (rest : Objects) (id : String)
    → value_of a.0 rest ≡ none
    → read (object id) (object_members (insert_object a rest))
      ≡ (if str_eq a.0 id then some a.1 else read (object id) (object_members rest))
unfolding read object_members insert_object
read_insert a [] id h = ground arith
read_insert a (b ∷ rest) id h =
    ground (arith, eq_iff a.0 id, eq_iff b.0 id, eq_iff b.0 a.0, read_insert a rest id)

pub read_members :
    (id : String) (os : Objects) → read (object id) (object_members os) ≡ value_of id os
unfolding read object_members
read_members id [] = refl
read_members id ((i, d) ∷ rest) = ground (arith, read_members id rest)

value_of_insert :
    (a : String × String) (rest : Objects) (id : String)
    → value_of a.0 rest ≡ none
    → value_of id (insert_object a rest) ≡ (if str_eq a.0 id then some a.1 else value_of id rest)
value_of_insert a rest id h =
    sym (read_members id (insert_object a rest))
    ∙ read_insert a rest id h
    ∙ ap (λ x. if str_eq a.0 id then some a.1 else x) (read_members id rest)

pub value_of_sort :
    (os : Objects) (id : String) → IsDict os → value_of id (sort_objects os) ≡ value_of id os
unfolding sort_objects
value_of_sort [] id h = refl
value_of_sort ((i, d) ∷ rest) id h =
    value_of_insert (i, d) (sort_objects rest) id (value_of_sort rest i h.1 ∙ h.0)
    ∙ ap (λ x. if str_eq i id then some d else x) (value_of_sort rest id h.1)

insert_object-IsDict :
    (a : String × String) (rest : Objects)
    → value_of a.0 rest ≡ none
    → IsDict rest
    → IsDict (insert_object a rest)
unfolding insert_object
insert_object-IsDict a [] h k = (refl, tt)
insert_object-IsDict a (b ∷ rest) h k =
    let apart : str_eq b.0 a.0 ≡ false = ground arith in
    let below : value_of a.0 rest ≡ none = ground arith in
    elim (Bool-cases (id_before a b)) [
      | inl before ↦ rw before (h, k)
      | inr after ↦
          let other : str_eq a.0 b.0 ≡ false = ground (arith, eq_iff a.0 b.0, eq_iff b.0 a.0) in
          rw after (
            value_of_insert a rest b.0 below ∙ ground (arith, k.0),
            insert_object-IsDict a rest below k.1,
          )
    ]

pub sort_objects-IsDict : (os : Objects) → IsDict os → IsDict (sort_objects os)
unfolding sort_objects
sort_objects-IsDict [] h = tt
sort_objects-IsDict ((i, d) ∷ rest) h =
    insert_object-IsDict (i, d) (sort_objects rest) (value_of_sort rest i h.1 ∙ h.0)
      (sort_objects-IsDict rest h.1)

pub has_duplicates-object_members :
    (os : Objects) → IsDict os → has_duplicates (object_members os) ≡ false
unfolding has_duplicates object_members
has_duplicates-object_members [] h = refl
has_duplicates-object_members ((i, d) ∷ rest) h =
    ground (arith, read_members i rest, h.0, has_duplicates-object_members rest h.1)

-- No object is taken for another member.
pub read_fixed :
    (n : MemberName) (os : Objects)
    → ((id : String) → same_name (object id) n ≡ false)
    → read n (object_members os) ≡ none
unfolding read object_members
read_fixed n [] h = refl
read_fixed n ((i, d) ∷ rest) h = ground (arith, h i, read_fixed n rest h)

unlisted_faults_insert :
    (es : List Evidence) (a : String × String) (rest : Objects)
    → is_listed es a.0 ≡ true
    → unlisted_faults es (object_members rest) ≡ []
    → unlisted_faults es (object_members (insert_object a rest)) ≡ []
unfolding unlisted_faults object_members insert_object
unlisted_faults_insert es a [] h k = ground arith
unlisted_faults_insert es a (b ∷ rest) h k = elim (Bool-cases (is_listed es b.0)) [
  | inl hit ↦ ground (arith, unlisted_faults_insert es a rest h)
  | inr miss ↦ absurd (ground arith)
]

pub unlisted_faults_sort :
    (es : List Evidence) (os : Objects)
    → All (λ o. is_listed es o.0 ≡ true) os
    → unlisted_faults es (object_members (sort_objects os)) ≡ []
unfolding unlisted_faults object_members sort_objects
unlisted_faults_sort es [] h = refl
unlisted_faults_sort es (a ∷ rest) h =
    unlisted_faults_insert es a (sort_objects rest) h.0 (unlisted_faults_sort es rest h.1)

-- Each item has its object among those given, with its hash.
abbrev pub IsBacked : Libraries → Objects → Evidence → Type 0
IsBacked libs os e =
    (d : String) × (value_of e.evidence_id os ≡ some d) × (libs.hexdigest d ≡ e.sha256)

pub object_faults_none :
    (libs : Libraries) (es : List Evidence) (os : Objects) (p : Package)
    → ((id : String) → read (object id) p ≡ value_of id os)
    → All (IsBacked libs os) es
    → object_faults libs es p ≡ []
unfolding object_faults
object_faults_none libs [] os p h k = refl
object_faults_none libs (e ∷ es) os p h k =
    let (d, found, same) = k.0 in
    ground (
      arith,
      h e.evidence_id,
      found,
      (eq_iff (libs.hexdigest d) e.sha256).1 same,
      object_faults_none libs es os p h k.1,
    )
