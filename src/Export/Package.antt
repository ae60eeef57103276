-- ===== src/Export/Package.antt =====
-- libs/mirage_common/evidence_export.py: sort_evidence and verify_export_package. A package is
-- the list of its members; a manifest is what the code reads of
-- the JSON document, with sort fields of their types, and the order of the faults is not kept.
-- Hashing, the RSA signature, the JSON text and strip are parameters. A manifest that is JSON and no
-- object, or a recorded hash that is not UTF-8, raises in the code; loads answers none for it here.

pub mod Integrity
use Prim.Native.String.{compare}
use Prim.Native.Nat.{Ordering}
use mirageby_ai.Common.{
  ℕ, ltb, ◌==◌, String, Bool, true, false, not, ◌&&◌, ◌||◌, Option, none, some, List, [], ◌∷◌, ◌++◌,
  map, any, str_eq, if◌then◌else◌,
}
use mirageby_ai.Contracts.Json.{Json}
use mirageby_ai.Contracts.Text.{concat}
use mirageby_ai.Export.Trust.{TrustStore, TrustError, TrustResolution, resolve_trusted_key}

pub record Evidence : Type 0 where
  pub evidence_id : String
  pub evidence_type : String
  pub acquisition_time : String
  pub source_id : String
  pub source_sequence : ℕ
  pub sha256 : String
  pub s3_version_id : String

-- An element of evidence_objects
pub data Item : Type 0 where
  item : Evidence → Item
  not_an_object missing_fields invalid_types : Item

-- evidence_objects is none where it is no array.
pub record Manifest : Type 0 where
  pub manifest_version : String
  pub algorithm : String
  pub evidence_objects : Option (List Item)
  pub rest : Json

pub data MemberName : Type 0 where
  manifest_json manifest_sha256 manifest_sig public_key report : MemberName
  object : String → MemberName
  other : String → MemberName

abbrev pub Package : Type 0
Package = List (MemberName × String)

pub record Libraries : Type 0 where
  pub hexdigest : String → String
  pub canonical : Manifest → String
  pub loads : String → Option Manifest
  pub strip : String → String
  pub signs : String → String → String → Bool

-- The order of the tuples of sort_evidence
abbrev lexicographic : Ordering → Ordering → Ordering
lexicographic Ordering.eq o = o
lexicographic Ordering.lt o = Ordering.lt
lexicographic Ordering.gt o = Ordering.gt

abbrev key_order : Evidence → Evidence → Ordering
key_order a b = lexicographic (compare a.evidence_type b.evidence_type) (
    lexicographic (compare a.acquisition_time b.acquisition_time) (
      lexicographic (compare a.source_id b.source_id) (
        lexicographic (Prim.Native.Nat.compare a.source_sequence b.source_sequence)
          (compare a.evidence_id b.evidence_id))))

abbrev pub not_after : Evidence → Evidence → Bool
not_after a b = elim (key_order a b) [ Ordering.gt ↦ false | _ ↦ true ]

unfoldable pub insert : Evidence → List Evidence → List Evidence
insert a [] = a ∷ []
insert a (b ∷ rest) = let later = insert a rest in if not_after a b then a ∷ b ∷ rest else b ∷ later

-- sorted is stable: of equal keys the earlier stays before.
unfoldable pub sort_evidence : List Evidence → List Evidence
sort_evidence [] = []
sort_evidence (a ∷ rest) = insert a (sort_evidence rest)

abbrev pub same_name : MemberName → MemberName → Bool
same_name manifest_json manifest_json = true
same_name manifest_sha256 manifest_sha256 = true
same_name manifest_sig manifest_sig = true
same_name public_key public_key = true
same_name report report = true
same_name (object a) (object b) = str_eq a b
same_name (other a) (other b) = str_eq a b
same_name a b = false

-- zf.read, where the member is there: the first of the name, where zipfile gives the last. The
-- members are read only behind the check that no name stands twice.
unfoldable pub read : MemberName → Package → Option String
read n [] = none
read n ((m, d) ∷ rest) = let later = read n rest in if same_name m n then some d else later

abbrev pub has : Package → MemberName → Bool
has p n = elim (read n p) [ none ↦ false | some d ↦ true ]

unfoldable pub has_duplicates : Package → Bool
has_duplicates [] = false
has_duplicates ((m, d) ∷ rest) = has rest m || has_duplicates rest

pub data Fault : Type 0 where
  duplicate_members hash_mismatch not_json not_canonical bad_version bad_algorithm : Fault
  not_an_array unsorted unsigned : Fault
  missing_member unlisted missing_object object_mismatch : MemberName → Fault
  bad_item : Item → Fault
  no_trust : TrustError → Fault

abbrev pub unless : Bool → Fault → List Fault
unless true f = []
unless false f = f ∷ []

abbrev pub required_members : List MemberName
required_members = manifest_json ∷ manifest_sha256 ∷ manifest_sig ∷ report ∷ []

unfoldable pub missing_members : List MemberName → Package → List Fault
missing_members [] p = []
missing_members (n ∷ ns) p = unless (has p n) (missing_member n) ++ missing_members ns p

-- The items that can be used, and the faults of the others
unfoldable pub valid_evidence : List Item → List Evidence
valid_evidence [] = []
valid_evidence (item e ∷ rest) = e ∷ valid_evidence rest
valid_evidence (i ∷ rest) = valid_evidence rest

unfoldable pub item_faults : List Item → List Fault
item_faults [] = []
item_faults (item e ∷ rest) = item_faults rest
item_faults (i ∷ rest) = bad_item i ∷ item_faults rest

abbrev same_evidence : Evidence → Evidence → Bool
same_evidence a b =
    str_eq a.evidence_id b.evidence_id
    && str_eq a.evidence_type b.evidence_type
    && str_eq a.acquisition_time b.acquisition_time
    && str_eq a.source_id b.source_id
    && (a.source_sequence == b.source_sequence)
    && str_eq a.sha256 b.sha256
    && str_eq a.s3_version_id b.s3_version_id

abbrev pub same_list : List Evidence → List Evidence → Bool
same_list [] [] = true
same_list [] (b ∷ bs) = false
same_list (a ∷ as_) [] = false
same_list (a ∷ as_) (b ∷ bs) = same_evidence a b && same_list as_ bs

-- Of each item its object, and that it has the recorded hash
unfoldable pub object_faults : Libraries → List Evidence → Package → List Fault
object_faults libs [] p = []
object_faults libs (e ∷ es) p =
    elim (read (object e.evidence_id) p) [
      | none ↦ missing_object (object e.evidence_id) ∷ []
      | some d ↦
          unless (str_eq (libs.hexdigest d) e.sha256) (object_mismatch (object e.evidence_id))
    ]
    ++ object_faults libs es p

abbrev pub is_listed : List Evidence → String → Bool
is_listed es id = any (λ e. str_eq e.evidence_id id) es

-- The objects of the package that no item names
unfoldable pub unlisted_faults : List Evidence → Package → List Fault
unlisted_faults es [] = []
unlisted_faults es ((object id, d) ∷ rest) =
    unless (is_listed es id) (unlisted (object id)) ++ unlisted_faults es rest
unlisted_faults es ((n, d) ∷ rest) = unlisted_faults es rest

abbrev pub signature_faults : Libraries → String → Option String → Option String → List Fault
signature_faults libs digest (some key) (some signature) =
    unless (libs.signs key digest signature) unsigned
signature_faults libs digest (some key) none = unsigned ∷ []
signature_faults libs digest none signature = []

abbrev pub trust_faults : Libraries → TrustResolution → String → Package → List Fault
trust_faults libs r digest p =
    map no_trust r.errors ++ signature_faults libs digest r.key_bytes (read manifest_sig p)

abbrev pub items_of : Manifest → List Item
items_of m = elim m.evidence_objects [ none ↦ [] | some items ↦ items ]

abbrev pub is_array : Manifest → Bool
is_array m = elim m.evidence_objects [ none ↦ false | some items ↦ true ]

-- What is found wrong with a manifest that was read from these bytes
unfoldable pub manifest_faults :
    Libraries → Option String → TrustStore → Package → String → Manifest → List Fault
manifest_faults libs explicit store p bytes m =
    let es = valid_evidence (items_of m) in
    unless (str_eq (libs.canonical m) bytes) not_canonical
    ++ unless (str_eq m.manifest_version "1.0") bad_version
    ++ unless (str_eq m.algorithm "RSASSA_PSS_SHA_256") bad_algorithm
    ++ unless (is_array m) not_an_array
    ++ item_faults (items_of m)
    ++ unless (same_list es (sort_evidence es)) unsorted
    ++ object_faults libs es p
    ++ unlisted_faults es p
    ++ trust_faults libs (resolve_trusted_key libs.hexdigest explicit store (read public_key p))
        (libs.hexdigest bytes) p

pub record VerificationReport : Type 0 where
  pub errors : List Fault
  pub digest : Option String

abbrev pub is_valid : VerificationReport → Bool
is_valid r = elim r.errors [ [] ↦ true | (f ∷ fs) ↦ false ]

-- After the members were found
abbrev pub verify_bytes :
    Libraries → Option String → TrustStore → Package → String → String → VerificationReport
verify_bytes libs explicit store p bytes recorded = elim (libs.loads bytes) [
  | none ↦ record { errors = not_json ∷ []; digest = some (libs.hexdigest bytes) }
  | some m ↦ record {
    errors =
        unless (str_eq (libs.hexdigest bytes) (libs.strip recorded)) hash_mismatch
        ++ manifest_faults libs explicit store p bytes m;
    digest = some (libs.hexdigest bytes);
  }
]

abbrev pub text_of : Option String → String
text_of none = ""
text_of (some s) = s

-- verify_export_package of a readable zip file
unfoldable pub verify_export_package :
    Libraries → Option String → TrustStore → Package → VerificationReport
verify_export_package libs explicit store p =
    let faults =
      unless (not (has_duplicates p)) duplicate_members ++ missing_members required_members p in
    elim faults [
      | (f ∷ fs) ↦ record { errors = f ∷ fs; digest = none }
      | [] ↦
          verify_bytes libs explicit store p (text_of (read manifest_json p))
            (text_of (read manifest_sha256 p))
    ]
