-- ===== src/Export/Signing/RoundTrip.antt =====
-- create_export_package followed by verify_export_package.
use mirageby_ai.Common.{
  ◌≡◌, refl, sym, ap, ◌∙◌, String, Bool, true, false, not, Option, none, some, List, [], ◌∷◌, ◌++◌,
  map, arith, All, str_eq, eq_iff, eq_refl,
}
use mirageby_ai.Contracts.Text.{concat}
use mirageby_ai.Export.Trust.{TrustStore, TrustResolution, resolve_trusted_key}
use mirageby_ai.Export.Package.{
  Evidence, item, Manifest, manifest_json, manifest_sha256, manifest_sig, public_key, report,
  object, Package, Libraries, sort_evidence, read, has_duplicates, Fault, unless, required_members,
  missing_members, valid_evidence, item_faults, same_list, object_faults, is_listed,
  unlisted_faults, signature_faults, trust_faults, items_of, is_array, manifest_faults,
  VerificationReport, verify_bytes, text_of, verify_export_package, no_trust, unsigned,
  not_canonical, bad_version, bad_algorithm, not_an_array, unsorted, duplicate_members,
  hash_mismatch, not_json,
}
use mirageby_ai.Export.Signing.{
  Signer, SignedManifest, sign_manifest, Objects, sort_objects, create_export_package,
}
use mirageby_ai.Export.Signing.Objects.{
  value_of, IsDict, read_members, value_of_sort, sort_objects-IsDict, has_duplicates-object_members,
  read_fixed, unlisted_faults_sort, IsBacked, object_faults_none,
}

items_valid : (es : List Evidence) → valid_evidence (map item es) ≡ es
unfolding valid_evidence
items_valid [] = refl
items_valid (e ∷ es) = ap (λ l. e ∷ l) (items_valid es)

items_faultless : (es : List Evidence) → item_faults (map item es) ≡ []
unfolding item_faults
items_faultless [] = refl
items_faultless (e ∷ es) = items_faultless es

-- What the manifest, the objects and the key of a package must be
pub record IsExportable (libs : Libraries) (signer : Signer) (explicit : Option String)
    (store : TrustStore) (m : Manifest) (os : Objects) : Type 0 where
  pub evidence : List Evidence
  pub lists : m.evidence_objects ≡ some (map item evidence)
  pub in_order : same_list evidence (sort_evidence evidence) ≡ true
  pub version_is : m.manifest_version ≡ "1.0"
  pub algorithm_is : m.algorithm ≡ "RSASSA_PSS_SHA_256"
  pub parses : libs.loads (libs.canonical m) ≡ some m
  pub strips : (s : String) → libs.strip (concat (libs.hexdigest s ∷ "\n" ∷ [])) ≡ libs.hexdigest s
  pub dict : IsDict os
  pub backed : All (IsBacked libs os) evidence
  pub listed : All (λ o. is_listed evidence o.0 ≡ true) os
  pub key : String
  pub key_is :
      (resolve_trusted_key libs.hexdigest explicit store (some signer.public_key_pem)).key_bytes
      ≡ some key
  pub no_error :
      (resolve_trusted_key libs.hexdigest explicit store (some signer.public_key_pem)).errors ≡ []
  pub signs : (d : String) → libs.signs key d (signer.sign_digest d) ≡ true

members_fit :
    (signed : SignedManifest) (os : Objects) (text : String)
    → IsDict os
    → (has_duplicates (create_export_package signed os text) ≡ false)
      × (missing_members required_members (create_export_package signed os text) ≡ [])
unfolding has_duplicates missing_members create_export_package read
members_fit signed os text d =
    let rest = sort_objects os in
    (
      ground (
        arith,
        read_fixed manifest_json rest (λ id. refl),
        read_fixed manifest_sha256 rest (λ id. refl),
        read_fixed manifest_sig rest (λ id. refl),
        read_fixed public_key rest (λ id. refl),
        read_fixed report rest (λ id. refl),
        has_duplicates-object_members rest (sort_objects-IsDict os d),
      ),
      ground arith,
    )

nil-append : {A : Type 0} (xs ys : List A) → xs ≡ [] → ys ≡ [] → xs ++ ys ≡ []
nil-append xs ys h k = ap (λ x. x ++ ys) h ∙ k

passed : (b : Bool) (f : Fault) → b ≡ true → unless b f ≡ []
passed b f h = ap (λ x. unless x f) h

-- The objects of the package are read as they were given.
read_object :
    (signed : SignedManifest) (os : Objects) (text id : String)
    → IsDict os
    → read (object id) (create_export_package signed os text) ≡ value_of id os
unfolding create_export_package read
read_object signed os text id d = read_members id (sort_objects os) ∙ value_of_sort os id d

unlisted_faults_none :
    (es : List Evidence) (signed : SignedManifest) (os : Objects) (text : String)
    → All (λ o. is_listed es o.0 ≡ true) os
    → unlisted_faults es (create_export_package signed os text) ≡ []
unfolding create_export_package unlisted_faults
unlisted_faults_none es signed os text h = unlisted_faults_sort es os h

trust_faults_none :
    (libs : Libraries) (r : TrustResolution) (digest key signature : String) (p : Package)
    → r.errors ≡ []
    → r.key_bytes ≡ some key
    → read manifest_sig p ≡ some signature
    → libs.signs key digest signature ≡ true
    → trust_faults libs r digest p ≡ []
trust_faults_none libs r digest key signature p e k s good =
    nil-append (map no_trust r.errors)
      (signature_faults libs digest r.key_bytes (read manifest_sig p)) (ap (map no_trust) e)
      (ap (λ x. signature_faults libs digest x (read manifest_sig p)) k
        ∙ ap (signature_faults libs digest (some key)) s
        ∙ passed (libs.signs key digest signature) unsigned good)

manifest_faultless :
    (libs : Libraries) (signer : Signer) (explicit : Option String) (store : TrustStore)
    (m : Manifest) (os : Objects) (text : String)
    → IsExportable libs signer explicit store m os
    → manifest_faults libs explicit store
        (create_export_package (sign_manifest libs signer m) os text)
        (libs.canonical m)
        m
      ≡ []
unfolding manifest_faults create_export_package sign_manifest read
manifest_faultless libs signer explicit store m os text k =
    let signed = sign_manifest libs signer m in
    let p = create_export_package signed os text in
    let items_are : items_of m ≡ map item k.evidence = let l = k.lists in ground arith in
    let es_are : valid_evidence (items_of m) ≡ k.evidence =
      ap valid_evidence items_are ∙ items_valid k.evidence in
    let array : is_array m ≡ true = let l = k.lists in ground arith in
    let digest = libs.hexdigest (libs.canonical m) in
    nil-append _ _
      (nil-append _ _
        (nil-append _ _
          (nil-append _ _
            (nil-append _ _
              (nil-append _ _
                (nil-append _ _
                  (nil-append _ _ (passed _ not_canonical (eq_refl (libs.canonical m)))
                    (passed _ bad_version ((eq_iff m.manifest_version "1.0").1 k.version_is)))
                  (passed _ bad_algorithm
                    ((eq_iff m.algorithm "RSASSA_PSS_SHA_256").1 k.algorithm_is)))
                (passed _ not_an_array array))
              (ap item_faults items_are ∙ items_faultless k.evidence))
            (passed _ unsorted (ap (λ es. same_list es (sort_evidence es)) es_are ∙ k.in_order)))
          (ap (λ es. object_faults libs es p) es_are
            ∙ object_faults_none libs k.evidence os p (λ id. read_object signed os text id k.dict)
                k.backed))
        (ap (λ es. unlisted_faults es p) es_are
          ∙ unlisted_faults_none k.evidence signed os text k.listed))
      (trust_faults_none libs
        (resolve_trusted_key libs.hexdigest explicit store (some signer.public_key_pem)) digest
        k.key (signer.sign_digest digest) p k.no_error k.key_is refl (k.signs digest))

-- A package that was created from a signed manifest verifies without a fault, when the manifest
-- lists its evidence in order and can be read back from its canonical text, the objects are those of
-- its items with their hashes, strip removes the line feed behind a hash, and the signer's key is
-- resolved to one that its signatures verify under.
pub verify_export_package-create_export_package :
    (libs : Libraries) (signer : Signer) (explicit : Option String) (store : TrustStore)
    (m : Manifest) (os : Objects) (text : String)
    → IsExportable libs signer explicit store m os
    → verify_export_package libs explicit store
        (create_export_package (sign_manifest libs signer m) os text)
      ≡ record { errors = []; digest = some (sign_manifest libs signer m).digest }
unfolding verify_export_package create_export_package sign_manifest read
verify_export_package-create_export_package libs signer explicit store m os text k =
    let p = create_export_package (sign_manifest libs signer m) os text in
    let fit = members_fit (sign_manifest libs signer m) os text k.dict in
    let none_found = manifest_faultless libs signer explicit store m os text k in
    let hash_ : str_eq (libs.hexdigest (libs.canonical m))
          (libs.strip (concat (libs.hexdigest (libs.canonical m) ∷ "\n" ∷ [])))
        ≡ true =
      (eq_iff (libs.hexdigest (libs.canonical m)) _).1 (sym (k.strips (libs.canonical m))) in
    let faults_none : unless (not (has_duplicates p)) duplicate_members
          ++ missing_members required_members p
        ≡ [] =
      nil-append _ _ (passed _ duplicate_members (ap not fit.0)) fit.1 in
    let nothing = nil-append _ _ (passed _ hash_mismatch hash_) none_found in
    let parses = k.parses in
    ap
      (λ x. elim x as (λ _. VerificationReport) [
        | [] ↦
            verify_bytes libs explicit store p (text_of (read manifest_json p))
              (text_of (read manifest_sha256 p))
        | (f ∷ fs) ↦ record { errors = f ∷ fs; digest = none }
      ])
      faults_none
    ∙ ap
        (λ x. elim x as (λ _. VerificationReport) [
          | none ↦ record {
            errors = not_json ∷ [];
            digest = some (libs.hexdigest (libs.canonical m));
          }
          | some n ↦ record {
            errors =
                unless
                  (str_eq (libs.hexdigest (libs.canonical m))
                    (libs.strip (concat (libs.hexdigest (libs.canonical m) ∷ "\n" ∷ []))))
                  hash_mismatch
                ++ manifest_faults libs explicit store p (libs.canonical m) n;
            digest = some (libs.hexdigest (libs.canonical m));
          }
        ])
        parses
    ∙ ap
        (λ es.
          let r : VerificationReport = record {
            errors = es;
            digest = some (libs.hexdigest (libs.canonical m));
          } in
          r)
        nothing
