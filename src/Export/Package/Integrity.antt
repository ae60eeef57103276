-- ===== src/Export/Package/Integrity.antt =====
-- What a package that verifies is known to be.
use mirageby_ai.Common.{
  ◌≡◌, refl, ap, ◌∙◌, String, Bool, true, false, not, Option, none, some, List, [], ◌∷◌, ◌++◌, map,
  inl, inr, arith, Option-cases, List-cases, All, str_eq, eq_iff, cons-ne-nil,
}
use mathlib.Core.Path.{subst}
use mirageby_ai.Export.Trust.{
  TrustStore, resolve_trusted_key, IsVouched, resolve_trusted_key-IsVouched,
}
use mirageby_ai.Export.Package.{
  Evidence, Item, item, not_an_object, missing_fields, invalid_types, Manifest, MemberName,
  manifest_json, manifest_sha256, manifest_sig, public_key, report, object, other, Package,
  Libraries, sort_evidence, read, has, has_duplicates, Fault, unless, required_members,
  missing_members, valid_evidence, item_faults, same_list, object_faults, is_listed,
  unlisted_faults, missing_member, signature_faults, trust_faults, items_of, is_array,
  manifest_faults, VerificationReport, is_valid, verify_bytes, verify_export_package, no_trust,
  duplicate_members, object_mismatch, unlisted, unsorted, not_an_array, bad_algorithm, bad_version,
  hash_mismatch,
}

append-inv : {A : Type 0} (xs ys : List A) → xs ++ ys ≡ [] → (xs ≡ []) × (ys ≡ [])
append-inv [] ys h = (refl, h)
append-inv (x ∷ xs) ys h = absurd (cons-ne-nil x (xs ++ ys) h)

unless_nil : (b : Bool) (f : Fault) → unless b f ≡ [] → b ≡ true
unless_nil true f h = refl
unless_nil false f h = absurd (cons-ne-nil f [] h)

not_duplicated : (b : Bool) → not b ≡ true → b ≡ false
not_duplicated b h = ground arith

map_nil : {A B : Type 0} (f : A → B) (xs : List A) → map f xs ≡ [] → xs ≡ []
map_nil f [] h = refl
map_nil f (x ∷ xs) h = absurd (cons-ne-nil (f x) (map f xs) h)

-- Of an item its object is there, with the recorded hash.
abbrev pub IsStored : Libraries → Package → Evidence → Type 0
IsStored libs p e =
    (d : String) × (read (object e.evidence_id) p ≡ some d) × (libs.hexdigest d ≡ e.sha256)

-- Of an object some item has its identifier.
abbrev pub IsNamed : List Evidence → MemberName × String → Type 0
IsNamed es (object id, d) = is_listed es id ≡ true
IsNamed es (n, d) = Unit

object_faults_nil :
    (libs : Libraries) (es : List Evidence) (p : Package)
    → object_faults libs es p ≡ []
    → All (IsStored libs p) es
unfolding object_faults
object_faults_nil libs [] p h = tt
object_faults_nil libs (e ∷ es) p h = elim (Option-cases (read (object e.evidence_id) p)) [
  | inl n ↦ absurd (ground arith)
  | inr (d, found) ↦
      let parts =
        append-inv
          (unless (str_eq (libs.hexdigest d) e.sha256) (object_mismatch (object e.evidence_id)))
          (object_faults libs es p) (ground arith) in
      (
        (d, found, (eq_iff (libs.hexdigest d) e.sha256).0 (unless_nil _ _ parts.0)),
        object_faults_nil libs es p parts.1,
      )
]

unlisted_faults_nil :
    (es : List Evidence) (p : Package) → unlisted_faults es p ≡ [] → All (IsNamed es) p
unfolding unlisted_faults
unlisted_faults_nil es [] h = tt
unlisted_faults_nil es ((object id, d) ∷ rest) h =
    let parts =
      append-inv (unless (is_listed es id) (unlisted (object id))) (unlisted_faults es rest) h in
    (unless_nil _ _ parts.0, unlisted_faults_nil es rest parts.1)
unlisted_faults_nil es ((manifest_json, d) ∷ rest) h = (tt, unlisted_faults_nil es rest h)
unlisted_faults_nil es ((manifest_sha256, d) ∷ rest) h = (tt, unlisted_faults_nil es rest h)
unlisted_faults_nil es ((manifest_sig, d) ∷ rest) h = (tt, unlisted_faults_nil es rest h)
unlisted_faults_nil es ((public_key, d) ∷ rest) h = (tt, unlisted_faults_nil es rest h)
unlisted_faults_nil es ((report, d) ∷ rest) h = (tt, unlisted_faults_nil es rest h)
unlisted_faults_nil es ((other n, d) ∷ rest) h = (tt, unlisted_faults_nil es rest h)

item_faults_nil :
    (items : List Item) → item_faults items ≡ [] → items ≡ map item (valid_evidence items)
unfolding item_faults valid_evidence
item_faults_nil [] h = refl
item_faults_nil (item e ∷ rest) h = ap (λ l. item e ∷ l) (item_faults_nil rest h)
item_faults_nil (not_an_object ∷ rest) h = absurd (cons-ne-nil _ _ h)
item_faults_nil (missing_fields ∷ rest) h = absurd (cons-ne-nil _ _ h)
item_faults_nil (invalid_types ∷ rest) h = absurd (cons-ne-nil _ _ h)

-- The members that were found: the manifest's bytes and the text of its recorded hash
abbrev IsComplete : Package → String → String → Type 0
IsComplete p bytes recorded =
    (has_duplicates p ≡ false)
    × (read manifest_json p ≡ some bytes)
    × (read manifest_sha256 p ≡ some recorded)
    × ((d : String) × (read report p ≡ some d))

missing_members_nil :
    (ns : List MemberName) (p : Package)
    → missing_members ns p ≡ []
    → All (λ n. (d : String) × (read n p ≡ some d)) ns
unfolding missing_members
missing_members_nil [] p h = tt
missing_members_nil (n ∷ ns) p h =
    let parts = append-inv (unless (has p n) (missing_member n)) (missing_members ns p) h in
    let there = unless_nil _ _ parts.0 in
    (
      elim (Option-cases (read n p)) [ inl e ↦ absurd (ground arith) | inr known ↦ known ],
      missing_members_nil ns p parts.1,
    )

-- Of a package: its manifest and what binds the members to it
pub record IsVerified (libs : Libraries) (explicit : Option String) (store : TrustStore)
    (p : Package) : Type 0 where
  pub manifest : Manifest
  pub bytes : String
  pub recorded : String
  pub evidence : List Evidence
  pub unique : has_duplicates p ≡ false
  pub bytes_are : read manifest_json p ≡ some bytes
  pub recorded_is : read manifest_sha256 p ≡ some recorded
  pub reported : (d : String) × (read report p ≡ some d)
  pub read_from : libs.loads bytes ≡ some manifest
  pub canonical_is : libs.canonical manifest ≡ bytes
  pub recorded_hash : libs.hexdigest bytes ≡ libs.strip recorded
  pub version_is : manifest.manifest_version ≡ "1.0"
  pub algorithm_is : manifest.algorithm ≡ "RSASSA_PSS_SHA_256"
  pub lists : manifest.evidence_objects ≡ some (map item evidence)
  pub in_order : same_list evidence (sort_evidence evidence) ≡ true
  pub stored : All (IsStored libs p) evidence
  pub named : All (IsNamed evidence) p
  pub key : String
  pub vouched : IsVouched libs.hexdigest explicit store (read public_key p) key
  pub signature : String
  pub signature_is : read manifest_sig p ≡ some signature
  pub signed : libs.signs key (libs.hexdigest bytes) signature ≡ true

signature_faults_nil :
    (libs : Libraries) (digest key : String) (s : Option String)
    → signature_faults libs digest (some key) s ≡ []
    → (x : String) × (s ≡ some x) × (libs.signs key digest x ≡ true)
signature_faults_nil libs digest key none h = absurd (cons-ne-nil _ _ h)
signature_faults_nil libs digest key (some x) h = (x, refl, unless_nil _ _ h)

array_known : (m : Manifest) → is_array m ≡ true → m.evidence_objects ≡ some (items_of m)
array_known m h = elim (Option-cases m.evidence_objects) [
  | inl e ↦ absurd (ground arith)
  | inr (items, e) ↦ ground arith
]

-- A signature under a key that is vouched for
abbrev Signed : Libraries → Option String → TrustStore → Package → String → Type 0
Signed libs explicit store p digest =
    (key : String) × IsVouched libs.hexdigest explicit store (read public_key p) key
    × (s : String) × (read manifest_sig p ≡ some s)
    × (libs.signs key digest s ≡ true)

trust_faults_nil :
    (libs : Libraries) (explicit : Option String) (store : TrustStore) (digest : String)
    (p : Package)
    → trust_faults libs
        (resolve_trusted_key libs.hexdigest explicit store (read public_key p))
        digest
        p
      ≡ []
    → Signed libs explicit store p digest
trust_faults_nil libs explicit store digest p h =
    let r = resolve_trusted_key libs.hexdigest explicit store (read public_key p) in
    let parts =
      append-inv (map no_trust r.errors)
        (signature_faults libs digest r.key_bytes (read manifest_sig p)) h in
    let sound = resolve_trusted_key-IsVouched libs.hexdigest explicit store (read public_key p) in
    let (key, found) = sound.1 (map_nil no_trust r.errors parts.0) in
    let (s, present, good) =
      signature_faults_nil libs digest key (read manifest_sig p)
        (subst (λ k. signature_faults libs digest k (read manifest_sig p) ≡ []) found parts.1) in
    (key, sound.0 key found, s, present, good)

manifest_faults_nil :
    (libs : Libraries) (explicit : Option String) (store : TrustStore) (p : Package) (m : Manifest)
    (bytes recorded : String)
    → IsComplete p bytes recorded
    → libs.loads bytes ≡ some m
    → libs.hexdigest bytes ≡ libs.strip recorded
    → manifest_faults libs explicit store p bytes m ≡ []
    → IsVerified libs explicit store p
unfolding manifest_faults
manifest_faults_nil libs explicit store p m bytes recorded complete loaded hashed h =
    let es = valid_evidence (items_of m) in
    let a =
      append-inv _
        (trust_faults libs (resolve_trusted_key libs.hexdigest explicit store (read public_key p))
          (libs.hexdigest bytes) p)
        h in
    let b = append-inv _ (unlisted_faults es p) a.0 in
    let c = append-inv _ (object_faults libs es p) b.0 in
    let d = append-inv _ (unless (same_list es (sort_evidence es)) unsorted) c.0 in
    let e = append-inv _ (item_faults (items_of m)) d.0 in
    let f = append-inv _ (unless (is_array m) not_an_array) e.0 in
    let g = append-inv _ (unless (str_eq m.algorithm "RSASSA_PSS_SHA_256") bad_algorithm) f.0 in
    let i = append-inv _ (unless (str_eq m.manifest_version "1.0") bad_version) g.0 in
    let (key, vouched, s, present, good) =
      trust_faults_nil libs explicit store (libs.hexdigest bytes) p a.1 in
    record {
      manifest = m;
      bytes = bytes;
      recorded = recorded;
      evidence = es;
      unique = complete.0;
      bytes_are = complete.1;
      recorded_is = complete.2;
      reported = complete.3;
      read_from = loaded;
      canonical_is = (eq_iff (libs.canonical m) bytes).0 (unless_nil _ _ i.0);
      recorded_hash = hashed;
      version_is = (eq_iff m.manifest_version "1.0").0 (unless_nil _ _ i.1);
      algorithm_is = (eq_iff m.algorithm "RSASSA_PSS_SHA_256").0 (unless_nil _ _ g.1);
      lists = array_known m (unless_nil _ _ f.1) ∙ ap some (item_faults_nil (items_of m) e.1);
      in_order = unless_nil _ _ d.1;
      stored = object_faults_nil libs es p c.1;
      named = unlisted_faults_nil es p b.1;
      key = key;
      vouched = vouched;
      signature = s;
      signature_is = present;
      signed = good;
    }

valid_nil : (r : VerificationReport) → is_valid r ≡ true → r.errors ≡ []
valid_nil r h = elim (List-cases r.errors) [ inl e ↦ e | inr (f, fs, e) ↦ absurd (ground arith) ]

verify_bytes-IsVerified :
    (libs : Libraries) (explicit : Option String) (store : TrustStore) (p : Package)
    (bytes recorded : String)
    → IsComplete p bytes recorded
    → is_valid (verify_bytes libs explicit store p bytes recorded) ≡ true
    → IsVerified libs explicit store p
verify_bytes-IsVerified libs explicit store p bytes recorded complete h =
    elim (Option-cases (libs.loads bytes)) [
      | inl e ↦ absurd (ground arith)
      | inr (m, e) ↦
          let hashes = unless (str_eq (libs.hexdigest bytes) (libs.strip recorded)) hash_mismatch in
          let faults = manifest_faults libs explicit store p bytes m in
          let nothing : hashes ++ faults ≡ [] =
            valid_nil (record { errors = hashes ++ faults; digest = some (libs.hexdigest bytes) })
              (ground arith) in
          let parts = append-inv hashes faults nothing in
          manifest_faults_nil libs explicit store p m bytes recorded complete e
            ((eq_iff (libs.hexdigest bytes) (libs.strip recorded)).0 (unless_nil _ _ parts.0))
            parts.1
    ]

-- A package that verifies has no two members of one name, and has its report; its manifest.json is
-- in canonical form, of the known version and algorithm, with the hash that its manifest.sha256
-- records; each item
-- of it is well formed, in the order of sort_evidence, and has its object in the package with the
-- hash that the manifest states; every object of the package has its item; and the manifest's hash is
-- signed under a key that the caller gave or that the trust store holds and has not revoked.
pub verify_export_package-IsVerified :
    (libs : Libraries) (explicit : Option String) (store : TrustStore) (p : Package)
    → is_valid (verify_export_package libs explicit store p) ≡ true
    → IsVerified libs explicit store p
unfolding verify_export_package
verify_export_package-IsVerified libs explicit store p h =
    elim (List-cases
      (unless (not (has_duplicates p)) duplicate_members ++ missing_members required_members p)) [
        | inr (f, fs, e) ↦ absurd (ground arith)
        | inl e ↦
            let parts =
              append-inv (unless (not (has_duplicates p)) duplicate_members)
                (missing_members required_members p) e in
            let there = missing_members_nil required_members p parts.1 in
            let bytes = there.0 in
            let recorded = there.1.0 in
            verify_bytes-IsVerified libs explicit store p bytes.0 recorded.0
              (
                not_duplicated (has_duplicates p) (unless_nil _ _ parts.0),
                bytes.1,
                recorded.1,
                there.1.1.1.0,
              )
              (ground (arith, bytes.1, recorded.1))
      ]
