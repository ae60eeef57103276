-- ===== src/Export/Trust.antt =====
-- libs/mirage_common/trust_anchor.py: resolve_trusted_key. A trust store is what its directory
-- holds; SHA-256 is a parameter.
use mirageby_ai.Common.{
  ◌≡◌, refl, sym, ap, ◌∙◌, String, Bool, true, false, Option, none, some, List, [], ◌∷◌, ◌⊎◌, inl,
  inr, arith, Bool-cases, Option-cases, any, str_eq, eq_iff, some_inj, none-ne-some, cons-ne-nil,
  if◌then◌else◌,
}
use mathlib.Core.Path.{subst}

-- revoked.json
pub data Revocations : Type 0 where
  absent malformed not_a_list : Revocations
  listed : List String → Revocations

-- The *.pem files in the order of their names
pub record TrustStore : Type 0 where
  pub pem_files : List String
  pub revoked_file : Revocations

pub data TrustError : Type 0 where
  no_anchor no_signer_key revoked not_trusted : TrustError

pub record TrustResolution : Type 0 where
  pub key_bytes : Option String
  pub fingerprint : Option String
  pub source : Option String
  pub errors : List TrustError

-- `_load_trust_store` as a dict: a later file with the fingerprint of an earlier one replaces it.
unfoldable pub trusted_key : (String → String) → String → List String → Option String
trusted_key sha256 print [] = none
trusted_key sha256 print (k ∷ ks) = elim (trusted_key sha256 print ks) [
  | some later ↦ some later
  | none ↦ if str_eq (sha256 k) print then some k else none
]

-- `_load_revoked`: a file that cannot be read revokes nothing.
unfoldable pub load_revoked : Revocations → List String
load_revoked absent = []
load_revoked malformed = []
load_revoked not_a_list = []
load_revoked (listed prints) = prints

abbrev pub is_revoked : TrustStore → String → Bool
is_revoked store print = any (λ p. str_eq p print) (load_revoked store.revoked_file)

abbrev pub untrusted : Option String → TrustError → TrustResolution
untrusted print e = record { key_bytes = none; fingerprint = print; source = none; errors = e ∷ [] }

abbrev pub trusted : String → String → String → TrustResolution
trusted key print source = record {
  key_bytes = some key;
  fingerprint = some print;
  source = some source;
  errors = [];
}

-- What the store says of a fingerprint
abbrev pub in_store : (String → String) → TrustStore → String → TrustResolution
in_store sha256 store print =
    if is_revoked store print
    then untrusted (some print) revoked
    else elim (trusted_key sha256 print store.pem_files) [
      | none ↦ untrusted (some print) not_trusted
      | some key ↦ trusted key print "trust-store"
    ]

-- resolve_trusted_key without an explicit key
abbrev pub from_store : (String → String) → TrustStore → Option String → TrustResolution
from_store sha256 store embedded = elim store.pem_files [
  | [] ↦ untrusted none no_anchor
  | (k ∷ ks) ↦ elim embedded [
    | none ↦ untrusted none no_signer_key
    | some key ↦ in_store sha256 store (sha256 key)
  ]
]

unfoldable pub resolve_trusted_key :
    (String → String) → Option String → TrustStore → Option String → TrustResolution
resolve_trusted_key sha256 (some key) store embedded = trusted key (sha256 key) "explicit-key"
resolve_trusted_key sha256 none store embedded = from_store sha256 store embedded

trusted_key_sound :
    (sha256 : String → String) (print : String) (keys : List String) (k : String)
    → trusted_key sha256 print keys ≡ some k
    → (any (λ x. str_eq x k) keys ≡ true) × (sha256 k ≡ print)
unfolding trusted_key
trusted_key_sound sha256 print [] k h = absurd (none-ne-some k h)
trusted_key_sound sha256 print (x ∷ keys) k h =
    elim (Option-cases (trusted_key sha256 print keys)) [
      | inr (later, e) ↦
          let own = trusted_key_sound sha256 print keys k (ground arith) in
          (ground (arith, own.0), own.1)
      | inl e ↦
          let hit : str_eq (sha256 x) print ≡ true = ground arith in
          let same : x ≡ k = some_inj x k (ground arith) in
          (
            ground (arith, (eq_iff x k).1 same),
            ap sha256 (sym same) ∙ (eq_iff (sha256 x) print).0 hit,
          )
    ]

-- Who vouches for a key: the caller, or the store, which has the key's own bytes, with the
-- fingerprint of the embedded key and not revoked.
pub record IsInStore (sha256 : String → String) (store : TrustStore) (embedded : Option String)
    (k : String) : Type 0 where
  pub signer : String
  pub embedded_is : embedded ≡ some signer
  pub held : any (λ x. str_eq x k) store.pem_files ≡ true
  pub same_print : sha256 k ≡ sha256 signer
  pub not_revoked : is_revoked store (sha256 k) ≡ false

abbrev pub IsVouched :
    (String → String) → Option String → TrustStore → Option String → String → Type 0
IsVouched sha256 explicit store embedded k =
    (explicit ≡ some k) ⊎ ((explicit ≡ none) × IsInStore sha256 store embedded k)

in_store-IsInStore :
    (sha256 : String → String) (store : TrustStore) (signer k : String)
    → (in_store sha256 store (sha256 signer)).key_bytes ≡ some k
    → IsInStore sha256 store (some signer) k
in_store-IsInStore sha256 store signer k h = elim (Bool-cases (is_revoked store (sha256 signer))) [
  | inl e ↦ absurd (ground arith)
  | inr e ↦ elim (Option-cases (trusted_key sha256 (sha256 signer) store.pem_files)) [
    | inl n ↦ absurd (ground arith)
    | inr (x, found) ↦
        let same : x ≡ k = some_inj x k (ground arith) in
        let own =
          trusted_key_sound sha256 (sha256 signer) store.pem_files k (found ∙ ap some same) in
        record {
          signer = signer;
          embedded_is = refl;
          held = own.0;
          same_print = own.1;
          not_revoked = ap (is_revoked store) own.1 ∙ e;
        }
  ]
]

-- A resolution has a key that is vouched for, or an error.
abbrev IsSound :
    (String → String) → Option String → TrustStore → Option String → TrustResolution → Type 0
IsSound sha256 explicit store embedded r =
    ((k : String) → r.key_bytes ≡ some k → IsVouched sha256 explicit store embedded k)
    × (r.errors ≡ [] → (k : String) × (r.key_bytes ≡ some k))

untrusted-IsSound :
    (sha256 : String → String) (explicit : Option String) (store : TrustStore)
    (embedded print : Option String) (e : TrustError)
    → IsSound sha256 explicit store embedded (untrusted print e)
untrusted-IsSound sha256 explicit store embedded print e =
    (λ k h. absurd (none-ne-some k h), λ h. absurd (cons-ne-nil e [] h))

in_store_key :
    (sha256 : String → String) (store : TrustStore) (print : String)
    → (in_store sha256 store print).errors ≡ []
    → (k : String) × ((in_store sha256 store print).key_bytes ≡ some k)
in_store_key sha256 store print h = elim (Bool-cases (is_revoked store print)) [
  | inl e ↦ absurd (ground arith)
  | inr e ↦ elim (Option-cases (trusted_key sha256 print store.pem_files)) [
    | inl n ↦ absurd (ground arith)
    | inr (x, found) ↦ (x, ground arith)
  ]
]

from_store-IsSound :
    (sha256 : String → String) (store : TrustStore) (embedded : Option String) (files : List String)
    → store.pem_files ≡ files
    → IsSound sha256 none store embedded (from_store sha256 store embedded)
from_store-IsSound sha256 store embedded [] h =
    subst (IsSound sha256 none store embedded)
      (let same : untrusted none no_anchor ≡ from_store sha256 store embedded = ground arith in
        same)
      (untrusted-IsSound sha256 none store embedded none no_anchor)
from_store-IsSound sha256 store none (k ∷ ks) h =
    subst (IsSound sha256 none store none)
      (let same : untrusted none no_signer_key ≡ from_store sha256 store none = ground arith in
        same)
      (untrusted-IsSound sha256 none store none none no_signer_key)
from_store-IsSound sha256 store (some signer) (k ∷ ks) h =
    subst (IsSound sha256 none store (some signer))
      (let same : in_store sha256 store (sha256 signer) ≡ from_store sha256 store (some signer) =
          ground arith in
        same)
      (
        λ x found. inr (refl, in_store-IsInStore sha256 store signer x found),
        in_store_key sha256 store (sha256 signer),
      )

-- A key that is resolved is one that the caller gave, or, without one, a key of the store with the
-- fingerprint of the embedded key, which is not revoked; a key that only the package brings is never
-- used. Where none is resolved there is an error.
pub resolve_trusted_key-IsVouched :
    (sha256 : String → String) (explicit : Option String) (store : TrustStore)
    (embedded : Option String)
    → let r = resolve_trusted_key sha256 explicit store embedded in
      ((k : String) → r.key_bytes ≡ some k → IsVouched sha256 explicit store embedded k)
      × (r.errors ≡ [] → (k : String) × (r.key_bytes ≡ some k))
unfolding resolve_trusted_key
resolve_trusted_key-IsVouched sha256 (some key) store embedded = (λ k h. inl h, λ h. (key, refl))
resolve_trusted_key-IsVouched sha256 none store embedded =
    from_store-IsSound sha256 store embedded store.pem_files refl
