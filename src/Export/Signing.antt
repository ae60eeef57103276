-- ===== src/Export/Signing.antt =====
-- libs/mirage_common/evidence_export.py: sign_manifest and create_export_package. The objects are a
-- dict from evidence identifiers to bytes.
pub mod Objects
pub mod RoundTrip
use Prim.Native.String.{compare}
use Prim.Native.Nat.{Ordering}
use mirageby_ai.Common.{
  ℕ, String, Bool, true, false, not, ◌&&◌, ◌||◌, Option, none, some, List, [], ◌∷◌, ◌++◌, map, any,
  str_eq, if◌then◌else◌,
}
use mirageby_ai.Contracts.Text.{concat}
use mirageby_ai.Export.Package.{
  Manifest, MemberName, manifest_json, manifest_sha256, manifest_sig, public_key, report, object,
  Package, Libraries,
}

pub record Signer : Type 0 where
  pub sign_digest : String → String
  pub public_key_pem : String

pub record SignedManifest : Type 0 where
  pub manifest : Manifest
  pub canonical_bytes : String
  pub digest : String
  pub signature : String
  pub public_key_pem : String

unfoldable pub sign_manifest : Libraries → Signer → Manifest → SignedManifest
sign_manifest libs signer m = record {
  manifest = m;
  canonical_bytes = libs.canonical m;
  digest = libs.hexdigest (libs.canonical m);
  signature = signer.sign_digest (libs.hexdigest (libs.canonical m));
  public_key_pem = signer.public_key_pem;
}

abbrev pub Objects : Type 0
Objects = List (String × String)

abbrev pub id_before : String × String → String × String → Bool
id_before a b = elim (compare a.0 b.0) [ Ordering.gt ↦ false | _ ↦ true ]

unfoldable pub insert_object : String × String → Objects → Objects
insert_object a [] = a ∷ []
insert_object a (b ∷ rest) =
    let later = insert_object a rest in if id_before a b then a ∷ b ∷ rest else b ∷ later

-- sorted(objects)
unfoldable pub sort_objects : Objects → Objects
sort_objects [] = []
sort_objects (a ∷ rest) = insert_object a (sort_objects rest)

unfoldable pub object_members : Objects → Package
object_members [] = []
object_members ((id, d) ∷ rest) = (object id, d) ∷ object_members rest

unfoldable pub create_export_package : SignedManifest → Objects → String → Package
create_export_package signed objects report_text =
    (manifest_json, signed.canonical_bytes)
    ∷ (manifest_sha256, concat (signed.digest ∷ "\n" ∷ []))
    ∷ (manifest_sig, signed.signature)
    ∷ (public_key, signed.public_key_pem)
    ∷ (report, report_text)
    ∷ object_members (sort_objects objects)
