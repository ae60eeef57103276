-- ===== src/Export/Tests.antt =====
-- Exports on small data: a package is created, verified and altered.
use mirageby_ai.Common.{ℕ, ◌≡◌, refl, String, true, ◌&&◌, none, some, [], ◌∷◌, str_eq}
use mirageby_ai.Contracts.Json.{Json}
use mirageby_ai.Export.Trust.{
  TrustStore, absent, listed, resolve_trusted_key, trusted_key, load_revoked, revoked,
}
use mirageby_ai.Export.Package.{
  Evidence, Item, item, Manifest, MemberName, object, Package, Libraries, sort_evidence, insert,
  is_valid, verify_export_package, VerificationReport, read, has_duplicates, missing_members,
  manifest_faults, valid_evidence, item_faults, object_faults, unlisted_faults,
}
use mirageby_ai.Export.Package.Integrity.{IsVerified, verify_export_package-IsVerified}
use mirageby_ai.Export.Signing.{
  Signer, sign_manifest, create_export_package, sort_objects, insert_object, object_members,
  Objects,
}
use mirageby_ai.Export.Signing.RoundTrip.{IsExportable, verify_export_package-create_export_package}

abbrev evidence : String → ℕ → Evidence
evidence id n = record {
  evidence_id = id;
  evidence_type = "log";
  acquisition_time = "t";
  source_id = "s";
  source_sequence = n;
  sha256 = "h";
  s3_version_id = "v";
}

abbrev manifest : Manifest
manifest = record {
  manifest_version = "1.0";
  algorithm = "RSASSA_PSS_SHA_256";
  evidence_objects = some (item (evidence "b" 1) ∷ item (evidence "a" 2) ∷ []);
  rest = Json.null;
}

abbrev libraries : Libraries
libraries = record {
  hexdigest = λ s. "h";
  canonical = λ m. "manifest";
  loads = λ s. some manifest;
  strip = λ s. "h";
  signs = λ key d s. str_eq key "key" && str_eq s "signed";
}

abbrev signer : Signer
signer = record { sign_digest = λ d. "signed"; public_key_pem = "key" }

abbrev store : TrustStore
store = record { pem_files = "key" ∷ []; revoked_file = absent }

abbrev objects : Objects
objects = ("b", "log b") ∷ ("a", "log a") ∷ []

abbrev exported : Package
exported = create_export_package (sign_manifest libraries signer manifest) objects "report"

manifest-IsExportable : IsExportable libraries signer none store manifest objects
unfolding sort_evidence insert resolve_trusted_key trusted_key load_revoked
manifest-IsExportable = record {
  evidence = evidence "b" 1 ∷ evidence "a" 2 ∷ [];
  lists = refl;
  in_order = refl;
  version_is = refl;
  algorithm_is = refl;
  parses = refl;
  strips = λ s. refl;
  dict = (refl, (refl, tt));
  backed = (("log b", refl, refl), (("log a", refl, refl), tt));
  listed = (refl, (refl, tt));
  key = "key";
  key_is = refl;
  no_error = refl;
  signs = λ d. refl;
}

verify_export_package-create_export_package_example :
    verify_export_package libraries none store exported
    ≡ record { errors = []; digest = some (sign_manifest libraries signer manifest).digest }
verify_export_package-create_export_package_example =
    verify_export_package-create_export_package libraries signer none store manifest objects
      "report" manifest-IsExportable

-- A package whose signer is revoked does not verify.
revoked_run :
    (verify_export_package libraries none
      (record { pem_files = "key" ∷ []; revoked_file = listed ("h" ∷ []) })
      exported).errors
    ≡ mirageby_ai.Export.Package.no_trust revoked ∷ []
unfolding verify_export_package create_export_package sign_manifest sort_objects insert_object
    object_members read has_duplicates missing_members manifest_faults valid_evidence item_faults
    sort_evidence insert object_faults unlisted_faults resolve_trusted_key trusted_key load_revoked
revoked_run = refl

verify_run : is_valid (verify_export_package libraries none store exported) ≡ true
unfolding verify_export_package create_export_package sign_manifest sort_objects insert_object
    object_members read has_duplicates missing_members manifest_faults valid_evidence item_faults
    sort_evidence insert object_faults unlisted_faults resolve_trusted_key trusted_key load_revoked
verify_run = refl

verify_export_package-IsVerified_example : IsVerified libraries none store exported
verify_export_package-IsVerified_example =
    verify_export_package-IsVerified libraries none store exported verify_run
