-- ===== src/Artifacts/Tests.antt =====
-- Runs of the artifact checks, and the properties at concrete inputs.
use mirageby_ai.Common.{ℕ, ◌≡◌, refl, String, true, false, [], ◌∷◌}
use mirageby_ai.Common.Exec.{ok, err}
use mirageby_ai.Contracts.Text.{codes}
use mirageby_ai.EnvController.Paths.{segments, resolve_from}
use mirageby_ai.Artifacts.Archive.{
  ArtifactScannerConfig, policy, ZipEntry, File, plain, zipped, zip_end, zip_member, Totals,
  inspect, inspect_archive, add_member, escapes,
}
use mirageby_ai.Artifacts.Archive.Bounds.{IsWithinLimits, inspect_archive-IsWithinLimits}
use mirageby_ai.Artifacts.Scan.{
  exited, unavailable, clean, Tools, Artifact, scan, clamav, yara, oletools, verdict, Deployment,
  validate_deployment,
}
use mirageby_ai.Artifacts.Scan.Policy.{IsCleared, scan-IsCleared}

abbrev config : ArtifactScannerConfig
config = record {
  max_upload_mb = 1;
  max_archive_depth = 2;
  max_archive_members = 3;
  max_expanded_mb = 1;
  max_compression_ratio = 100;
  per_member_max_mb = 1;
}

abbrev entry : String → ℕ → ℕ → ZipEntry
entry filename size compressed = record {
  filename = filename;
  is_symlink = false;
  is_encrypted = false;
  is_dir = false;
  file_size = size;
  compress_size = compressed;
}

-- A zip with a text and a zip in it
abbrev nested : File
nested = zipped (
    zip_member (entry "a.txt" 500 50) plain (
      zip_member (entry "b.zip" 40 40) (zipped (zip_member (entry "c" 30 3) plain zip_end))
        zip_end))

abbrev nested_totals : Totals
nested_totals = record {
  members = 3;
  expanded_bytes = 570;
  compressed_bytes = 93;
  max_depth_seen = 2;
}

nested_run : inspect_archive config nested ≡ ok nested_totals
unfolding inspect_archive inspect add_member escapes segments
nested_run = refl

traversal_run :
    inspect_archive config (zipped (zip_member (entry "x\\..\\..\\y" 1 1) plain zip_end))
    ≡ err (policy "archive path traversal rejected")
unfolding inspect_archive inspect add_member escapes segments
traversal_run = refl

inspect_archive-IsWithinLimits_example : IsWithinLimits config nested nested_totals
inspect_archive-IsWithinLimits_example =
    inspect_archive-IsWithinLimits config nested nested_totals (λ e. cc) nested_run

abbrev tools : Tools
tools = record {
  clamscan = exited 0 [];
  yara_run = exited 0 [];
  oleid = unavailable;
  out_of_time = false;
}

abbrev artifact : Artifact
artifact = record { file = nested; detected_type = "application/zip"; is_office = false }

scan_run : (scan config tools artifact false).status ≡ clean
unfolding scan clamav yara oletools verdict inspect_archive inspect add_member escapes segments
scan_run = refl

scan-IsCleared_example : IsCleared config tools artifact (scan config tools artifact false)
scan-IsCleared_example = scan-IsCleared config tools artifact false scan_run

abbrev deployment : Deployment
deployment = record {
  scan_status = "CLEAN";
  approved_for_deployment = true;
  classification = "INERT";
  destination = codes "decoy" ∷ codes "a" ∷ [];
  allowed_roots = (codes "decoy" ∷ []) ∷ [];
  expected_sha256 = "h";
  observed_sha256 = "h";
}

deployment_run : validate_deployment deployment ≡ ok tt
unfolding validate_deployment resolve_from
deployment_run = refl
