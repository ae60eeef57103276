-- ===== src/Artifacts/Scan.antt =====
-- libs/mirage_common/artifacts.py: ArtifactScanner.scan, the observation levels and
-- validate_deployment. What the tools answer is a parameter; texts of details are left out.
pub mod Policy
use mirageby_ai.Common.{
  ℕ, zero, suc, ◌+◌, ◌≤◌, String, Bool, true, false, not, ◌&&◌, ◌||◌, Option, none, some, List, [],
  ◌∷◌, ◌++◌, any, str_eq, if◌then◌else◌,
}
use mirageby_ai.Common.Exec.{Result, ok, err}
use mirageby_ai.EnvController.Paths.{FilePath, resolve, is_under}
use mirageby_ai.Artifacts.Archive.{
  ArtifactScannerConfig, ArtifactError, not_deployable, too_large, File, plain, Totals,
  inspect_archive,
}

abbrev pub one_of : List String → String → Bool
one_of set s = any (λ t. str_eq t s) set

abbrev pub when : Bool → String → List String
when true level = level ∷ []
when false level = []

unfoldable pub observation_levels : String → Bool → List String
observation_levels media_type canary_enabled =
    "L1"
      ∷ when
          (one_of
            ("application/x-dosexec" ∷ "application/x-executable" ∷ "application/x-mach-binary"
              ∷ "application/x-msdownload" ∷ [])
            media_type)
          "L2"
    ++ when canary_enabled "L3"
    ++ when
        (one_of
          ("application/zip" ∷ "application/pdf"
            ∷ "application/vnd.openxmlformats-officedocument.wordprocessingml.document"
            ∷ "application/vnd.openxmlformats-officedocument.spreadsheetml.sheet" ∷ [])
          media_type)
        "L4"
    ++ when (one_of ("application/pdf" ∷ "text/plain" ∷ "text/html" ∷ []) media_type) "L5"

-- How a tool ended: it is not installed or not configured, it timed out, or it exited with a code
-- and the distinct first words of its lines, sorted.
pub data ToolRun : Type 0 where
  unavailable : ToolRun
  timed_out : ToolRun
  exited : ℕ → List String → ToolRun

pub data Status : Type 0 where
  clean suspicious malicious failed complete not_applicable not_run : Status

-- `_clamav`
unfoldable pub clamav : ToolRun → Status
clamav (exited zero out) = clean
clamav (exited (suc zero) out) = malicious
clamav (exited (suc (suc n)) out) = failed
clamav unavailable = failed
clamav timed_out = failed

-- `_yara`
unfoldable pub yara : ToolRun → Option (List String)
yara (exited zero out) = some out
yara (exited (suc zero) out) = some out
yara (exited (suc (suc n)) out) = none
yara unavailable = none
yara timed_out = none

-- `_oletools`, for an Office file or another
unfoldable pub oletools : Bool → ToolRun → Status
oletools false run = not_applicable
oletools true (exited zero out) = complete
oletools true (exited (suc n) out) = failed
oletools true unavailable = failed
oletools true timed_out = failed

-- The tools on a file, and whether the total time ran out before one of them
pub record Tools : Type 0 where
  pub clamscan : ToolRun
  pub yara_run : ToolRun
  pub oleid : ToolRun
  pub out_of_time : Bool

pub record ScanResult : Type 0 where
  pub status : Status
  pub detected_type : String
  pub clamav_result : Status
  pub yara_matches : List String
  pub oletools_result : Status
  pub archive_totals : Option Totals
  pub archive_error : Option ArtifactError
  pub observed : List String

pub record Artifact : Type 0 where
  pub file : File
  pub detected_type : String
  pub is_office : Bool

abbrev pub is_failed : Status → Bool
is_failed failed = true
is_failed s = false

-- The status from the tools' answers
unfoldable pub verdict : Status → Option (List String) → Status → Status
verdict malicious y o = malicious
verdict failed y o = failed
verdict c none o = failed
verdict c (some []) o = if is_failed o then failed else clean
verdict c (some (m ∷ ms)) o = if is_failed o then failed else suspicious

abbrev pub matches : Option (List String) → List String
matches none = []
matches (some ms) = ms

-- zipfile.is_zipfile or tarfile.is_tarfile, then inspect_archive
abbrev pub inspected : ArtifactScannerConfig → File → Result ArtifactError (Option Totals)
inspected c plain = ok none
inspected c f = elim (inspect_archive c f) [ ok t ↦ ok (some t) | err e ↦ err e ]

abbrev pub result_of :
    Artifact
    → Bool
    → Status
    → Status
    → List String
    → Status
    → Option Totals
    → Option ArtifactError
    → ScanResult
result_of a canary s c ys o t e = record {
  status = s;
  detected_type = a.detected_type;
  clamav_result = c;
  yara_matches = ys;
  oletools_result = o;
  archive_totals = t;
  archive_error = e;
  observed = observation_levels a.detected_type canary;
}

-- After the archive's inspection
abbrev pub scanned : Tools → Artifact → Bool → Option Totals → ScanResult
scanned tools a canary totals =
    if tools.out_of_time
    then result_of a canary failed failed [] not_run totals none
    else let c = clamav tools.clamscan in
      let y = yara tools.yara_run in
      let o = oletools a.is_office tools.oleid in
      result_of a canary (verdict c y o) c (matches y) o totals none

-- ArtifactScanner.scan
unfoldable pub scan : ArtifactScannerConfig → Tools → Artifact → Bool → ScanResult
scan config tools a canary = elim (inspected config a.file) [
  | err e ↦ result_of a canary malicious not_run [] not_run none (some e)
  | ok totals ↦ scanned tools a canary totals
]

pub record Deployment : Type 0 where
  pub scan_status : String
  pub approved_for_deployment : Bool
  pub classification : String
  pub destination : FilePath
  pub allowed_roots : List FilePath
  pub expected_sha256 : String
  pub observed_sha256 : String

-- validate_deployment
unfoldable pub validate_deployment : Deployment → Result ArtifactError (Unit {0})
validate_deployment d =
    if not (one_of ("CLEAN" ∷ "APPROVED" ∷ []) d.scan_status) || not d.approved_for_deployment
    then err (not_deployable "artifact is not approved for deployment")
    else if not (one_of ("INERT" ∷ "CONTROLLED" ∷ []) d.classification)
    then err (not_deployable "only inert or controlled artifacts may deploy")
    else if not (any (λ root. is_under (resolve root) (resolve d.destination)) d.allowed_roots)
    then err (not_deployable "destination is outside approved mutation roots")
    else if not (str_eq d.expected_sha256 d.observed_sha256)
    then err (not_deployable "downloaded artifact SHA-256 mismatch")
    else ok tt
