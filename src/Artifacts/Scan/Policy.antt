-- ===== src/Artifacts/Scan/Policy.antt =====
-- When a scan answers CLEAN, and when a deployment is let through.
use mirageby_ai.Common.{
  zero, suc, ◌≡◌, ◌≢◌, refl, sym, ◌∙◌, ◌↔◌, String, Bool, true, false, Option, none, some, List, [],
  ◌∷◌, ◌⊎◌, inl, inr, arith, Bool-cases, str_eq, eq_iff, ap, some_inj, none-ne-some,
}
use mirageby_ai.Common.Exec.{Result-cases, Result, ok, err}
use mirageby_ai.EnvController.Paths.{resolve, in_roots}
use mirageby_ai.Artifacts.Archive.{
  ArtifactScannerConfig, ArtifactError, File, plain, locked, zipped, tarred, Totals,
  inspect_archive,
}
use mirageby_ai.Artifacts.Archive.Bounds.{IsWithinLimits, inspect_archive-IsWithinLimits}
use mirageby_ai.Artifacts.Scan.{
  ToolRun, exited, timed_out, unavailable, Status, clean, Tools, ScanResult, Artifact, clamav, yara,
  oletools, verdict, scan, inspected, is_failed, Deployment, validate_deployment, one_of,
}

-- What a CLEAN result has behind it
pub record IsCleared (c : ArtifactScannerConfig) (tools : Tools) (a : Artifact) (r : ScanResult)
    : Type 0 where
  pub in_time : tools.out_of_time ≡ false
  pub no_virus : (out : List String) × (tools.clamscan ≡ exited 0 out)
  pub no_match : (tools.yara_run ≡ exited 0 []) ⊎ (tools.yara_run ≡ exited 1 [])
  pub office_checked : (a.is_office ≡ false) ⊎ ((out : List String) × (tools.oleid ≡ exited 0 out))
  pub archive_fits :
      (a.file ≡ plain) ⊎ ((t : Totals) × (r.archive_totals ≡ some t) × IsWithinLimits c a.file t)

clamav-clean : (run : ToolRun) → clamav run ≡ clean → (out : List String) × (run ≡ exited 0 out)
unfolding clamav
clamav-clean (exited zero out) h = (out, refl)
clamav-clean (exited (suc zero) out) h = absurd (ground arith)
clamav-clean (exited (suc (suc n)) out) h = absurd (ground arith)
clamav-clean unavailable h = absurd (ground arith)
clamav-clean timed_out h = absurd (ground arith)

yara-none_found : (run : ToolRun) → yara run ≡ some [] → (run ≡ exited 0 []) ⊎ (run ≡ exited 1 [])
unfolding yara
yara-none_found (exited zero out) h = inl (ap (exited 0) (some_inj out [] h))
yara-none_found (exited (suc zero) out) h = inr (ap (exited 1) (some_inj out [] h))
yara-none_found (exited (suc (suc n)) out) h = absurd (none-ne-some [] h)
yara-none_found unavailable h = absurd (none-ne-some [] h)
yara-none_found timed_out h = absurd (none-ne-some [] h)

oletools-passed :
    (office : Bool) (run : ToolRun)
    → is_failed (oletools office run) ≡ false
    → (office ≡ false) ⊎ ((out : List String) × (run ≡ exited 0 out))
unfolding oletools
oletools-passed false run h = inl refl
oletools-passed true (exited zero out) h = inr (out, refl)
oletools-passed true (exited (suc n) out) h = absurd (ground arith)
oletools-passed true unavailable h = absurd (ground arith)
oletools-passed true timed_out h = absurd (ground arith)

verdict_clean :
    (run : ToolRun) (y : Option (List String)) (o : Status)
    → verdict (clamav run) y o ≡ clean
    → (clamav run ≡ clean) × (y ≡ some []) × (is_failed o ≡ false)
unfolding verdict clamav
verdict_clean (exited zero out) none o h = absurd (ground arith)
verdict_clean (exited zero out) (some []) o h = (refl, refl, ground arith)
verdict_clean (exited zero out) (some (m ∷ ms)) o h = absurd (ground arith)
verdict_clean (exited (suc zero) out) y o h = absurd (ground arith)
verdict_clean (exited (suc (suc n)) out) y o h = absurd (ground arith)
verdict_clean unavailable y o h = absurd (ground arith)
verdict_clean timed_out y o h = absurd (ground arith)

ok_option_inj :
    (o p : Option Totals)
    → let x : Result ArtifactError (Option Totals) = ok o in
      let y : Result ArtifactError (Option Totals) = ok p in x ≡ y → o ≡ p
ok_option_inj o p h = cc

abbrev Known : ArtifactScannerConfig → File → Option Totals → Type 0
Known c f o = (t : Totals) × (o ≡ some t) × IsWithinLimits c f t

archive_totals_lem :
    (c : ArtifactScannerConfig) (f : File) (o : Option Totals)
    → f ≢ plain
    → elim (inspect_archive c f) as (λ _. Result ArtifactError (Option Totals)) [
      | ok t ↦ ok (some t)
      | err e ↦ err e
    ]
      ≡ ok o
    → Known c f o
archive_totals_lem c f o archive h = elim (Result-cases (inspect_archive c f)) [
  | inl (t, e) ↦ (
    t,
    sym (ok_option_inj (some t) o (ground arith)),
    inspect_archive-IsWithinLimits c f t archive e,
  )
  | inr (x, e) ↦ absurd (ground arith)
]

-- What the inspection before the tools answers
inspected_lem :
    (c : ArtifactScannerConfig) (f : File) (o : Option Totals)
    → inspected c f ≡ ok o
    → (f ≡ plain) ⊎ Known c f o
inspected_lem c plain o h = inl refl
inspected_lem c locked o h = inr (archive_totals_lem c locked o (λ e. cc) h)
inspected_lem c (zipped ms) o h = inr (archive_totals_lem c (zipped ms) o (λ e. cc) h)
inspected_lem c (tarred ms) o h = inr (archive_totals_lem c (tarred ms) o (λ e. cc) h)

-- A scan answers CLEAN only when it ended in time, ClamAV exited with 0, YARA exited with 0 or 1
-- and matched nothing, oleid exited with 0 where the file is an Office file, and an archive passed
-- its inspection, with totals that are within its limits: a missing tool that is needed, one that
-- timed out or one that failed never leads to CLEAN.
pub scan-IsCleared :
    (c : ArtifactScannerConfig) (tools : Tools) (a : Artifact) (canary : Bool)
    → (scan c tools a canary).status ≡ clean
    → IsCleared c tools a (scan c tools a canary)
unfolding scan
scan-IsCleared c tools a canary h = elim (Result-cases (inspected c a.file)) [
  | inr (x, e) ↦ absurd (ground arith)
  | inl (totals, e) ↦ elim (Bool-cases tools.out_of_time) [
    | inl late ↦ absurd (ground arith)
    | inr in_time ↦
        let answers =
          verdict_clean tools.clamscan (yara tools.yara_run) (oletools a.is_office tools.oleid)
            (ground arith) in
        let same : (scan c tools a canary).archive_totals ≡ totals = ground arith in
        record {
          in_time = in_time;
          no_virus = clamav-clean tools.clamscan answers.0;
          no_match = yara-none_found tools.yara_run answers.1;
          office_checked = oletools-passed a.is_office tools.oleid answers.2;
          archive_fits = elim (inspected_lem c a.file totals e) [
            | inl no_archive ↦ inl no_archive
            | inr (t, found, fits) ↦ inr (t, same ∙ found, fits)
          ];
        }
  ]
]

-- The conditions of a deployment
pub record IsDeployable (d : Deployment) : Type 0 where
  pub scanned_ok : (d.scan_status ≡ "CLEAN") ⊎ (d.scan_status ≡ "APPROVED")
  pub approved : d.approved_for_deployment ≡ true
  pub controlled : (d.classification ≡ "INERT") ⊎ (d.classification ≡ "CONTROLLED")
  pub rooted : in_roots d.allowed_roots (resolve d.destination) ≡ true
  pub same_hash : d.expected_sha256 ≡ d.observed_sha256

-- A deployment is let through exactly when its scan is CLEAN or APPROVED, it is approved, it is
-- inert or controlled, its destination resolves to below an approved root and the hash of what was
-- downloaded is the expected one.
pub validate_deployment_iff : (d : Deployment) → (validate_deployment d ≡ ok tt) ↔ IsDeployable d
unfolding validate_deployment in_roots
validate_deployment_iff d =
    let clean_ = eq_iff "CLEAN" d.scan_status in
    let approved_ = eq_iff "APPROVED" d.scan_status in
    let inert_ = eq_iff "INERT" d.classification in
    let controlled_ = eq_iff "CONTROLLED" d.classification in
    let hash_ = eq_iff d.expected_sha256 d.observed_sha256 in
    (
      λ h. record {
        scanned_ok = elim (Bool-cases (str_eq "CLEAN" d.scan_status)) [
          | inl e ↦ inl (sym (clean_.0 e))
          | inr e ↦ inr (sym (approved_.0 (ground arith)))
        ];
        approved = ground arith;
        controlled = elim (Bool-cases (str_eq "INERT" d.classification)) [
          | inl e ↦ inl (sym (inert_.0 e))
          | inr e ↦ inr (sym (controlled_.0 (ground arith)))
        ];
        rooted = ground arith;
        same_hash = hash_.0 (ground arith);
      },
      λ p.
          let s : one_of ("CLEAN" ∷ "APPROVED" ∷ []) d.scan_status ≡ true = elim p.scanned_ok [
            | inl e ↦ ground (arith, clean_.1 (sym e))
            | inr e ↦ ground (arith, approved_.1 (sym e))
          ] in
          let c : one_of ("INERT" ∷ "CONTROLLED" ∷ []) d.classification ≡ true = elim p.controlled [
            | inl e ↦ ground (arith, inert_.1 (sym e))
            | inr e ↦ ground (arith, controlled_.1 (sym e))
          ] in
          ground (arith, p.approved, p.rooted, hash_.1 p.same_hash),
    )
