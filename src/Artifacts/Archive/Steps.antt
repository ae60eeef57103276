-- ===== src/Artifacts/Archive/Steps.antt =====
-- What one member of an archive adds to the totals when it is let in.
use mirageby_ai.Common.{
  ℕ, suc, ◌+◌, ◌≤◌, ◌≡◌, refl, ap, max, Bool, true, false, none, String, List, [], ◌∷◌, All, any,
  ◌⊎◌, inl, inr, arith, Bool-cases, Option-cases,
}
use mathlib.Core.Path.{subst}
use mirageby_ai.Common.Exec.{ok, err}
use mirageby_ai.Contracts.Text.{codes}
use mirageby_ai.EnvController.Paths.{FilePath, same_path, segments, is_dot_dot}
use mirageby_ai.Artifacts.Archive.{
  ArtifactScannerConfig, mebibytes, ZipEntry, TarEntry, File, ZipMembers, zip_member, TarMembers,
  tar_member, slashes, escapes, Totals, Inspected, exceeds_ratio, counted, add_member, zip_refusal,
  tar_refusal, admit, within_expanded, then_, inspect, inspect_zip, inspect_tar,
}
use mirageby_ai.Artifacts.Archive.Counts.{name_of, IsNew, IsInside}

-- From the one totals to the other, over so many members of such sizes, expanded and
-- stored, and so many levels
pub record Passed (c : ArtifactScannerConfig) (depth count bytes packed height : ℕ) (Clean : Type 0)
    (t u : Totals) : Type 0 where
  pub members_are : u.members ≡ t.members + count
  pub bytes_are : u.expanded_bytes ≡ t.expanded_bytes + bytes
  pub packed_are : u.compressed_bytes ≡ t.compressed_bytes + packed
  pub members_fit : t.members ≤ c.max_archive_members → u.members ≤ c.max_archive_members
  pub ratio_fits : exceeds_ratio c t ≡ false → exceeds_ratio c u ≡ false
  pub height_fits : depth ≤ suc c.max_archive_depth → height + depth ≤ suc c.max_archive_depth
  pub clean : Clean

pub then-inv :
    (x : Inspected) (f : Totals → Inspected) (u : Totals)
    → then_ x f ≡ ok u
    → (v : Totals) × (x ≡ ok v) × (f v ≡ ok u)
then-inv (ok v) f u h = (v, refl, h)
then-inv (err e) f u h = absurd (ground arith)

pub ok_result_inj :
    (t u : Totals) → let x : Inspected = ok t in let y : Inspected = ok u in x ≡ y → t ≡ u
ok_result_inj t u h = cc

pub admit_lem :
    (c : ArtifactScannerConfig) (size compressed : ℕ) (readable : Bool) (t u : Totals)
    → admit c size compressed readable t ≡ ok u
    → (counted size compressed t ≡ u)
      × (u.members ≤ c.max_archive_members)
      × (exceeds_ratio c u ≡ false)
      × (size ≤ mebibytes c.per_member_max_mb)
unfolding add_member
admit_lem c size compressed readable t u h =
    let v = counted size compressed t in
    let same : v ≡ u = ok_result_inj v u (ground arith) in
    let fits : v.members ≤ c.max_archive_members = ground arith in
    let ratio : exceeds_ratio c v ≡ false = ground arith in
    (
      same,
      subst (λ (x : Totals). x.members ≤ c.max_archive_members) same fits,
      subst (λ x. exceeds_ratio c x ≡ false) same ratio,
      ground arith,
    )

none_of : {A : Type 0} (p : A → Bool) (xs : List A) → any p xs ≡ false → All (λ x. p x ≡ false) xs
none_of p [] h = tt
none_of p (x ∷ xs) h = (ground arith, none_of p xs (ground arith))

inside : (filename : String) → escapes (slashes (codes filename)) ≡ false → IsInside filename
unfolding escapes
inside filename h =
    let name = slashes (codes filename) in
    (ground arith, none_of is_dot_dot (segments name) (ground arith), ground arith)

zip_cleared :
    (names : List FilePath) (name : FilePath) (e : ZipEntry)
    → zip_refusal names name e ≡ none
    → IsNew names name × (e.is_symlink ≡ false) × (e.is_encrypted ≡ false)
zip_cleared names name e h =
    (none_of (λ n. same_path n name) names (ground arith), ground arith, ground arith)

tar_cleared :
    (names : List FilePath) (name : FilePath) (e : TarEntry)
    → tar_refusal names name e ≡ none
    → IsNew names name × (e.is_link ≡ false)
tar_cleared names name e h = (none_of (λ n. same_path n name) names (ground arith), ground arith)

-- One member of a zip and of a tar archive
pub zip_step :
    (c : ArtifactScannerConfig) (depth : ℕ) (names : List FilePath) (e : ZipEntry) (f : File)
    (rest : ZipMembers) (t u : Totals)
    → inspect_zip c depth names (zip_member e f rest) t ≡ ok u
    → IsInside e.filename
      × (IsNew names (name_of e.filename) × (e.is_symlink ≡ false) × (e.is_encrypted ≡ false))
      × (((e.is_dir ≡ true) × (inspect_zip c depth (name_of e.filename ∷ names) rest t ≡ ok u))
          ⊎ ((e.is_dir ≡ false)
              × (then_ (admit c e.file_size e.compress_size true t) (λ v.
                    then_
                      (inspect c (suc depth) f v)
                      (λ w. inspect_zip c depth (name_of e.filename ∷ names) rest w))
                  ≡ ok u)))
unfolding inspect_zip
zip_step c depth names e f rest t u h = elim (Bool-cases (escapes (slashes (codes e.filename)))) [
  | inl bad ↦ absurd (ground arith)
  | inr good ↦ elim (Option-cases (zip_refusal names (name_of e.filename) e)) [
    | inr (reason, k) ↦ absurd (ground arith)
    | inl k ↦ elim (Bool-cases e.is_dir) [
      | inl dir ↦ (
        inside e.filename good,
        zip_cleared names (name_of e.filename) e k,
        inl (dir, ground arith),
      )
      | inr regular ↦ (
        inside e.filename good,
        zip_cleared names (name_of e.filename) e k,
        inr (regular, ground arith),
      )
    ]
  ]
]

pub tar_step :
    (c : ArtifactScannerConfig) (depth : ℕ) (names : List FilePath) (e : TarEntry) (f : File)
    (rest : TarMembers) (t u : Totals)
    → inspect_tar c depth names (tar_member e f rest) t ≡ ok u
    → IsInside e.filename
      × (IsNew names (name_of e.filename) × (e.is_link ≡ false))
      × (((e.is_file ≡ false) × (inspect_tar c depth (name_of e.filename ∷ names) rest t ≡ ok u))
          ⊎ ((e.is_file ≡ true)
              × (then_ (admit c e.size (max 1 e.size) e.readable t) (λ v.
                    then_
                      (inspect c (suc depth) f v)
                      (λ w. inspect_tar c depth (name_of e.filename ∷ names) rest w))
                  ≡ ok u)))
unfolding inspect_tar
tar_step c depth names e f rest t u h = elim (Bool-cases (escapes (slashes (codes e.filename)))) [
  | inl bad ↦ absurd (ground arith)
  | inr good ↦ elim (Option-cases (tar_refusal names (name_of e.filename) e)) [
    | inr (reason, k) ↦ absurd (ground arith)
    | inl k ↦ elim (Bool-cases e.is_file) [
      | inl regular ↦ (
        inside e.filename good,
        tar_cleared names (name_of e.filename) e k,
        inr (regular, ground arith),
      )
      | inr other ↦ (
        inside e.filename good,
        tar_cleared names (name_of e.filename) e k,
        inl (other, ground arith),
      )
    ]
  ]
]

pub within_expanded_lem :
    (c : ArtifactScannerConfig) (x : Inspected) (u : Totals)
    → within_expanded c x ≡ ok u
    → (x ≡ ok u) × (u.expanded_bytes ≤ mebibytes c.max_expanded_mb)
within_expanded_lem c (err e) u h = absurd (ground arith)
within_expanded_lem c (ok t) u h =
    let fits : t.expanded_bytes ≤ mebibytes c.max_expanded_mb = ground arith in
    let same : t ≡ u = ok_result_inj t u (ground arith) in
    (ap ok same, subst (λ (x : Totals). x.expanded_bytes ≤ mebibytes c.max_expanded_mb) same fits)
