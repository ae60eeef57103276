-- ===== src/Artifacts/Archive.antt =====
-- libs/mirage_common/artifacts.py: stage_upload and inspect_archive. A file is what zipfile and
-- tarfile read in it: its members with their own files.
pub mod Steps
pub mod Bounds
pub mod Counts
pub mod Upload
use mirageby_ai.Common.{
  ℕ, zero, suc, ◌+◌, ◌*◌, max, ltb, leb, String, Bool, true, false, not, ◌&&◌, ◌||◌, Option, none,
  some, List, [], ◌∷◌, any, if◌then◌else◌, ◌==◌,
}
use mirageby_ai.Common.Exec.{Result, ok, err}
use mirageby_ai.Contracts.Text.{codes, same_codes}
use mirageby_ai.EnvController.Paths.{FilePath, same_path, segments, is_absolute, is_dot_dot}

-- max_compression_ratio is a whole number here.
pub record ArtifactScannerConfig : Type 0 where
  pub max_upload_mb : ℕ
  pub max_archive_depth : ℕ
  pub max_archive_members : ℕ
  pub max_expanded_mb : ℕ
  pub max_compression_ratio : ℕ
  pub per_member_max_mb : ℕ

pub data ArtifactError : Type 0 where
  too_large : ArtifactError
  not_deployable : String → ArtifactError
  policy : String → ArtifactError

abbrev pub mebibytes : ℕ → ℕ
mebibytes n = n * 1024 * 1024

-- The loop of stage_upload over the sizes of the chunks read
pub read_chunks : ℕ → ℕ → List ℕ → Option ℕ
read_chunks max_bytes size [] = some size
read_chunks max_bytes size (n ∷ rest) =
    let later = read_chunks max_bytes (size + n) rest in
    if ltb max_bytes (size + n) then none else later

pub stage_upload : ℕ → List ℕ → Result ArtifactError ℕ
stage_upload max_upload_mb chunks = elim (read_chunks (mebibytes max_upload_mb) 0 chunks) [
  | none ↦ err too_large
  | some size ↦ ok size
]

-- ZipInfo and TarInfo, as far as they are read
pub record ZipEntry : Type 0 where
  pub filename : String
  pub is_symlink : Bool
  pub is_encrypted : Bool
  pub is_dir : Bool
  pub file_size : ℕ
  pub compress_size : ℕ

pub record TarEntry : Type 0 where
  pub filename : String
  pub is_link : Bool
  pub is_file : Bool
  pub size : ℕ
  pub readable : Bool

-- A password-protected zip that cannot be opened is `locked`.
mutual
  pub data File : Type 0 where
    plain : File
    locked : File
    zipped : ZipMembers → File
    tarred : TarMembers → File

  pub data ZipMembers : Type 0 where
    zip_end : ZipMembers
    zip_member : ZipEntry → File → ZipMembers → ZipMembers

  pub data TarMembers : Type 0 where
    tar_end : TarMembers
    tar_member : TarEntry → File → TarMembers → TarMembers

-- name.replace("\\", "/")
abbrev pub slashes : List ℕ → List ℕ
slashes [] = []
slashes (c ∷ s) = (if c == 92 then b'/' else c) ∷ slashes s

abbrev pub is_letter : ℕ → Bool
is_letter c = (leb b'A' c && leb c b'Z') || (leb b'a' c && leb c b'z')

abbrev pub has_drive : List ℕ → Bool
has_drive [] = false
has_drive (c ∷ []) = false
has_drive (c ∷ d ∷ s) = is_letter c && d == b':'

-- The names that `_safe_member_name` rejects
unfoldable pub escapes : List ℕ → Bool
escapes name = is_absolute name || any is_dot_dot (segments name) || has_drive name

-- `_safe_member_name`
abbrev pub safe_member_name : String → Result ArtifactError FilePath
safe_member_name filename =
    let name = slashes (codes filename) in
    if escapes name then err (policy "archive path traversal rejected") else ok (segments name)

pub record Totals : Type 0 where
  pub members : ℕ
  pub expanded_bytes : ℕ
  pub compressed_bytes : ℕ
  pub max_depth_seen : ℕ

abbrev pub Inspected : Type 0
Inspected = Result ArtifactError Totals

abbrev pub exceeds_ratio : ArtifactScannerConfig → Totals → Bool
exceeds_ratio c t = ltb (c.max_compression_ratio * max 1 t.compressed_bytes) t.expanded_bytes

abbrev pub counted : ℕ → ℕ → Totals → Totals
counted expanded compressed t = record t {
  members = t.members + 1;
  expanded_bytes = t.expanded_bytes + expanded;
  compressed_bytes = t.compressed_bytes + max 1 compressed;
}

-- `_add_member`
unfoldable pub add_member : ArtifactScannerConfig → ℕ → ℕ → Totals → Inspected
add_member c expanded compressed t =
    let after = counted expanded compressed t in
    if ltb c.max_archive_members after.members
    then err (policy "archive member-count limit exceeded")
    else if exceeds_ratio c after
    then err (policy "archive compression-ratio limit exceeded")
    else ok after

-- What a member of that name and kind is rejected for
abbrev pub zip_refusal : List FilePath → FilePath → ZipEntry → Option String
zip_refusal names name e =
    if any (λ n. same_path n name) names
    then some "duplicate archive member name"
    else if e.is_symlink
    then some "archive symlink rejected"
    else if e.is_encrypted
    then some "password-protected archive rejected"
    else none

abbrev pub tar_refusal : List FilePath → FilePath → TarEntry → Option String
tar_refusal names name e =
    if any (λ n. same_path n name) names
    then some "duplicate archive member name"
    else if e.is_link
    then some "archive link rejected"
    else none

-- `_add_member`, then the limit of one member
abbrev pub admit : ArtifactScannerConfig → ℕ → ℕ → Bool → Totals → Inspected
admit c size compressed readable t = elim (add_member c size compressed t) [
  | err e ↦ err e
  | ok after ↦
      if ltb (mebibytes c.per_member_max_mb) size
      then err (policy "archive member exceeds per-member size limit")
      else if readable
      then ok after
      else err (policy "unable to read archive member")
]

abbrev pub deeper : ℕ → Totals → Totals
deeper depth t = record t { max_depth_seen = max t.max_depth_seen depth }

-- The check after the loop over the members
abbrev pub within_expanded : ArtifactScannerConfig → Inspected → Inspected
within_expanded c (err e) = err e
within_expanded c (ok t) =
    if ltb (mebibytes c.max_expanded_mb) t.expanded_bytes
    then err (policy "archive expanded-size limit exceeded")
    else ok t

abbrev pub then_ : Inspected → (Totals → Inspected) → Inspected
then_ (err e) f = err e
then_ (ok t) f = f t

-- `_inspect_archive_recursive`: of a file, and of the members from one on, given the names before
-- them. A file that is no archive is not looked into.
unfoldable mutual
  pub inspect : ArtifactScannerConfig → ℕ → File → Totals → Inspected
  inspect c depth plain t = ok t
  inspect c depth locked t =
      if ltb c.max_archive_depth depth
      then err (policy "maximum archive nesting depth exceeded")
      else err (policy "password-protected archive rejected")
  inspect c depth (zipped ms) t =
      let inner = inspect_zip c depth [] ms (deeper depth t) in
      if ltb c.max_archive_depth depth
      then err (policy "maximum archive nesting depth exceeded")
      else within_expanded c inner
  inspect c depth (tarred ms) t =
      let inner = inspect_tar c depth [] ms (deeper depth t) in
      if ltb c.max_archive_depth depth
      then err (policy "maximum archive nesting depth exceeded")
      else within_expanded c inner

  pub inspect_zip : ArtifactScannerConfig → ℕ → List FilePath → ZipMembers → Totals → Inspected
  inspect_zip c depth names zip_end t = ok t
  inspect_zip c depth names (zip_member e f rest) t = elim (safe_member_name e.filename) [
    | err x ↦ err x
    | ok name ↦ elim (zip_refusal names name e) [
      | some reason ↦ err (policy reason)
      | none ↦ elim e.is_dir [
        | true ↦ inspect_zip c depth (name ∷ names) rest t
        | false ↦ then_ (admit c e.file_size e.compress_size true t) (λ u.
            then_ (inspect c (suc depth) f u) (λ v. inspect_zip c depth (name ∷ names) rest v))
      ]
    ]
  ]

  pub inspect_tar : ArtifactScannerConfig → ℕ → List FilePath → TarMembers → Totals → Inspected
  inspect_tar c depth names tar_end t = ok t
  inspect_tar c depth names (tar_member e f rest) t = elim (safe_member_name e.filename) [
    | err x ↦ err x
    | ok name ↦ elim (tar_refusal names name e) [
      | some reason ↦ err (policy reason)
      | none ↦ elim e.is_file [
        | false ↦ inspect_tar c depth (name ∷ names) rest t
        | true ↦ then_ (admit c e.size (max 1 e.size) e.readable t) (λ u.
            then_ (inspect c (suc depth) f u) (λ v. inspect_tar c depth (name ∷ names) rest v))
      ]
    ]
  ]

abbrev pub no_totals : Totals
no_totals = record { members = 0; expanded_bytes = 0; compressed_bytes = 0; max_depth_seen = 0 }

-- The outermost file is counted as a level even if it is no archive.
abbrev pub inspect_root : ArtifactScannerConfig → File → Inspected
inspect_root c plain =
    if ltb c.max_archive_depth 1
    then err (policy "maximum archive nesting depth exceeded")
    else ok (deeper 1 no_totals)
inspect_root c f = inspect c 1 f no_totals

-- inspect_archive: the totals of the tree, if it is within the limits.
unfoldable pub inspect_archive : ArtifactScannerConfig → File → Inspected
inspect_archive c f = then_ (inspect_root c f) (λ t.
    if exceeds_ratio c t then err (policy "archive compression ratio exceeds the limit") else ok t)
