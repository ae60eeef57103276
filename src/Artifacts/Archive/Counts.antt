-- ===== src/Artifacts/Archive/Counts.antt =====
-- An independent account of a tree of archives: its members, their sizes, its levels, and what
-- no member of it may be.
use mirageby_ai.Common.{ℕ, ◌+◌, ◌≤◌, ◌≡◌, max, String, false, List, [], ◌∷◌, All, if◌then◌else◌}
use mirageby_ai.Contracts.Text.{codes}
use mirageby_ai.EnvController.Paths.{FilePath, same_path, segments, is_absolute, is_dot_dot}
use mirageby_ai.Artifacts.Archive.{
  File, plain, locked, zipped, tarred, ZipMembers, zip_end, zip_member, TarMembers, tar_end,
  tar_member, slashes, has_drive,
}

-- Members that are files, in the whole tree
unfoldable mutual
  pub members_of : File → ℕ
  members_of plain = 0
  members_of locked = 0
  members_of (zipped ms) = zip_members_of ms
  members_of (tarred ms) = tar_members_of ms

  pub zip_members_of : ZipMembers → ℕ
  zip_members_of zip_end = 0
  zip_members_of (zip_member e f rest) =
      (if e.is_dir then 0 else 1 + members_of f) + zip_members_of rest

  pub tar_members_of : TarMembers → ℕ
  tar_members_of tar_end = 0
  tar_members_of (tar_member e f rest) =
      (if e.is_file then 1 + members_of f else 0) + tar_members_of rest

-- Their sizes
unfoldable mutual
  pub size_of : File → ℕ
  size_of plain = 0
  size_of locked = 0
  size_of (zipped ms) = zip_size_of ms
  size_of (tarred ms) = tar_size_of ms

  pub zip_size_of : ZipMembers → ℕ
  zip_size_of zip_end = 0
  zip_size_of (zip_member e f rest) =
      (if e.is_dir then 0 else e.file_size + size_of f) + zip_size_of rest

  pub tar_size_of : TarMembers → ℕ
  tar_size_of tar_end = 0
  tar_size_of (tar_member e f rest) =
      (if e.is_file then e.size + size_of f else 0) + tar_size_of rest

-- Their sizes as they are stored: a tar member is stored as it is, and none counts as nothing.
unfoldable mutual
  pub packed_of : File → ℕ
  packed_of plain = 0
  packed_of locked = 0
  packed_of (zipped ms) = zip_packed_of ms
  packed_of (tarred ms) = tar_packed_of ms

  pub zip_packed_of : ZipMembers → ℕ
  zip_packed_of zip_end = 0
  zip_packed_of (zip_member e f rest) =
      (if e.is_dir then 0 else max 1 e.compress_size + packed_of f) + zip_packed_of rest

  pub tar_packed_of : TarMembers → ℕ
  tar_packed_of tar_end = 0
  tar_packed_of (tar_member e f rest) =
      (if e.is_file then max 1 e.size + packed_of f else 0) + tar_packed_of rest

-- The levels of archives in archives
unfoldable mutual
  pub height_of : File → ℕ
  height_of plain = 0
  height_of locked = 1
  height_of (zipped ms) = 1 + zip_height_of ms
  height_of (tarred ms) = 1 + tar_height_of ms

  pub zip_height_of : ZipMembers → ℕ
  zip_height_of zip_end = 0
  zip_height_of (zip_member e f rest) =
      max (if e.is_dir then 0 else height_of f) (zip_height_of rest)

  pub tar_height_of : TarMembers → ℕ
  tar_height_of tar_end = 0
  tar_height_of (tar_member e f rest) =
      max (if e.is_file then height_of f else 0) (tar_height_of rest)

abbrev pub name_of : String → FilePath
name_of filename = segments (slashes (codes filename))

-- The names above a member, and the member's
abbrev pub IsNew : List FilePath → FilePath → Type 0
IsNew names name = All (λ n. same_path n name ≡ false) names

-- A name that does not lead out: it is relative, goes up nowhere and has no drive letter.
abbrev pub IsInside : String → Type 0
IsInside filename =
    let name = slashes (codes filename) in
    (is_absolute name ≡ false)
    × All (λ s. is_dot_dot s ≡ false) (segments name)
    × (has_drive name ≡ false)

-- No member at any level has a name that leads out, is there twice, is a link or encrypted, and no
-- file is of more bytes than one member may have.
unfoldable mutual
  pub IsClean : ℕ → File → Type 0
  IsClean most plain = Unit
  IsClean most locked = ⊥
  IsClean most (zipped ms) = IsCleanZip most [] ms
  IsClean most (tarred ms) = IsCleanTar most [] ms

  pub IsCleanZip : ℕ → List FilePath → ZipMembers → Type 0
  IsCleanZip most names zip_end = Unit
  IsCleanZip most names (zip_member e f rest) =
      IsInside e.filename
      × (IsNew names (name_of e.filename) × (e.is_symlink ≡ false) × (e.is_encrypted ≡ false))
      × (if e.is_dir then Unit else (e.file_size ≤ most) × IsClean most f)
      × IsCleanZip most (name_of e.filename ∷ names) rest

  pub IsCleanTar : ℕ → List FilePath → TarMembers → Type 0
  IsCleanTar most names tar_end = Unit
  IsCleanTar most names (tar_member e f rest) =
      IsInside e.filename
      × (IsNew names (name_of e.filename) × (e.is_link ≡ false))
      × (if e.is_file then (e.size ≤ most) × IsClean most f else Unit)
      × IsCleanTar most (name_of e.filename ∷ names) rest
