-- ===== src/EnvController/Files.antt =====
-- The files of the sandbox as a table from paths to nodes, and the operations that the handlers
-- use of pathlib, shutil, os and tarfile. Links, permissions and the times of parent directories are
-- not kept. An operation that the operating system refuses is `none`.
pub mod Lookup
use mirageby_ai.Common.{
  ℕ, String, Bool, true, false, not, ◌&&◌, ◌||◌, Option, none, some, List, [], ◌∷◌, ◌++◌, find, any,
  select, if◌then◌else◌,
}
use mirageby_ai.Contracts.Json.{Json}
use mirageby_ai.EnvController.Paths.{FilePath, same_path, is_under, parent, name, relative}

-- A text that was written: as it came, or as json.dumps made it.
pub data Piece : Type 0 where
  raw : String → Piece
  dumped : Json → Piece

mutual
  pub data Content : Type 0 where
    written : List Piece → Content
    archived : Members → Content

  pub data Node : Type 0 where
    file : Content → ℕ → ℕ → Node
    directory : ℕ → ℕ → Node

  -- A tar archive: names below the directory it is extracted to.
  pub data Members : Type 0 where
    none_left : Members
    member : FilePath → Node → Members → Members

abbrev pub Files : Type 0
Files = List (FilePath × Node)

abbrev pub is_directory : Node → Bool
is_directory (file c a m) = false
is_directory (directory a m) = true

-- The first row for a path is the one that counts.
unfoldable pub lookup : FilePath → Files → Option Node
lookup q [] = none
lookup q ((p, n) ∷ fs) = let rest = lookup q fs in if same_path p q then some n else rest

unfoldable pub exists : FilePath → Files → Bool
exists p fs = elim (lookup p fs) [ none ↦ false | some n ↦ true ]

unfoldable pub remove_row : FilePath → Files → Files
remove_row p [] = []
remove_row p ((q, n) ∷ fs) =
    let rest = remove_row p fs in if same_path q p then rest else (q, n) ∷ rest

unfoldable pub put : FilePath → Node → Files → Files
put p n fs = (p, n) ∷ remove_row p fs

pub remove_tree : FilePath → Files → Files
remove_tree p [] = []
remove_tree p ((q, n) ∷ fs) =
    let rest = remove_tree p fs in if is_under p q then rest else (q, n) ∷ rest

-- What stands at the second path and below moves to the first.
pub moved_rows : FilePath → FilePath → Files → Files
moved_rows from to [] = []
moved_rows from to ((q, n) ∷ fs) =
    let rest = moved_rows from to fs in
    if is_under from q then (to ++ relative from q, n) ∷ rest else rest

-- os.rename: what was at the destination is replaced.
unfoldable pub rename : FilePath → FilePath → Files → Files
rename from to fs = moved_rows from to fs ++ remove_tree to (remove_tree from fs)

-- mkdir(parents=True, exist_ok=True): every parent that is missing; a file in the way is refused.
unfoldable pub make_from : ℕ → FilePath → FilePath → Files → Option Files
make_from now done [] fs = elim (lookup done fs) [
  | none ↦ some (put done (directory now now) fs)
  | some n ↦ if is_directory n then some fs else none
]
make_from now done (s ∷ rest) fs = elim (lookup done fs) [
  | none ↦ make_from now (done ++ s ∷ []) rest (put done (directory now now) fs)
  | some n ↦ elim (is_directory n) [ true ↦ make_from now (done ++ s ∷ []) rest fs | false ↦ none ]
]

abbrev pub make_dirs : ℕ → FilePath → Files → Option Files
make_dirs now p fs = make_from now [] p fs

abbrev written_node : ℕ → Content → Option Node → Option Node
written_node now c none = some (file c now now)
written_node now c (some (file old a m)) = some (file c a now)
written_node now c (some (directory a m)) = none

-- write_text and write_bytes; the parent exists when a handler calls it.
unfoldable pub write_file : ℕ → FilePath → Content → Files → Option Files
write_file now p c fs = elim (written_node now c (lookup p fs)) [
  | none ↦ none
  | some n ↦ some (put p n fs)
]

-- unlink
unfoldable pub unlink : FilePath → Files → Option Files
unlink p fs = elim (lookup p fs) [
  | none ↦ none
  | some n ↦ if is_directory n then none else some (remove_row p fs)
]

-- shutil.rmtree
unfoldable pub remove_directory : FilePath → Files → Option Files
remove_directory p fs = elim (lookup p fs) [
  | none ↦ none
  | some n ↦ if is_directory n then some (remove_tree p fs) else none
]

-- Where shutil.move puts the source: inside a destination that is a directory, unless that is the
-- source itself; an entry of that name in it is refused.
unfoldable pub move_target : FilePath → FilePath → Files → Option FilePath
move_target source destination fs = elim (lookup destination fs) [
  | none ↦ some destination
  | some n ↦
      if not (is_directory n) || same_path source destination
      then some destination
      else let inside = destination ++ name source ∷ [] in
        if exists inside fs then none else some inside
]

-- The rename of a directory onto a file or to below itself is refused.
abbrev may_rename : Node → FilePath → FilePath → Files → Bool
may_rename n from to fs = not (is_directory n) || (not (exists to fs) && not (is_under from to))

-- shutil.move of an entry that exists; a move onto itself changes nothing.
unfoldable pub move : FilePath → FilePath → Files → Option Files
move source destination fs = elim (lookup source fs) [
  | none ↦ none
  | some n ↦ elim (move_target source destination fs) [
    | none ↦ none
    | some to ↦
        if same_path source to
        then some fs
        else if may_rename n source to fs
        then some (rename source to fs)
        else none
  ]
]

-- os.utime
abbrev pub with_times : ℕ → ℕ → Node → Node
with_times a m (file c b k) = file c a m
with_times a m (directory b k) = directory a m

abbrev pub accessed : Node → ℕ
accessed (file c a m) = a
accessed (directory a m) = a

abbrev pub modified : Node → ℕ
modified (file c a m) = m
modified (directory a m) = m

abbrev pub append_members : Members → Members → Members
append_members none_left ms = ms
append_members (member p n rest) ms = member p n (append_members rest ms)

-- tar.add(root, arcname=root.name)
unfoldable pub tree_members : FilePath → Files → Members
tree_members root [] = none_left
tree_members root ((q, n) ∷ fs) =
    let rest = tree_members root fs in
    if is_under root q then member (name root ∷ relative root q) n rest else rest

-- tar.extractall(base)
unfoldable pub extract : ℕ → FilePath → Members → Files → Option Files
extract now base none_left fs = some fs
extract now base (member p n rest) fs = elim (make_dirs now (parent (base ++ p)) fs) [
  | none ↦ none
  | some made ↦ extract now base rest (put (base ++ p) n made)
]
