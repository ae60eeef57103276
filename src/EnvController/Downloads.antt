-- ===== src/EnvController/Downloads.antt =====
-- agents/mirage-env-controller/mirage_env_controller/actions.py: the download of an artifact.
use mirageby_ai.Common.{
  ℕ, ◌+◌, ◌*◌, ltb, String, Bool, ◌&&◌, ◌||◌, Option, none, some, List, [], ◌∷◌, ◌++◌, str_eq, any,
  if◌then◌else◌,
}
use mirageby_ai.Common.Exec.{ok, err}
use mirageby_ai.Contracts.Text.{codes, concat}
use mirageby_ai.Contracts.Json.{Json}
use mirageby_ai.EnvController.Paths.{FilePath, parent, name}
use mirageby_ai.EnvController.Files.{
  raw, written, Files, lookup, is_directory, remove_row, rename, write_file,
}
use mirageby_ai.EnvController.Host.{Act, Libraries, Url, crashed, truthy, is_text}

-- with_name(f".{name}.mirage-download")
abbrev pub temp_path : FilePath → FilePath
temp_path p = parent p ++ (codes "." ++ name p ++ codes ".mirage-download") ∷ []

abbrev pub local_hosts : List String
local_hosts = "localhost" ∷ "127.0.0.1" ∷ "host.docker.internal" ∷ "mirage-api" ∷ []

abbrev pub may_download_from : Url → Bool
may_download_from url =
    str_eq url.scheme "https"
    || (str_eq url.scheme "http" && any (λ host. str_eq host url.hostname) local_hosts)

abbrev max_download : ℕ
max_download = 250 * 1024 * 1024

-- The loop over the chunks; none when they exceed the limit.
unfoldable pub receive : Libraries → ℕ → String → List String → Option String
receive libs size got [] = some got
receive libs size got (chunk ∷ chunks) =
    let rest = receive libs (size + libs.size chunk) (concat (got ∷ chunk ∷ [])) chunks in
    if ltb max_download (size + libs.size chunk) then none else rest

-- unlink(missing_ok=True) of what is not a directory
unfoldable pub discard : FilePath → Files → Files
discard p fs = elim (lookup p fs) [
  | none ↦ fs
  | some n ↦ if is_directory n then fs else remove_row p fs
]

-- Path.replace
unfoldable pub replace : FilePath → FilePath → Files → Option Files
replace source destination fs = elim (lookup destination fs) [
  | none ↦ some (rename source destination fs)
  | some n ↦ if is_directory n then none else some (rename source destination fs)
]

-- What the download leaves in the temporary file, or that it failed
unfoldable pub downloaded : Libraries → String → Json → Option String
downloaded libs url expected = elim (libs.download url) [
  | none ↦ none
  | some chunks ↦ elim (receive libs 0 "" chunks) [
    | none ↦ none
    | some content ↦
        if truthy expected && is_text expected (libs.sha256 content) then some content else none
  ]
]

unfoldable pub keep_download : FilePath → String → ℕ → Files → Option Files
keep_download destination content now fs =
    elim (write_file now (temp_path destination) (written (raw content ∷ [])) fs) [
      | none ↦ none
      | some kept ↦ replace (temp_path destination) destination kept
    ]

-- Whatever is raised, the temporary file is gone.
unfoldable pub or_discarded : FilePath → (ℕ → Files → Option Files) → Act (Unit {0})
or_discarded temp f h = elim (f h.now h.files) [
  | none ↦ (err (crashed "ValueError"), record h { files = discard temp h.files })
  | some fs ↦ (ok tt, record h { files = fs })
]
