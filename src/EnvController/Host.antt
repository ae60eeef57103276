-- ===== src/EnvController/Host.antt =====
-- What a handler of actions.py works on: the host's files, its journal and its clock, the context
-- that the executor is built with, what may be raised, and the reading of parameters.
use mirageby_ai.Common.{
  ℕ, zero, suc, ◌*◌, ◌/◌, String, Bool, true, false, not, Option, none, some, List, [], ◌∷◌, str_eq,
  if◌then◌else◌,
}
use mirageby_ai.Common.Exec.{Exec, pure, raise, ok, err, or_raise, ◌>>=◌}
use mirageby_ai.Contracts.Text.{codes}
use mirageby_ai.Contracts.Json.{Json, Items, Fields}
use mirageby_ai.EnvController.Paths.{FilePath, segments, is_absolute, resolve, in_roots}
use mirageby_ai.EnvController.Files.{Files}
use mirageby_ai.EnvController.Journal.{Journal}

-- The clock is in milliseconds.
pub record Host : Type 0 where
  pub files : Files
  pub journal : Journal
  pub now : ℕ

-- RestrictedPathError, UnapprovedServiceError, UnknownActionTypeError and all others.
pub data Failure : Type 0 where
  restricted_path : String → Failure
  unapproved_service : String → Failure
  unknown_action_type : String → Failure
  crashed : String → Failure

abbrev pub Act : Type 0 → Type 0
Act A = Exec Failure Host A

pub record Url : Type 0 where
  pub scheme : String
  pub hostname : String

-- Functions of httpx, urllib, hashlib, base64, json and datetime: an answer's chunks, or none when
-- the request fails.
pub record Libraries : Type 0 where
  pub download : String → Option (List String)
  pub urlparse : String → Url
  pub sha256 : String → String
  pub b64decode : String → Option String
  pub size : String → ℕ
  pub loads : String → Option Json
  pub fromisoformat : String → Option ℕ

pub record Context : Type 0 where
  pub allowed_roots : List FilePath
  pub programdata : FilePath
  pub baseline_snapshot : Option FilePath
  pub libraries : Libraries

abbrev pub refused : {A : Type 0} → Act A
refused = raise (crashed "OSError")

-- An operation on the files that the operating system may refuse
abbrev pub change : (ℕ → Files → Option Files) → Act (Unit {0})
change f h = elim (f h.now h.files) [
  | none ↦ (err (crashed "OSError"), h)
  | some fs ↦ (ok tt, record h { files = fs })
]

-- The part of `_resolve_within_roots` that works on a path that has been read
unfoldable pub within_roots : List FilePath → FilePath → Act FilePath
within_roots roots p =
    if in_roots roots (resolve p)
    then pure (resolve p)
    else raise (restricted_path "outside all approved mutation roots")

unfoldable pub resolve_codes : List FilePath → List ℕ → Act FilePath
resolve_codes roots [] = raise (restricted_path "empty path")
resolve_codes roots (c ∷ s) =
    if is_absolute (c ∷ s)
    then within_roots roots (segments (c ∷ s))
    else raise (restricted_path "path must be absolute")

-- `_resolve_within_roots`
unfoldable pub resolve_within_roots : List FilePath → String → Act FilePath
resolve_within_roots roots raw = resolve_codes roots (codes raw)

abbrev pub entry_of : String → Fields → Option Json
entry_of k Fields.end = none
entry_of k (Fields.entry l v rest) =
    let later = entry_of k rest in if str_eq l k then some v else later

-- params[k]
unfoldable pub required : String → Json → Act Json
required k (Json.obj d) = or_raise (entry_of k d) (crashed k)
required k j = raise (crashed "TypeError")

-- params.get(k, default)
unfoldable pub get_or : Json → String → Json → Act Json
get_or default k (Json.obj d) = elim (entry_of k d) [ none ↦ pure default | some v ↦ pure v ]
get_or default k j = raise (crashed "AttributeError")

abbrev pub get_field : String → Json → Act Json
get_field k params = get_or Json.null k params

unfoldable pub truthy : Json → Bool
truthy Json.null = false
truthy (Json.flag b) = b
truthy (Json.num zero) = false
truthy (Json.num (suc n)) = true
truthy (Json.ratio zero d) = false
truthy (Json.ratio (suc n) d) = true
truthy (Json.text s) = not (str_eq s "")
truthy (Json.arr Items.nil) = false
truthy (Json.arr (Items.cons v rest)) = true
truthy (Json.obj Fields.end) = false
truthy (Json.obj (Fields.entry k v rest)) = true

abbrev pub either : Json → Json → Json
either a b = if truthy a then a else b

-- A path among the parameters: what is falsy is an empty path, another value no path at all.
unfoldable pub resolve_param : List FilePath → Json → Act FilePath
resolve_param roots (Json.text s) = resolve_within_roots roots s
resolve_param roots j =
    if truthy j then raise (crashed "TypeError") else raise (restricted_path "empty path")

abbrev pub required_path : List FilePath → String → Json → Act FilePath
required_path roots k params = required k params >>= resolve_param roots

abbrev pub is_text : Json → String → Bool
is_text (Json.text s) t = str_eq s t
is_text j t = false

-- A time in a metadata field, in milliseconds: seconds, or an RFC 3339 text.
unfoldable pub timestamp : Libraries → Json → Option ℕ
timestamp libs (Json.num n) = some (n * 1000)
timestamp libs (Json.ratio n d) = some (n * 1000 / d)
timestamp libs (Json.text s) = libs.fromisoformat s
timestamp libs j = none

-- fields.get(k, the present time)
unfoldable pub time_field : Libraries → String → ℕ → Json → Option ℕ
time_field libs k present (Json.obj d) = elim (entry_of k d) [
  | none ↦ some present
  | some v ↦ timestamp libs v
]
time_field libs k present j = none

abbrev pub first_root : List FilePath → Act FilePath
first_root [] = raise (crashed "IndexError")
first_root (r ∷ roots) = pure r
