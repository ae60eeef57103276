-- ===== src/EnvController/Handlers.antt =====
-- agents/mirage-env-controller/mirage_env_controller/actions.py: one handler per structured action,
-- which answers with what undoes it, and the marker files of the development adapter for decoy
-- services.
use mirageby_ai.Common.{
  ℕ, String, not, ◌&&◌, ◌||◌, Option, none, some, List, [], ◌∷◌, ◌++◌, str_eq, any, if◌then◌else◌,
}
use mirageby_ai.Common.Exec.{pure, raise, gets, raise_if, or_raise, ◌>>=◌, ◌>>◌}
use mirageby_ai.Contracts.Text.{codes}
use mirageby_ai.Contracts.Json.{Json, dict}
use mirageby_ai.EnvController.Paths.{FilePath, parent}
use mirageby_ai.EnvController.Files.{
  raw, dumped, Content, written, Node, file, Files, lookup, exists, put, make_dirs, write_file,
  unlink, move, with_times, accessed, modified,
}
use mirageby_ai.EnvController.Journal.{
  Definition, noop, delete_file, delete_directory, move_file, restore_metadata,
  enable_decoy_service, disable_decoy_service,
}
use mirageby_ai.EnvController.Host.{
  Act, Context, Libraries, unapproved_service, crashed, change, required, get_field, truthy, either,
  required_path, is_text, time_field, first_root,
}
use mirageby_ai.EnvController.Downloads.{
  temp_path, may_download_from, downloaded, keep_download, or_discarded,
}

-- APPROVED_DECOY_SERVICES: the identifiers that the code looks up.
abbrev pub approved_decoy_services : List String
approved_decoy_services = "decoy-print-spooler" ∷ "decoy-remote-registry" ∷ "decoy-ftp" ∷ []

-- resolve_approved_service_name, on a parameter
unfoldable pub approved_service : Json → Act String
approved_service (Json.text s) =
    if any (λ id. str_eq id s) approved_decoy_services then pure s else raise (unapproved_service s)
approved_service (Json.arr l) = raise (crashed "TypeError")
approved_service (Json.obj d) = raise (crashed "TypeError")
approved_service j = raise (unapproved_service "")

abbrev pub marker_path : List FilePath → String → Act FilePath
marker_path roots id = first_root roots >>= λ root.
    pure (root ++ codes "_decoy_services" ∷ (codes id ++ codes ".enabled") ∷ [])

-- mkdir of the parent, then write_text
abbrev pub write_with_parents : FilePath → Content → Act (Unit {0})
write_with_parents p c =
    change (λ now fs. make_dirs now (parent p) fs) >> change (λ now fs. write_file now p c fs)

-- MarkerFileDecoyServiceController.enable
unfoldable pub enable : List FilePath → Json → Json → Act (Unit {0})
enable roots service_id config_profile = approved_service service_id >>= λ id.
    marker_path roots id >>= λ marker.
    write_with_parents marker
      (written (dumped (dict (("config_profile", config_profile) ∷ [])) ∷ []))

-- json.loads of a text; none where that is refused.
abbrev pub json_of : Libraries → Node → Option Json
json_of libs (file (written (dumped j ∷ [])) a m) = some j
json_of libs (file (written (raw s ∷ [])) a m) = libs.loads s
json_of libs n = none

unfoldable pub disable_node : Context → FilePath → Option Node → Act Json
disable_node ctx marker none = pure Json.null
disable_node ctx marker (some n) =
    or_raise (json_of ctx.libraries n) (crashed "ValueError") >>= λ j.
    get_field "config_profile" j >>= λ profile.
    change (λ now fs. unlink marker fs) >> pure (dict (("config_profile", profile) ∷ []))

unfoldable pub disable_marker : Context → FilePath → Act Json
disable_marker ctx marker = gets (λ h. lookup marker h.files) >>= disable_node ctx marker

-- MarkerFileDecoyServiceController.disable
unfoldable pub disable : Context → Json → Act Json
disable ctx service_id = approved_service service_id >>= λ id.
    marker_path ctx.allowed_roots id >>= λ marker. disable_marker ctx marker

abbrev pub times_of : Libraries → Json → Node → Option (ℕ × ℕ)
times_of libs fields n = elim (time_field libs "accessed_time" (accessed n) fields) [
  | none ↦ none
  | some a ↦ elim (time_field libs "modified_time" (modified n) fields) [
    | none ↦ none
    | some m ↦ some (a, m)
  ]
]

unfoldable pub retimed : Libraries → Json → FilePath → Files → Option Files
retimed libs fields p fs = elim (lookup p fs) [
  | none ↦ none
  | some n ↦ elim (times_of libs fields n) [
    | none ↦ none
    | some t ↦ some (put p (with_times t.0 t.1 n) fs)
  ]
]

-- `_apply_metadata_fields`
unfoldable pub apply_metadata_fields : Context → FilePath → Json → Act (Unit {0})
apply_metadata_fields ctx p fields = change (λ now fs. retimed ctx.libraries fields p fs)

unfoldable pub place_download : Context → FilePath → Json → Json → Act (Unit {0})
place_download ctx destination (Json.text url) expected =
    raise_if (not (may_download_from (ctx.libraries.urlparse url))) (crashed "ValueError")
    >> change (λ now fs. make_dirs now (parent destination) fs)
    >> or_discarded (temp_path destination) (λ now fs.
      elim (downloaded ctx.libraries url expected) [
        | none ↦ none
        | some content ↦ keep_download destination content now fs
      ])
place_download ctx destination url expected = raise (crashed "ValueError")

unfoldable pub place_content : Context → FilePath → Json → Json → Act (Unit {0})
place_content ctx destination (Json.text encoded) expected =
    or_raise (ctx.libraries.b64decode encoded) (crashed "binascii.Error") >>= λ content.
    raise_if (truthy expected && not (is_text expected (ctx.libraries.sha256 content)))
      (crashed "ValueError")
    >> write_with_parents destination (written (raw content ∷ []))
place_content ctx destination j expected = raise (crashed "ValueError")

abbrev pub place_from : Context → FilePath → Json → Json → Json → Act (Unit {0})
place_from ctx destination url encoded expected =
    if truthy url
    then place_download ctx destination url expected
    else place_content ctx destination encoded expected

abbrev pub apply_if_any : Context → FilePath → Json → Act (Unit {0})
apply_if_any ctx p fields = if truthy fields then apply_metadata_fields ctx p fields else pure tt

unfoldable pub place_at : Context → Json → FilePath → Json → Json → Json → Act Definition
place_at ctx params destination url encoded expected =
    place_from ctx destination url encoded expected
    >> get_field "visible_metadata" params
    >>= λ metadata. apply_if_any ctx destination metadata >> pure (delete_file destination)

unfoldable pub place_artifact : Context → Json → Act Definition
place_artifact ctx params = required_path ctx.allowed_roots "destination" params >>= λ destination.
    get_field "content_b64" params >>= λ encoded. get_field "download_url" params >>= λ url.
    get_field "expected_sha256" params >>= λ sha256. get_field "expected_hash" params >>= λ hash.
    place_at ctx params destination url encoded (either sha256 hash)

abbrev pub must_exist : FilePath → Act (Unit {0})
must_exist p =
    gets (λ h. exists p h.files) >>= λ there. raise_if (not there) (crashed "FileNotFoundError")

unfoldable pub move_artifact : Context → Json → Act Definition
move_artifact ctx params = required_path ctx.allowed_roots "source" params >>= λ source.
    required_path ctx.allowed_roots "destination" params >>= λ destination.
    must_exist source
    >> change (λ now fs. make_dirs now (parent destination) fs)
    >> change (λ now fs. move source destination fs)
    >> pure (move_file destination source)

unfoldable pub create_decoy_directory : Context → Json → Act Definition
create_decoy_directory ctx params = required_path ctx.allowed_roots "path" params >>= λ path.
    change (λ now fs. make_dirs now path fs) >> get_field "metadata_profile" params >>= λ profile.
    (if truthy profile
      then change (λ now fs.
        write_file now (path ++ codes ".mirage_metadata_profile.json" ∷ [])
          (written (dumped profile ∷ [])) fs)
      else pure tt)
    >> pure (delete_directory path)

-- NoopMetadataAttributeController applies no other field.
unfoldable pub change_visible_metadata : Context → Json → Act Definition
change_visible_metadata ctx params = required_path ctx.allowed_roots "target" params >>= λ target.
    must_exist target >> required "approved_fields" params >>= λ approved_fields.
    required "prior_state" params >>= λ prior_state.
    apply_metadata_fields ctx target approved_fields >> pure (restore_metadata target prior_state)

-- time.time()
abbrev pub seconds : ℕ → Json
seconds now = Json.ratio now 1000

unfoldable pub appended : ℕ → FilePath → Json → Files → Option Files
appended now p entry fs = elim (lookup p fs) [
  | none ↦ some (put p (file (written (dumped entry ∷ raw "\n" ∷ [])) now now) fs)
  | some (file (written pieces) a m) ↦
      some (put p (file (written (pieces ++ dumped entry ∷ raw "\n" ∷ [])) a now) fs)
  | some n ↦ none
]

-- The line that DISPLAY_MESSAGE adds to the log of the first root
abbrev pub log_message : Json → Json → FilePath → Act Definition
log_message params tag root =
    change (λ now fs. make_dirs now root fs) >> required "surface" params >>= λ surface.
    required "content" params >>= λ content.
    change (λ now fs.
      appended now (root ++ codes "_messages.log" ∷ [])
        (dict (
          ("surface", surface)
          ∷ ("content", content)
          ∷ ("output_tag", tag)
          ∷ ("at", seconds now)
          ∷ []))
        fs)
    >> pure noop

unfoldable pub display_message : Context → Json → Act Definition
display_message ctx params = get_field "output_tag" params >>= λ tag.
    raise_if (not (is_text tag "AI_GENERATED_INTERACTION" || is_text tag "ANALYST_MESSAGE"))
      (crashed "ValueError")
    >> (first_root ctx.allowed_roots >>= log_message params tag)

abbrev service_name : Json → String
service_name (Json.text s) = s
service_name j = ""

unfoldable pub enable_service : Context → Json → Act Definition
enable_service ctx params = required "service_id" params >>= λ service_id.
    get_field "config_profile" params >>= λ profile.
    enable ctx.allowed_roots service_id profile
    >> pure (disable_decoy_service (service_name service_id))

unfoldable pub disable_service : Context → Json → Act Definition
disable_service ctx params = required "service_id" params >>= λ service_id.
    disable ctx service_id >>= λ prior_state.
    pure (enable_decoy_service (service_name service_id) prior_state)
