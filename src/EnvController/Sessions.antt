-- ===== src/EnvController/Sessions.antt =====
-- agents/mirage-env-controller/mirage_env_controller/actions.py: the handlers that concern the
-- whole session: snapshots, the markers under the data directory, the self-tests and the resets.
use mirageby_ai.Common.{ℕ, String, Option, none, some, List, [], ◌∷◌, ◌++◌, if◌then◌else◌}
use mirageby_ai.Common.Exec.{pure, raise, gets, or_raise, ◌>>=◌, ◌>>◌}
use mirageby_ai.Contracts.Text.{codes}
use mirageby_ai.Contracts.Json.{Json, dict}
use mirageby_ai.EnvController.Paths.{FilePath, parent, decimal}
use mirageby_ai.EnvController.Files.{
  raw, dumped, written, archived, Members, none_left, Node, file, Files, lookup, exists, make_dirs,
  write_file, unlink, remove_directory, modified, append_members, tree_members, extract,
}
use mirageby_ai.EnvController.Journal.{Definition, noop, delete_file, restore_metadata}
use mirageby_ai.EnvController.Host.{
  Act, Context, crashed, change, required, get_or, required_path, first_root,
}
use mirageby_ai.EnvController.Handlers.{apply_metadata_fields, must_exist, seconds}

unfoldable pub roots_members : List FilePath → Files → Members
roots_members [] fs = none_left
roots_members (root ∷ roots) fs = append_members (tree_members root fs) (roots_members roots fs)

abbrev pub snapshots_dir : Context → FilePath
snapshots_dir ctx = ctx.programdata ++ codes "Snapshots" ∷ []

abbrev pub snapshot_path : Context → ℕ → FilePath
snapshot_path ctx now =
    snapshots_dir ctx ++ (codes "snapshot-" ++ decimal now ++ codes ".tar.gz") ∷ []

unfoldable pub request_snapshot : Context → Act Definition
request_snapshot ctx =
    change (λ now fs. make_dirs now (snapshots_dir ctx) fs)
    >> change (λ now fs.
      write_file now (snapshot_path ctx now) (archived (roots_members ctx.allowed_roots fs)) fs)
    >> gets (λ h. h.now)
    >>= λ now. pure (delete_file (snapshot_path ctx now))

abbrev pub concluded_marker : Context → FilePath
concluded_marker ctx = ctx.programdata ++ codes "session_concluded.json" ∷ []

abbrev pub shutdown_marker : Context → FilePath
shutdown_marker ctx = ctx.programdata ++ codes "shutdown_requested.json" ∷ []

-- A marker that names the reason and the time
unfoldable pub write_marker : FilePath → Json → String → Act (Unit {0})
write_marker marker reason at_key = gets (λ h. h.now) >>= λ now. change (λ now fs.
    write_file now marker
      (written (dumped (dict (("reason", reason) ∷ (at_key, seconds now) ∷ [])) ∷ [])) fs)

unfoldable pub conclude_session : Context → Json → Act Definition
conclude_session ctx params =
    change (λ now fs. make_dirs now (parent (concluded_marker ctx)) fs)
    >> required "reason" params
    >>= λ reason.
        write_marker (concluded_marker ctx) reason "concluded_at"
        >> pure (delete_file (concluded_marker ctx))

unfoldable pub clean_shutdown : Context → Json → Act Definition
clean_shutdown ctx params =
    change (λ now fs. make_dirs now (parent (shutdown_marker ctx)) fs)
    >> get_or (Json.text "") "reason" params
    >>= λ reason.
        write_marker (shutdown_marker ctx) reason "at" >> pure (delete_file (shutdown_marker ctx))

abbrev pub write_text : FilePath → Json → Act (Unit {0})
write_text p (Json.text s) = change (λ now fs. write_file now p (written (raw s ∷ [])) fs)
write_text p j = raise (crashed "TypeError")

unfoldable pub test_file_placement : Context → Json → Act Definition
test_file_placement ctx params =
    required_path ctx.allowed_roots "destination" params >>= λ destination.
    change (λ now fs. make_dirs now (parent destination) fs)
    >> get_or (Json.text "mirage-self-test") "content" params
    >>= λ content. write_text destination content >> pure (delete_file destination)

abbrev modified_time : Json → Json
modified_time t = dict (("modified_time", t) ∷ [])

-- path.stat()
unfoldable pub stat : FilePath → Act Node
stat p = gets (λ h. lookup p h.files) >>= λ n. or_raise n (crashed "OSError")

unfoldable pub test_metadata_update : Context → Json → Act Definition
test_metadata_update ctx params = required_path ctx.allowed_roots "target" params >>= λ target.
    must_exist target >> stat target >>= λ node. required "modified_time" params >>= λ t.
    apply_metadata_fields ctx target (modified_time t)
    >> pure (restore_metadata target (modified_time (seconds (modified node))))

-- One root of `_wipe_and_reseed`: removed if it is there, then made again.
unfoldable pub wipe : FilePath → Act (Unit {0})
wipe root =
    change (λ now fs. if exists root fs then remove_directory root fs else some fs)
    >> change (λ now fs. make_dirs now root fs)

unfoldable pub wipe_all : List FilePath → Act (Unit {0})
wipe_all [] = pure tt
wipe_all (root ∷ roots) = wipe root >> wipe_all roots

-- tarfile.open and extractall; what is no archive is refused.
unfoldable pub unpack : FilePath → ℕ → FilePath → Files → Option Files
unpack base now snapshot fs = elim (lookup snapshot fs) [
  | some (file (archived members) a m) ↦ extract now base members fs
  | _ ↦ none
]

unfoldable pub reseed : List FilePath → Option FilePath → Act (Unit {0})
reseed roots none = pure tt
reseed roots (some snapshot) = gets (λ h. exists snapshot h.files) >>= λ there.
    if there
    then (first_root roots >>= λ root. change (λ now fs. unpack (parent root) now snapshot fs))
    else pure tt

-- `_wipe_and_reseed`
unfoldable pub wipe_and_reseed : Context → Act (Unit {0})
wipe_and_reseed ctx = wipe_all ctx.allowed_roots >> reseed ctx.allowed_roots ctx.baseline_snapshot

unfoldable pub soft_reset : Context → Act Definition
soft_reset ctx = wipe_and_reseed ctx >> pure noop

unfoldable pub full_rebuild : Context → Act Definition
full_rebuild ctx =
    wipe_and_reseed ctx
    >> change (λ now fs.
      if exists (concluded_marker ctx) fs then unlink (concluded_marker ctx) fs else some fs)
    >> pure noop
