-- ===== src/EnvController/Confinement/Sessions.antt =====
-- The handlers for a whole session against the approved roots and the data directory.
use mirageby_ai.Common.{
  ℕ, ◌≡◌, sym, String, true, Option, none, some, List, [], ◌∷◌, ◌++◌, inl, inr, arith, Bool-cases,
  if◌then◌else◌, Option-cases, some_inj, All, All-mono,
}
use mathlib.Core.Path.{subst}
use mirageby_ai.Common.Exec.{◌>>=◌, ok_inj, err-ne-ok}
use mirageby_ai.Contracts.Text.{codes}
use mirageby_ai.Contracts.Json.{Json}
use mirageby_ai.EnvController.Paths.{FilePath, is_under, parent, resolve, in_roots}
use mirageby_ai.EnvController.Files.{
  file, directory, Files, written, archived, lookup, write_file, exists, unlink,
}
use mirageby_ai.EnvController.Files.Lookup.{is_under-append}
use mirageby_ai.EnvController.Host.{Failure, change, Context, first_root}
use mirageby_ai.EnvController.Sessions.{
  request_snapshot, conclude_session, clean_shutdown, test_file_placement, test_metadata_update,
  wipe, wipe_all, unpack, reseed, wipe_and_reseed, soft_reset, full_rebuild, write_marker, stat,
  write_text, snapshots_dir, snapshot_path, concluded_marker, shutdown_marker, roots_members,
}
use mirageby_ai.EnvController.Confinement.{
  Spares, HasTree, Confined-pure, Confined-raise, Confined-gets, Confined-bind, Confined-bind_with,
  Confined-if, Confined-change, Confined-or_raise,
}
use mirageby_ai.EnvController.Confinement.Steps.{
  HasTree-self, HasTree-append, Confined-make_dirs, Confined-write, unlink-Spares,
  remove_directory-Spares, write_file-Spares, Confined-apply_metadata_fields, extract-Spares,
}
use mirageby_ai.EnvController.Confinement.Actions.{
  may_change-root, may_change-programdata, may_change-beside, roots-InRoots, beside_first_root,
  Keeps, Keeps-required, Keeps-get_or,
}
use mirageby_ai.EnvController.Confinement.Handlers.{R, rooted, Keeps-must_exist}

module _ (ctx : Context) where
  data_dir : (x : FilePath) → HasTree (R ctx) (ctx.programdata ++ x)
  data_dir x = may_change-programdata ctx (ctx.programdata ++ x) (is_under-append ctx.programdata x)

  pub snapshot_path-HasTree : (now : ℕ) → R ctx (snapshot_path ctx now) ≡ true
  snapshot_path-HasTree now =
      HasTree-self (R ctx) (snapshot_path ctx now)
        (HasTree-append (R ctx) (snapshots_dir ctx) _ (data_dir (codes "Snapshots" ∷ [])))

  pub Keeps-request_snapshot : Keeps ctx (request_snapshot ctx)
  unfolding request_snapshot
  Keeps-request_snapshot =
      let step =
        Confined-change (R ctx)
          (λ now fs.
            write_file now (snapshot_path ctx now) (archived (roots_members ctx.allowed_roots fs))
              fs)
          (λ now fs gs h.
            write_file-Spares (R ctx) now (snapshot_path ctx now) _ fs gs
              (snapshot_path-HasTree now) h) in
      search (Confined-bind, Confined-make_dirs, Confined-gets, step) depth 9

  pub Keeps-write_marker :
      (marker : FilePath) (reason : Json) (k : String)
      → R ctx marker ≡ true
      → Keeps ctx (write_marker marker reason k)
  unfolding write_marker
  Keeps-write_marker marker reason k inside =
      Confined-bind (R ctx) _ _ (Confined-gets (R ctx) _)
        (λ now. Confined-write (R ctx) marker _ inside)

  pub Keeps-conclude_session : (params : Json) → Keeps ctx (conclude_session ctx params)
  unfolding conclude_session
  Keeps-conclude_session params =
      let inside = HasTree-self (R ctx) (concluded_marker ctx) (data_dir _) in
      search
        (
          Confined-bind, Confined-make_dirs, Keeps-required, Keeps-write_marker, Confined-pure,
          inside,
        )
        depth 9

  pub Keeps-clean_shutdown : (params : Json) → Keeps ctx (clean_shutdown ctx params)
  unfolding clean_shutdown
  Keeps-clean_shutdown params =
      let inside = HasTree-self (R ctx) (shutdown_marker ctx) (data_dir _) in
      search
        (Confined-bind, Confined-make_dirs, Keeps-get_or, Keeps-write_marker, Confined-pure, inside)
        depth 9

  pub Keeps-write_text : (p : FilePath) (j : Json) → R ctx p ≡ true → Keeps ctx (write_text p j)
  Keeps-write_text p (Json.text s) inside = Confined-write (R ctx) p _ inside
  Keeps-write_text p Json.null inside = Confined-raise (R ctx) _ _
  Keeps-write_text p (Json.flag b) inside = Confined-raise (R ctx) _ _
  Keeps-write_text p (Json.num b) inside = Confined-raise (R ctx) _ _
  Keeps-write_text p (Json.ratio b c) inside = Confined-raise (R ctx) _ _
  Keeps-write_text p (Json.arr b) inside = Confined-raise (R ctx) _ _
  Keeps-write_text p (Json.obj b) inside = Confined-raise (R ctx) _ _

  pub Keeps-test_file_placement : (params : Json) → Keeps ctx (test_file_placement ctx params)
  unfolding test_file_placement
  Keeps-test_file_placement params = rooted ctx "destination" params _ (λ destination inside temp.
      let own = HasTree-self (R ctx) destination inside in
      search (Confined-bind, Confined-make_dirs, Keeps-get_or, Keeps-write_text, Confined-pure, own)
        depth 9)

  pub Keeps-test_metadata_update : (params : Json) → Keeps ctx (test_metadata_update ctx params)
  unfolding test_metadata_update stat
  Keeps-test_metadata_update params = rooted ctx "target" params _ (λ target inside temp.
      let own = HasTree-self (R ctx) target inside in
      search
        (
          Confined-bind, Confined-gets, Confined-or_raise, Keeps-must_exist, Keeps-required,
          Confined-apply_metadata_fields, Confined-pure, own,
        )
        depth 12)

  pub Keeps-wipe : (root : FilePath) → HasTree (R ctx) root → Keeps ctx (wipe root)
  unfolding wipe
  Keeps-wipe root inside =
      Confined-bind (R ctx) _ _
        (Confined-change (R ctx) _ (λ now fs gs h. elim (Bool-cases (exists root fs)) [
          | inl there ↦ remove_directory-Spares (R ctx) root fs gs inside (ground arith)
          | inr absent ↦
              subst (Spares (R ctx) fs) (some_inj fs gs (ground arith)) (λ q n out found. found)
        ]))
        (λ _. Confined-make_dirs (R ctx) root)

  pub Keeps-wipe_all :
      (roots : List FilePath) → All (HasTree (R ctx)) roots → Keeps ctx (wipe_all roots)
  unfolding wipe_all
  Keeps-wipe_all [] h = Confined-pure (R ctx) tt
  Keeps-wipe_all (root ∷ roots) h =
      Confined-bind (R ctx) _ _ (Keeps-wipe root h.0) (λ _. Keeps-wipe_all roots h.1)

  unpack-Spares :
      (base : FilePath) (now : ℕ) (snapshot : FilePath) (fs gs : Files)
      → HasTree (R ctx) base
      → unpack base now snapshot fs ≡ some gs
      → Spares (R ctx) fs gs
  unfolding unpack
  unpack-Spares base now snapshot fs gs inside h = elim (Option-cases (lookup snapshot fs)) [
    | inl e ↦ absurd (ground arith)
    | inr (file (archived ms) a m, e) ↦
        extract-Spares (R ctx) now base ms fs gs inside (ground arith)
    | inr (file (written ps) a m, e) ↦ absurd (ground arith)
    | inr (directory a m, e) ↦ absurd (ground arith)
  ]

  pub Keeps-unpack :
      (roots : List FilePath) (snapshot : FilePath)
      → ((q : FilePath) → beside_first_root roots (some snapshot) q ≡ true → R ctx q ≡ true)
      → Keeps ctx
          (first_root roots >>= λ root. change (λ now fs. unpack (parent root) now snapshot fs))
  Keeps-unpack [] snapshot h =
      Confined-bind_with (R ctx) (λ _. ⊥) _ _ (Confined-raise (R ctx) _ _)
        (λ s p t e. err-ne-ok _ p s t e) (λ r impossible. absurd impossible)
  Keeps-unpack (root ∷ roots) snapshot h =
      Confined-bind_with (R ctx) (λ r. root ≡ r) _ _ (Confined-pure (R ctx) root)
        (λ s p t e. (ok_inj {E = Failure} root p s t e).0)
        (λ r same. Confined-change (R ctx) _ (λ now fs gs.
          unpack-Spares (parent r) now snapshot fs gs
            (λ q below. h q (subst (λ x. is_under (parent x) q ≡ true) (sym same) below))))

  pub Keeps-reseed :
      (baseline : Option FilePath)
      → ((q : FilePath) → beside_first_root ctx.allowed_roots baseline q ≡ true → R ctx q ≡ true)
      → Keeps ctx (reseed ctx.allowed_roots baseline)
  unfolding reseed
  Keeps-reseed none h = Confined-pure (R ctx) tt
  Keeps-reseed (some snapshot) h = Confined-bind (R ctx) _ _ (Confined-gets (R ctx) _) (λ there.
      Confined-if (R ctx) there _ _ (Keeps-unpack ctx.allowed_roots snapshot h)
        (Confined-pure (R ctx) tt))

  module _ (plain : All (λ root. resolve root ≡ root) ctx.allowed_roots) where
    pub Keeps-wipe_and_reseed : Keeps ctx (wipe_and_reseed ctx)
    unfolding wipe_and_reseed
    Keeps-wipe_and_reseed =
        Confined-bind (R ctx) _ _
          (Keeps-wipe_all ctx.allowed_roots (
            All-mono (λ r. in_roots ctx.allowed_roots r ≡ true) (HasTree (R ctx)) ctx.allowed_roots
              (may_change-root ctx) (roots-InRoots ctx.allowed_roots plain)))
          (λ _. Keeps-reseed ctx.baseline_snapshot (may_change-beside ctx))

    pub Keeps-soft_reset : Keeps ctx (soft_reset ctx)
    unfolding soft_reset
    Keeps-soft_reset = search (Confined-bind, Keeps-wipe_and_reseed, Confined-pure)

    pub Keeps-full_rebuild : Keeps ctx (full_rebuild ctx)
    unfolding full_rebuild
    Keeps-full_rebuild =
        let step =
          Confined-change (R ctx)
            (λ now fs.
              if exists (concluded_marker ctx) fs
              then unlink (concluded_marker ctx) fs
              else some fs)
            (λ now fs gs h. elim (Bool-cases (exists (concluded_marker ctx) fs)) [
              | inl there ↦
                  unlink-Spares (R ctx) (concluded_marker ctx) fs gs (data_dir _) (ground arith)
              | inr absent ↦
                  subst (Spares (R ctx) fs) (some_inj fs gs (ground arith)) (λ q n out found. found)
            ]) in
        search (Confined-bind, Keeps-wipe_and_reseed, Confined-pure, step) depth 9
