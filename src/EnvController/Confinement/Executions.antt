-- ===== src/EnvController/Confinement/Executions.antt =====
-- The confinement of execute_action, for an action and for a rollback.
use mirageby_ai.Common.{
  ◌≡◌, refl, sym, String, false, Option, none, some, inl, inr, arith, Bool-cases, any, Option-cases,
  All, str_eq,
}
use mathlib.Core.Path.{subst}
use mirageby_ai.Common.Exec.{Result, ok, err, ◌>>=◌, Exec-cases, bind_ok, bind_err}
use mirageby_ai.Contracts.Json.{Json}
use mirageby_ai.SandboxActions.Types.{allowed_action_types}
use mirageby_ai.EnvController.Paths.{FilePath, resolve}
use mirageby_ai.EnvController.Files.{Node, lookup}
use mirageby_ai.EnvController.Host.{Host, Act, Failure, Context, required, within_roots}
use mirageby_ai.EnvController.Journal.{
  Definition, noop, delete_file, delete_directory, move_file, restore_metadata,
  enable_decoy_service, disable_decoy_service, get,
}
use mirageby_ai.EnvController.Execution.{
  apply_rollback_definition, apply_if_defined, if_exists, handler, Request, finish, finish_rollback,
  rollback_of, rollback_target, execute_rollback_action, execute_action,
}
use mirageby_ai.EnvController.Resolution.{within_roots-ReturnsRooted}
use mirageby_ai.EnvController.Confinement.{
  Spares, Confined, HasTree, Confined-pure, Confined-raise, Confined-gets, Confined-bind,
  Confined-bind_with, Confined-if,
}
use mirageby_ai.EnvController.Confinement.Steps.{
  HasTree-self, Confined-make_dirs, Confined-move, Confined-unlink, Confined-remove_directory,
  Confined-apply_metadata_fields,
}
use mirageby_ai.EnvController.Confinement.Actions.{
  may_change, may_change-root, Keeps, Keeps-required, Keeps-within_roots,
}
use mirageby_ai.EnvController.Confinement.Handlers.{
  R, Keeps-place_artifact, Keeps-move_artifact, Keeps-create_decoy_directory,
  Keeps-change_visible_metadata, Keeps-display_message, Keeps-enable_service, Keeps-disable_service,
  Keeps-enable, Keeps-disable,
}
use mirageby_ai.EnvController.Confinement.Sessions.{
  Keeps-request_snapshot, Keeps-conclude_session, Keeps-clean_shutdown, Keeps-test_file_placement,
  Keeps-test_metadata_update, Keeps-soft_reset, Keeps-full_rebuild,
}

module _ (ctx : Context) where
  -- A block that begins with a path of a rollback definition
  within :
      {A : Type 0} (p : FilePath) (rest : FilePath → Act A)
      → ((q : FilePath) → HasTree (R ctx) q → Keeps ctx (rest q))
      → Keeps ctx (within_roots ctx.allowed_roots p >>= rest)
  within p rest h =
      Confined-bind_with (R ctx) (HasTree (R ctx)) (within_roots ctx.allowed_roots p) rest
        (Keeps-within_roots ctx p)
        (λ s q t e.
          may_change-root ctx q (within_roots-ReturnsRooted ctx.allowed_roots p s q t e).0)
        h

  Keeps-if_exists : (p : FilePath) (m : Act (Unit {0})) → Keeps ctx m → Keeps ctx (if_exists p m)
  Keeps-if_exists p m h = search (Confined-bind, Confined-gets, Confined-if, Confined-pure, h)

  Keeps-rollback :
      All (λ root. resolve root ≡ root) ctx.allowed_roots
      → (d : Definition) → Keeps ctx (apply_rollback_definition ctx d)
  unfolding apply_rollback_definition
  Keeps-rollback plain noop = Confined-pure (R ctx) tt
  Keeps-rollback plain (delete_file p) =
      within p _ (λ q inside. Keeps-if_exists q _ (Confined-unlink (R ctx) q inside))
  Keeps-rollback plain (delete_directory p) =
      within p _ (λ q inside. Keeps-if_exists q _ (Confined-remove_directory (R ctx) q inside))
  Keeps-rollback plain (move_file p d) = within p _ (λ source hs. within d _ (λ destination hd.
      Keeps-if_exists source _ (search (Confined-bind, Confined-make_dirs, Confined-move, hs, hd))))
  Keeps-rollback plain (restore_metadata p prior) = within p _ (λ q inside.
      Keeps-if_exists q _
        (Confined-apply_metadata_fields (R ctx) ctx q prior (HasTree-self (R ctx) q inside)))
  Keeps-rollback plain (enable_decoy_service id prior) = Keeps-enable ctx plain (Json.text id) prior
  Keeps-rollback plain (disable_decoy_service id) =
      Confined-bind (R ctx) _ _ (Keeps-disable ctx plain (Json.text id))
        (λ _. Confined-pure (R ctx) tt)

  pub Keeps-handler :
      All (λ root. resolve root ≡ root) ctx.allowed_roots
      → (t : String) (params : Json) → Keeps ctx (handler ctx t params)
  unfolding handler
  Keeps-handler plain t params =
      search
        (
          Confined-if, Confined-raise, Keeps-request_snapshot, Keeps-conclude_session,
          Keeps-clean_shutdown, Keeps-test_file_placement, Keeps-test_metadata_update,
          Keeps-soft_reset, Keeps-full_rebuild, Keeps-place_artifact, Keeps-move_artifact,
          Keeps-create_decoy_directory, Keeps-change_visible_metadata, Keeps-display_message,
          Keeps-enable_service, Keeps-disable_service,
        )
        depth 20

pub finish-files :
    (r : Request) (x : Result Failure Definition × Host) → (finish r x).1.files ≡ x.1.files
unfolding finish
finish-files r (ok d, h) = ground arith
finish-files r (err e, h) = refl

finish_rollback-files :
    (r : Request) (target : String) (x : Result Failure (Unit {0}) × Host)
    → (finish_rollback r target x).1.files ≡ x.1.files
unfolding finish_rollback
finish_rollback-files r target (ok u, h) = refl
finish_rollback-files r target (err e, h) = refl

-- What the call may do to the files; its own entry in the journal apart
abbrev SparesBy : {A : Type 0} → Context → Act A → Type 0
SparesBy ctx m = (h : Host) → Spares (may_change ctx) h.files (m h).1.files

module _ (ctx : Context) (plain : All (λ root. resolve root ≡ root) ctx.allowed_roots) where
  pub Keeps-defined : (d : Option Definition) → Keeps ctx (apply_if_defined ctx d)
  Keeps-defined none = Confined-pure (R ctx) tt
  Keeps-defined (some d) = Keeps-rollback ctx plain d

  rollback_of-SparesBy : (r : Request) (target : String) → SparesBy ctx (rollback_of ctx r target)
  unfolding rollback_of Confined
  rollback_of-SparesBy r target h q n out found = elim (Option-cases (get target h.journal)) [
    | inl e ↦ ground arith
    | inr (entry, e) ↦
        let kept = (Keeps-defined entry.rollback_definition h).0 q n out found in
        let same =
          finish_rollback-files r target (apply_if_defined ctx entry.rollback_definition h) in
        ground arith
  ]

  target-SparesBy : (r : Request) (j : Json) → SparesBy ctx (rollback_target ctx r j)
  target-SparesBy r (Json.text s) h q n out found = rollback_of-SparesBy r s h q n out found
  target-SparesBy r Json.null h q n out found = found
  target-SparesBy r (Json.flag b) h q n out found = found
  target-SparesBy r (Json.num b) h q n out found = found
  target-SparesBy r (Json.ratio b c) h q n out found = found
  target-SparesBy r (Json.arr b) h q n out found = found
  target-SparesBy r (Json.obj b) h q n out found = found

  execute_rollback_action-SparesBy : (r : Request) → SparesBy ctx (execute_rollback_action ctx r)
  unfolding execute_rollback_action Confined
  execute_rollback_action-SparesBy r h q n out found =
      let m = required "target_action_id" r.action_params in
      let read = (Keeps-required ctx "target_action_id" r.action_params h).0 q n out found in
      elim (Exec-cases (m h)) [
        | inl (j, t, e) ↦
            subst (λ x. lookup q x.1.files ≡ some n)
              (sym (bind_ok m (rollback_target ctx r) h j t e))
              (target-SparesBy r j t q n out (subst (λ x. lookup q x.1.files ≡ some n) e read))
        | inr (x, t, e) ↦
            subst (λ x. lookup q x.1.files ≡ some n)
              (sym (bind_err m (rollback_target ctx r) h x t e))
              (subst (λ x. lookup q x.1.files ≡ some n) e read)
      ]

  -- When the approved roots are written without `..`, then whatever action is asked for, with
  -- whatever parameters, an entry outside of the region that may change (the roots, the data
  -- directory, the temporary file of a download onto a root, and with a baseline configured the
  -- directory of the first root) is after it what it was before.
  pub execute_action-spares :
      (r : Request) (h : Host) (q : FilePath) (n : Node)
      → may_change ctx q ≡ false
      → lookup q h.files ≡ some n
      → lookup q (execute_action ctx r h).1.files ≡ some n
  unfolding execute_action Confined
  execute_action-spares r h q n out found =
      elim (Bool-cases (any (λ t. str_eq t r.action_type) allowed_action_types)) [
        | inl known ↦ elim (Bool-cases (str_eq r.action_type "ROLLBACK_ACTION")) [
          | inl rollback ↦
              let kept = execute_rollback_action-SparesBy r h q n out found in ground arith
          | inr other ↦
              let kept =
                (Keeps-handler ctx plain r.action_type r.action_params h).0 q n out found in
              let same = finish-files r (handler ctx r.action_type r.action_params h) in
              ground arith
        ]
        | inr unknown ↦ ground arith
      ]
