-- ===== src/EnvController/Confinement/Handlers.antt =====
-- Each handler against the approved roots and the data directory.
use mirageby_ai.Common.{
  ◌≡◌, sym, ◌∙◌, String, Bool, true, Option, none, some, List, [], ◌∷◌, ◌++◌, inl, inr, arith,
  Option-cases, All,
}
use mathlib.Core.Path.{subst}
use mirageby_ai.Common.Exec.{◌>>=◌, Exec-cases, bind_ok, bind_err, ok_inj, err-ne-ok}
use mirageby_ai.Contracts.Text.{codes}
use mirageby_ai.Contracts.Json.{Json}
use mirageby_ai.EnvController.Paths.{FilePath, resolve}
use mirageby_ai.EnvController.Files.{Node, Content}
use mirageby_ai.EnvController.Host.{Act, Failure, Context, required_path, first_root}
use mirageby_ai.EnvController.Handlers.{
  place_artifact, move_artifact, create_decoy_directory, change_visible_metadata, display_message,
  enable_service, disable_service, enable, disable, disable_node, approved_service, marker_path,
  place_download, place_content, place_at, disable_marker, must_exist, write_with_parents,
  apply_if_any, log_message,
}
use mirageby_ai.EnvController.Downloads.{temp_path, downloaded}
use mirageby_ai.EnvController.Resolution.{required_path-InRoots}
use mirageby_ai.EnvController.Confinement.{
  HasTree, Confined-pure, Confined-raise, Confined-gets, Confined-bind, Confined-bind_with,
  Confined-raise_if, Confined-if, Confined-or_raise,
}
use mirageby_ai.EnvController.Confinement.Steps.{
  HasTree-self, HasTree-append, Confined-make_dirs, Confined-write, Confined-unlink, Confined-move,
  Confined-apply_metadata_fields, Confined-append, Confined-or_discarded, keep_download-Spares,
}
use mirageby_ai.EnvController.Confinement.Actions.{
  may_change, may_change-root, may_change-temp, first_root-InRoots, Keeps, Keeps-required,
  Keeps-get_or, Keeps-required_path,
}

module _ (ctx : Context) where
  abbrev pub R : FilePath → Bool
  R = may_change ctx

  ruleset keeps_rules = (
    Confined-bind, Confined-raise_if, Confined-gets, Confined-pure, Confined-raise, Confined-if,
    Confined-or_raise, Confined-make_dirs, Keeps-required, Keeps-get_or, Keeps-required_path,
  )

  -- A block that begins with a path among the parameters
  pub rooted :
      {A : Type 0} (k : String) (params : Json) (rest : FilePath → Act A)
      → ((p : FilePath) → HasTree R p → HasTree R (temp_path p) → Keeps ctx (rest p))
      → Keeps ctx (required_path ctx.allowed_roots k params >>= rest)
  rooted k params rest h =
      Confined-bind_with R (λ p. HasTree R p × HasTree R (temp_path p))
        (required_path ctx.allowed_roots k params) rest (Keeps-required_path ctx k params)
        (λ s p t e.
          let inside = required_path-InRoots ctx.allowed_roots k params s p t e in
          (may_change-root ctx p inside, may_change-temp ctx p inside))
        (λ p both. h p both.0 both.1)

  pub Keeps-must_exist : (p : FilePath) → Keeps ctx (must_exist p)
  Keeps-must_exist p = search (Confined-bind, Confined-raise_if, Confined-gets)

  pub Keeps-move_artifact : (params : Json) → Keeps ctx (move_artifact ctx params)
  unfolding move_artifact
  Keeps-move_artifact params = rooted "source" params _ (λ source hs ts.
      rooted "destination" params _ (λ destination hd td.
        search (Confined-bind, Keeps-must_exist, Confined-make_dirs, Confined-move, Confined-pure)))

  pub Keeps-apply_if_any :
      (p : FilePath) (fields : Json) → R p ≡ true → Keeps ctx (apply_if_any ctx p fields)
  Keeps-apply_if_any p fields inside =
      search (Confined-if, Confined-apply_metadata_fields, Confined-pure)

  pub Keeps-write_with_parents :
      (p : FilePath) (c : Content) → R p ≡ true → Keeps ctx (write_with_parents p c)
  Keeps-write_with_parents p c inside =
      search (Confined-bind, Confined-make_dirs, Confined-write R p (λ now fs. c) inside)

  pub Keeps-create_decoy_directory : (params : Json) → Keeps ctx (create_decoy_directory ctx params)
  unfolding create_decoy_directory
  Keeps-create_decoy_directory params = rooted "path" params _ (λ path hp tp.
      let profile_file = path ++ codes ".mirage_metadata_profile.json" ∷ [] in
      let inside = HasTree-self R profile_file (HasTree-append R path _ hp) in
      search (
        Confined-bind, Confined-make_dirs, Keeps-get_or, Confined-if, Confined-write, Confined-pure,
        inside,
      ))

  pub Keeps-change_visible_metadata :
      (params : Json) → Keeps ctx (change_visible_metadata ctx params)
  unfolding change_visible_metadata
  Keeps-change_visible_metadata params = rooted "target" params _ (λ target ht tt_.
      let inside = HasTree-self R target ht in
      search (
        Confined-bind, Keeps-must_exist, Keeps-required, Confined-apply_metadata_fields,
        Confined-pure, inside,
      ))

  pub Keeps-place_content :
      (destination : FilePath) (encoded expected : Json)
      → R destination ≡ true
      → Keeps ctx (place_content ctx destination encoded expected)
  unfolding place_content
  Keeps-place_content destination (Json.text s) expected inside =
      search (Confined-bind, Confined-or_raise, Confined-raise_if, Keeps-write_with_parents, inside)
  Keeps-place_content destination Json.null expected inside = Confined-raise R _ _
  Keeps-place_content destination (Json.flag b) expected inside = Confined-raise R _ _
  Keeps-place_content destination (Json.num b) expected inside = Confined-raise R _ _
  Keeps-place_content destination (Json.ratio b c) expected inside = Confined-raise R _ _
  Keeps-place_content destination (Json.arr b) expected inside = Confined-raise R _ _
  Keeps-place_content destination (Json.obj b) expected inside = Confined-raise R _ _

  pub Keeps-place_download :
      (destination : FilePath) (url expected : Json)
      → HasTree R destination
      → HasTree R (temp_path destination)
      → Keeps ctx (place_download ctx destination url expected)
  unfolding place_download
  Keeps-place_download destination (Json.text s) expected inside temp =
      Confined-bind R _ _ (search (Confined-bind, Confined-raise_if, Confined-make_dirs)) (λ _.
        Confined-or_discarded R (temp_path destination) _
          (HasTree-self R (temp_path destination) temp)
          (λ now fs gs h. elim (Option-cases (downloaded ctx.libraries s expected)) [
            | inl e ↦ absurd (ground arith)
            | inr (content, e) ↦
                keep_download-Spares R destination content now fs gs inside temp (ground arith)
          ]))
  Keeps-place_download destination Json.null expected inside temp = Confined-raise R _ _
  Keeps-place_download destination (Json.flag b) expected inside temp = Confined-raise R _ _
  Keeps-place_download destination (Json.num b) expected inside temp = Confined-raise R _ _
  Keeps-place_download destination (Json.ratio b c) expected inside temp = Confined-raise R _ _
  Keeps-place_download destination (Json.arr b) expected inside temp = Confined-raise R _ _
  Keeps-place_download destination (Json.obj b) expected inside temp = Confined-raise R _ _

  pub Keeps-approved_service : (j : Json) → Keeps ctx (approved_service j)
  unfolding approved_service
  Keeps-approved_service (Json.text s) = search (Confined-if, Confined-pure, Confined-raise)
  Keeps-approved_service Json.null = Confined-raise R _ _
  Keeps-approved_service (Json.flag b) = Confined-raise R _ _
  Keeps-approved_service (Json.num b) = Confined-raise R _ _
  Keeps-approved_service (Json.ratio b c) = Confined-raise R _ _
  Keeps-approved_service (Json.arr b) = Confined-raise R _ _
  Keeps-approved_service (Json.obj b) = Confined-raise R _ _

  pub Keeps-roots : (roots : List FilePath) → Keeps ctx (first_root roots)
  Keeps-roots [] = Confined-raise R _ _
  Keeps-roots (root ∷ roots) = Confined-pure R root

  -- The first of the roots, when they are written without `..`
  pub Keeps-first_root :
      {A : Type 0} (rest : FilePath → Act A)
      → All (λ root. resolve root ≡ root) ctx.allowed_roots
      → ((root : FilePath) → HasTree R root → Keeps ctx (rest root))
      → Keeps ctx (first_root ctx.allowed_roots >>= rest)
  Keeps-first_root rest plain h =
      Confined-bind_with R (HasTree R) (first_root ctx.allowed_roots) rest
        (Keeps-roots ctx.allowed_roots)
        (λ s p t e. may_change-root ctx p (first_root-InRoots ctx.allowed_roots plain s p t e)) h

  pub Keeps-place_artifact : (params : Json) → Keeps ctx (place_artifact ctx params)
  unfolding place_artifact place_at
  Keeps-place_artifact params = rooted "destination" params _ (λ destination inside temp.
      let own = HasTree-self R destination inside in
      search
        (
          Confined-bind, Keeps-get_or, Confined-if, Keeps-place_download, Keeps-place_content,
          Keeps-apply_if_any, Confined-pure, inside, temp, own,
        )
        depth 16)

  module _ (plain : All (λ root. resolve root ≡ root) ctx.allowed_roots) where
    -- The marker of a service
    marked :
        {A : Type 0} (id : String) (rest : FilePath → Act A)
        → ((p : FilePath) → HasTree R p → Keeps ctx (rest p))
        → Keeps ctx (marker_path ctx.allowed_roots id >>= rest)
    marked id rest h =
        Confined-bind_with R (HasTree R) (marker_path ctx.allowed_roots id) rest
          (Confined-bind R _ _ (Keeps-roots ctx.allowed_roots) (λ root. Confined-pure R _))
          (λ s p t e. elim (Exec-cases (first_root ctx.allowed_roots s)) [
            | inl (root, u, f) ↦
                let inside = first_root-InRoots ctx.allowed_roots plain s root u f in
                let same =
                  ok_inj {E = Failure} _ p u t
                    (sym (bind_ok (first_root ctx.allowed_roots) _ s root u f) ∙ e) in
                subst (HasTree R) same.0 (HasTree-append R root _ (may_change-root ctx root inside))
            | inr (x, u, f) ↦
                absurd
                  (err-ne-ok x p u t (sym (bind_err (first_root ctx.allowed_roots) _ s x u f) ∙ e))
          ])
          h

    pub Keeps-enable :
        (service_id profile : Json) → Keeps ctx (enable ctx.allowed_roots service_id profile)
    unfolding enable
    Keeps-enable service_id profile = Confined-bind R _ _ (Keeps-approved_service service_id) (λ id.
        marked id _
          (λ marker inside. Keeps-write_with_parents marker _ (HasTree-self R marker inside)))

    pub Keeps-disable_node :
        (marker : FilePath) (n : Option Node)
        → HasTree R marker
        → Keeps ctx (disable_node ctx marker n)
    unfolding disable_node
    Keeps-disable_node marker none inside = Confined-pure R _
    Keeps-disable_node marker (some n) inside =
        search
          (Confined-bind, Confined-or_raise, Keeps-get_or, Confined-unlink, Confined-pure, inside)
          depth 9

    pub Keeps-disable : (service_id : Json) → Keeps ctx (disable ctx service_id)
    unfolding disable disable_marker
    Keeps-disable service_id = Confined-bind R _ _ (Keeps-approved_service service_id) (λ id.
        marked id _ (λ marker inside.
          Confined-bind R _ _ (Confined-gets R _) (λ n. Keeps-disable_node marker n inside)))

    pub Keeps-enable_service : (params : Json) → Keeps ctx (enable_service ctx params)
    unfolding enable_service
    Keeps-enable_service params =
        search (Confined-bind, Keeps-required, Keeps-get_or, Keeps-enable, Confined-pure) depth 9

    pub Keeps-disable_service : (params : Json) → Keeps ctx (disable_service ctx params)
    unfolding disable_service
    Keeps-disable_service params =
        search (Confined-bind, Keeps-required, Keeps-disable, Confined-pure) depth 9

    pub Keeps-display_message : (params : Json) → Keeps ctx (display_message ctx params)
    unfolding display_message
    Keeps-display_message params =
        Confined-bind R _ _ (Keeps-get_or ctx Json.null "output_tag" params) (λ tag.
          Confined-bind R _ _ (Confined-raise_if R _ _) (λ _.
            Keeps-first_root (log_message params tag) plain (λ root inside.
              let log =
                HasTree-self R _ (HasTree-append R root (codes "_messages.log" ∷ []) inside) in
              search
                (
                  Confined-bind, Confined-make_dirs, Keeps-required, Confined-append, Confined-pure,
                  log,
                )
                depth 9)))
