-- ===== src/EnvController/Execution/Placement.antt =====
-- What PLACE_ARTIFACT does to the files when its content stands in the parameters.
use mirageby_ai.Common.{
  ◌≡◌, sym, ap, ◌∙◌, Bool, true, false, not, ◌&&◌, Option, none, some, [], ◌∷◌, inl, inr, arith,
  Bool-cases,
}
use mathlib.Core.Path.{subst}
use mirageby_ai.Common.Exec.{ok, pure, raise_if, or_raise, ◌>>◌, err-ne-ok, ok_inj, bind_inv}
use mirageby_ai.Contracts.Json.{Json}
use mirageby_ai.EnvController.Paths.{FilePath, resolve, in_roots}
use mirageby_ai.EnvController.Files.{Files, written, raw}
use mirageby_ai.EnvController.Host.{
  Host, Failure, Context, crashed, get_field, truthy, either, required_path, is_text,
}
use mirageby_ai.EnvController.Journal.{Definition, delete_file}
use mirageby_ai.EnvController.Handlers.{
  place_artifact, place_content, place_from, place_at, write_with_parents, retimed,
  apply_metadata_fields, apply_if_any,
}
use mirageby_ai.EnvController.Resolution.{required_path-ReturnsRooted, get_or_same}
use mirageby_ai.EnvController.Execution.Undo.{
  Placed, HasParents, retimed-Placed, change_inv, write_with_parents-Placed,
}

-- No download is asked for.
abbrev pub IsInline : Json → Type 0
IsInline params =
    (h : Host) (url : Json) (t : Host)
    → get_field "download_url" params h ≡ (ok url, t)
    → truthy url ≡ false

or_raise_same :
    {A : Type 0} (o : Option A) (e : Failure) (h : Host) (a : A) (t : Host)
    → or_raise o e h ≡ (ok a, t)
    → t ≡ h
or_raise_same none e h a t r = absurd (err-ne-ok e a h t r)
or_raise_same (some b) e h a t r = sym (ok_inj {E = Failure} b a h t r).1

raise_if_same :
    (b : Bool) (e : Failure) (h : Host) (u : Unit {0}) (t : Host)
    → raise_if b e h ≡ (ok u, t)
    → t ≡ h
raise_if_same true e h u t r = absurd (err-ne-ok e u h t r)
raise_if_same false e h u t r = sym (ok_inj {E = Failure} tt u h t r).1

place_content-Placed :
    (ctx : Context) (h : Host) (p : FilePath) (encoded expected : Json) (u : Unit {0}) (t : Host)
    → HasParents p h.files
    → place_content ctx p encoded expected h ≡ (ok u, t)
    → Placed p h.files t.files
unfolding place_content
place_content-Placed ctx h p (Json.text s) expected u t parents r =
    let decoded = or_raise (ctx.libraries.b64decode s) (crashed "binascii.Error") in
    let (content, h1, e1, r1) = bind_inv decoded _ h u t r in
    let check =
      raise_if (truthy expected && not (is_text expected (ctx.libraries.sha256 content)))
        (crashed "ValueError") in
    let (v, h2, e2, r2) = bind_inv check _ h1 u t r1 in
    let same : h2 ≡ h = raise_if_same _ _ h1 v h2 e2 ∙ or_raise_same _ _ h content h1 e1 in
    write_with_parents-Placed h p parents (written (raw content ∷ [])) u t
      (subst (λ x. write_with_parents p (written (raw content ∷ [])) x ≡ (ok u, t)) same r2)
place_content-Placed ctx h p Json.null expected u t parents r = absurd (err-ne-ok _ u h t r)
place_content-Placed ctx h p (Json.flag b) expected u t parents r = absurd (err-ne-ok _ u h t r)
place_content-Placed ctx h p (Json.num b) expected u t parents r = absurd (err-ne-ok _ u h t r)
place_content-Placed ctx h p (Json.ratio b c) expected u t parents r = absurd (err-ne-ok _ u h t r)
place_content-Placed ctx h p (Json.arr b) expected u t parents r = absurd (err-ne-ok _ u h t r)
place_content-Placed ctx h p (Json.obj b) expected u t parents r = absurd (err-ne-ok _ u h t r)

apply_if_any-Placed :
    (ctx : Context) (before : Files) (p : FilePath) (fields : Json) (s : Host) (u : Unit {0})
    (t : Host)
    → Placed p before s.files
    → apply_if_any ctx p fields s ≡ (ok u, t)
    → Placed p before t.files
unfolding apply_metadata_fields
apply_if_any-Placed ctx before p fields s u t placed r = elim (Bool-cases (truthy fields)) [
  | inl some_ ↦
      let (gs, e, end) =
        change_inv (λ now fs. retimed ctx.libraries fields p fs) s u t (ground arith) in
      subst (Placed p before) (sym (ap (λ (x : Host). x.files) end))
        (retimed-Placed ctx.libraries fields p before s.files gs placed e)
  | inr none_ ↦
      let same : s ≡ t = (ok_inj {E = Failure} tt u s t (ground arith)).1 in
      subst (λ (x : Host). Placed p before x.files) same placed
]

place_at-Placed :
    (ctx : Context) (params : Json) (p : FilePath) (url encoded expected : Json) (h : Host)
    (d : Definition) (t : Host)
    → truthy url ≡ false
    → place_at ctx params p url encoded expected h ≡ (ok d, t)
    → (d ≡ delete_file p) × (HasParents p h.files → Placed p h.files t.files)
unfolding place_at
place_at-Placed ctx params p url encoded expected h d t inline r =
    let (metadata, h2, e2, r2) =
      bind_inv (place_from ctx p url encoded expected >> get_field "visible_metadata" params)
        (λ m. apply_if_any ctx p m >> pure (delete_file p)) h d t r in
    let (v, h1, e1, f1) =
      bind_inv (place_from ctx p url encoded expected) (λ _. get_field "visible_metadata" params) h
        metadata h2 e2 in
    let same : h2 ≡ h1 = get_or_same Json.null "visible_metadata" params h1 metadata h2 f1 in
    let (w, h3, e3, r3) =
      bind_inv (apply_if_any ctx p metadata) (λ _. pure (delete_file p)) h2 d t r2 in
    let last = ok_inj {E = Failure} (delete_file p) d h3 t r3 in
    (
      sym last.0,
      λ parents.
          let first : Placed p h.files h1.files =
            place_content-Placed ctx h p encoded expected v h1 parents (ground arith) in
          subst (λ (x : Host). Placed p h.files x.files) last.1
            (apply_if_any-Placed ctx h.files p metadata h2 w h3
              (subst (λ (x : Host). Placed p h.files x.files) (sym same) first) e3),
    )

pub place_artifact-Placed :
    (ctx : Context) (params : Json) (h : Host) (d : Definition) (t : Host)
    → IsInline params
    → place_artifact ctx params h ≡ (ok d, t)
    → (p : FilePath) × (d ≡ delete_file p)
      × (in_roots ctx.allowed_roots p ≡ true)
      × (resolve p ≡ p)
      × (HasParents p h.files → Placed p h.files t.files)
unfolding place_artifact
place_artifact-Placed ctx params h d t inline r =
    let (p, h1, e1, r1) =
      bind_inv (required_path ctx.allowed_roots "destination" params) _ h d t r in
    let (encoded, h2, e2, r2) = bind_inv (get_field "content_b64" params) _ h1 d t r1 in
    let (url, h3, e3, r3) = bind_inv (get_field "download_url" params) _ h2 d t r2 in
    let (sha256, h4, e4, r4) = bind_inv (get_field "expected_sha256" params) _ h3 d t r3 in
    let (hash, h5, e5, r5) = bind_inv (get_field "expected_hash" params) _ h4 d t r4 in
    let found = required_path-ReturnsRooted ctx.allowed_roots "destination" params h p h1 e1 in
    let same : h5 ≡ h =
      get_or_same Json.null "expected_hash" params h4 hash h5 e5
      ∙ get_or_same Json.null "expected_sha256" params h3 sha256 h4 e4
      ∙ get_or_same Json.null "download_url" params h2 url h3 e3
      ∙ get_or_same Json.null "content_b64" params h1 encoded h2 e2
      ∙ found.1 in
    let done =
      place_at-Placed ctx params p url encoded (either sha256 hash) h d t (inline h2 url h3 e3) (
        subst (λ x. place_at ctx params p url encoded (either sha256 hash) x ≡ (ok d, t)) same
          r5) in
    (p, done.0, found.0, found.2, done.1)
