-- ===== src/EnvController/Execution/Undo.antt =====
-- Files before and after a file is placed, and what delete_file makes of them in the rollback.
use mirageby_ai.Common.{
  ℕ, ◌≡◌, sym, ap, ◌∙◌, true, false, Option, none, some, inl, inr, arith, Bool-cases, Option-cases,
  some_inj,
}
use mathlib.Core.Path.{subst}
use mirageby_ai.Common.Exec.{ok, ◌>>=◌, bind_ok, ok_inj, bind_inv}
use mirageby_ai.Contracts.Json.{Json}
use mirageby_ai.EnvController.Paths.{FilePath, resolve, in_roots, same_path, parent}
use mirageby_ai.EnvController.Files.{
  file, directory, Files, Content, lookup, exists, put, make_dirs, write_file, unlink, remove_row,
}
use mirageby_ai.EnvController.Files.Lookup.{
  lookup-put, lookup-put_other, lookup-remove_row, lookup-remove_row_same, same_path_iff,
}
use mirageby_ai.EnvController.Host.{Host, Failure, Context, Libraries, change, within_roots}
use mirageby_ai.EnvController.Journal.{delete_file}
use mirageby_ai.EnvController.Handlers.{write_with_parents, retimed, times_of}
use mirageby_ai.EnvController.Execution.{apply_rollback_definition, if_exists}

-- The second table differs from the first at most at the path, where it has a file.
pub record Placed (p : FilePath) (fs gs : Files) : Type 0 where
  pub elsewhere : (q : FilePath) → same_path p q ≡ false → lookup q gs ≡ lookup q fs
  pub content : Content
  pub accessed : ℕ
  pub modified : ℕ
  pub there : lookup p gs ≡ some (file content accessed modified)

abbrev pub HasParents : FilePath → Files → Type 0
HasParents p fs = (now : ℕ) → make_dirs now (parent p) fs ≡ some fs

Placed-put :
    (p : FilePath) (c : Content) (a m : ℕ) (fs : Files) → Placed p fs (put p (file c a m) fs)
Placed-put p c a m fs = record {
  elsewhere = λ q apart. lookup-put_other p q (file c a m) fs apart;
  content = c;
  accessed = a;
  modified = m;
  there = lookup-put p (file c a m) fs;
}

write_file-Placed :
    (now : ℕ) (p : FilePath) (c : Content) (fs gs : Files)
    → write_file now p c fs ≡ some gs
    → Placed p fs gs
unfolding write_file
write_file-Placed now p c fs gs h = elim (Option-cases (lookup p fs)) [
  | inl e ↦
      let same : put p (file c now now) fs ≡ gs = ground arith in
      subst (Placed p fs) same (Placed-put p c now now fs)
  | inr (file d a m, e) ↦
      let same : put p (file c a now) fs ≡ gs = ground arith in
      subst (Placed p fs) same (Placed-put p c a now fs)
  | inr (directory a m, e) ↦ absurd (ground arith)
]

pub retimed-Placed :
    (libs : Libraries) (fields : Json) (p : FilePath) (fs gs hs : Files)
    → Placed p fs gs
    → retimed libs fields p gs ≡ some hs
    → Placed p fs hs
unfolding retimed
retimed-Placed libs fields p fs gs hs placed h =
    let n = file placed.content placed.accessed placed.modified in
    elim (Option-cases (times_of libs fields n)) [
      | inl e ↦ let there = placed.there in absurd (ground arith)
      | inr (t, e) ↦
          let there = placed.there in
          let same : put p (file placed.content t.0 t.1) gs ≡ hs = ground arith in
          let m = file placed.content t.0 t.1 in
          subst (Placed p fs) same (record {
            elsewhere = λ q apart. lookup-put_other p q m gs apart ∙ placed.elsewhere q apart;
            content = placed.content;
            accessed = t.0;
            modified = t.1;
            there = lookup-put p m gs;
          })
    ]

-- A change that returned
pub change_inv :
    (f : ℕ → Files → Option Files) (h : Host) (u : Unit {0}) (t : Host)
    → change f h ≡ (ok u, t)
    → (gs : Files) × (f h.now h.files ≡ some gs) × (t ≡ record h { files = gs })
change_inv f h u t r = elim (Option-cases (f h.now h.files)) [
  | inl e ↦ absurd (ground arith)
  | inr (gs, e) ↦
      (gs, e, sym (ok_inj {E = Failure} tt u (record h { files = gs }) t (ground arith)).1)
]

module _ (h : Host) (p : FilePath) (parents : HasParents p h.files) where
  pub write_with_parents-Placed :
      (c : Content) (u : Unit {0}) (t : Host)
      → write_with_parents p c h ≡ (ok u, t)
      → Placed p h.files t.files
  write_with_parents-Placed c u t r =
      let (v, s, e, f) =
        bind_inv (change (λ now fs. make_dirs now (parent p) fs))
          (λ _. change (λ now fs. write_file now p c fs)) h u t r in
      let (fs, made, at) = change_inv (λ now fs. make_dirs now (parent p) fs) h v s e in
      let (gs, wrote, end) = change_inv (λ now fs. write_file now p c fs) s u t f in
      let kept : h.files ≡ fs = some_inj h.files fs (sym (parents h.now) ∙ made) in
      let start : s.files ≡ h.files = ap (λ (x : Host). x.files) at ∙ sym kept in
      let after : gs ≡ t.files = sym (ap (λ (x : Host). x.files) end) in
      subst (λ x. Placed p x t.files) start
        (subst (Placed p s.files) after (write_file-Placed s.now p c s.files gs wrote))

-- The rollback of a placed file, from any state in which it still stands
pub delete_file-restores :
    (ctx : Context) (p : FilePath) (before : Files) (t : Host)
    → in_roots ctx.allowed_roots p ≡ true
    → resolve p ≡ p
    → lookup p before ≡ none
    → Placed p before t.files
    → let u = record t { files = remove_row p t.files } in
      (apply_rollback_definition ctx (delete_file p) t ≡ (ok tt, u))
      × ((q : FilePath) → lookup q u.files ≡ lookup q before)
unfolding apply_rollback_definition within_roots exists unlink ◌>>=◌
delete_file-restores ctx p before t inside plain fresh placed =
    let there = placed.there in
    let resolved : within_roots ctx.allowed_roots p t ≡ (ok p, t) = ground arith in
    (
      bind_ok (within_roots ctx.allowed_roots p)
            (λ path. if_exists path (change (λ now fs. unlink path fs))) t p t resolved
          ∙ ground arith,
      λ q. elim (Bool-cases (same_path p q)) [
        | inl e ↦
            let same = (same_path_iff p q).0 e in
            subst (λ x. lookup x (remove_row p t.files) ≡ lookup x before) same
              (lookup-remove_row_same p t.files ∙ sym fresh)
        | inr e ↦ lookup-remove_row p q t.files e ∙ placed.elsewhere q e
      ],
    )
