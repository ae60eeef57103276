-- ===== src/EnvController/Confinement/Steps.antt =====
-- The single steps of the handlers against a region that has the paths they name.
use mirageby_ai.Common.{
  ℕ, ◌≡◌, refl, String, Bool, true, ◌||◌, not, Option, some, [], ◌∷◌, ◌++◌, inl, inr, arith,
  Bool-cases, Option-cases, some_inj,
}
use mathlib.Core.Path.{subst}
use mirageby_ai.Contracts.Json.{Json}
use mirageby_ai.EnvController.Paths.{FilePath, same_path, parent, name}
use mirageby_ai.EnvController.Files.{
  raw, dumped, written, archived, with_times, file, directory, Files, Content, Members, none_left,
  member, lookup, put, remove_row, remove_tree, make_dirs, write_file, unlink, remove_directory,
  move, move_target, is_directory, extract,
}
use mirageby_ai.EnvController.Files.Lookup.{is_under_trans, is_under-append, is_under_refl}
use mirageby_ai.EnvController.Host.{change, Context, Libraries}
use mirageby_ai.EnvController.Handlers.{retimed, appended, times_of, apply_metadata_fields}
use mirageby_ai.EnvController.Downloads.{discard, replace, keep_download, temp_path, or_discarded}
use mirageby_ai.EnvController.Confinement.{
  Spares, Confined, HasTree, Confined-change, Spares-put, Spares-remove_tree, Spares-remove_row,
  Spares-rename, make_dirs-Spares,
}

module _ (R : FilePath → Bool) where
  pub HasTree-self : (p : FilePath) → HasTree R p → R p ≡ true
  HasTree-self p h = h p (is_under_refl p)

  pub HasTree-append : (p x : FilePath) → HasTree R p → HasTree R (p ++ x)
  HasTree-append p x h q below = h q (is_under_trans p (p ++ x) q (is_under-append p x) below)

  pub write_file-Spares :
      (now : ℕ) (p : FilePath) (c : Content) (fs gs : Files)
      → R p ≡ true
      → write_file now p c fs ≡ some gs
      → Spares R fs gs
  unfolding write_file
  write_file-Spares now p c fs gs inside h = elim (Option-cases (lookup p fs)) [
    | inl e ↦
        let same : put p (file c now now) fs ≡ gs = ground arith in
        subst (Spares R fs) same (Spares-put R p (file c now now) fs inside)
    | inr (file d a m, e) ↦
        let same : put p (file c a now) fs ≡ gs = ground arith in
        subst (Spares R fs) same (Spares-put R p (file c a now) fs inside)
    | inr (directory a m, e) ↦ absurd (ground arith)
  ]

  pub Confined-make_dirs : (p : FilePath) → Confined R (change (λ now fs. make_dirs now p fs))
  Confined-make_dirs p =
      Confined-change R (λ now fs. make_dirs now p fs) (λ now fs gs. make_dirs-Spares R now p fs gs)

  pub Confined-write :
      (p : FilePath) (c : ℕ → Files → Content)
      → R p ≡ true
      → Confined R (change (λ now fs. write_file now p (c now fs) fs))
  Confined-write p c inside =
      Confined-change R (λ now fs. write_file now p (c now fs) fs)
        (λ now fs gs h. write_file-Spares now p (c now fs) fs gs inside h)

  pub unlink-Spares :
      (p : FilePath) (fs gs : Files) → HasTree R p → unlink p fs ≡ some gs → Spares R fs gs
  unfolding unlink
  unlink-Spares p fs gs inside h =
      subst (Spares R fs) same (Spares-remove_row R p fs (HasTree-self p inside))
    where
      same : remove_row p fs ≡ gs
      same = elim (Option-cases (lookup p fs)) [
        | inl e ↦ absurd (ground arith)
        | inr (n, e) ↦ ground arith
      ]

  pub Confined-unlink : (p : FilePath) → HasTree R p → Confined R (change (λ now fs. unlink p fs))
  Confined-unlink p inside =
      Confined-change R (λ now fs. unlink p fs) (λ now fs gs. unlink-Spares p fs gs inside)

  pub remove_directory-Spares :
      (p : FilePath) (fs gs : Files)
      → HasTree R p
      → remove_directory p fs ≡ some gs
      → Spares R fs gs
  unfolding remove_directory
  remove_directory-Spares p fs gs inside h =
      subst (Spares R fs) same (Spares-remove_tree R p fs inside)
    where
      same : remove_tree p fs ≡ gs
      same = elim (Option-cases (lookup p fs)) [
        | inl e ↦ absurd (ground arith)
        | inr (n, e) ↦ ground arith
      ]

  pub Confined-remove_directory :
      (p : FilePath) → HasTree R p → Confined R (change (λ now fs. remove_directory p fs))
  Confined-remove_directory p inside =
      Confined-change R (λ now fs. remove_directory p fs)
        (λ now fs gs. remove_directory-Spares p fs gs inside)

  move_target-HasTree :
      (source destination : FilePath) (fs : Files) (to : FilePath)
      → HasTree R destination
      → move_target source destination fs ≡ some to
      → HasTree R to
  unfolding move_target
  move_target-HasTree source destination fs to inside h =
      elim (Option-cases (lookup destination fs)) [
        | inl e ↦ subst (HasTree R) (ground arith) inside
        | inr (n, e) ↦ elim (Bool-cases (not (is_directory n) || same_path source destination)) [
          | inl k ↦ subst (HasTree R) (ground arith) inside
          | inr k ↦
              subst (HasTree R) (ground arith)
                (HasTree-append destination (name source ∷ []) inside)
        ]
      ]

  move-Spares :
      (source destination : FilePath) (fs gs : Files)
      → HasTree R source
      → HasTree R destination
      → move source destination fs ≡ some gs
      → Spares R fs gs
  unfolding move
  move-Spares source destination fs gs hs hd h = elim (Option-cases (lookup source fs)) [
    | inl e ↦ absurd (ground arith)
    | inr (n, e) ↦ elim (Option-cases (move_target source destination fs)) [
      | inl k ↦ absurd (ground arith)
      | inr (to, k) ↦
          let inside = move_target-HasTree source destination fs to hd k in
          elim (Bool-cases (same_path source to)) [
            | inl same ↦ subst (Spares R fs) (ground arith) (λ q m out found. found)
            | inr apart ↦
                subst (Spares R fs) (ground arith) (Spares-rename R source to fs hs inside)
          ]
    ]
  ]

  pub Confined-move :
      (source destination : FilePath)
      → HasTree R source
      → HasTree R destination
      → Confined R (change (λ now fs. move source destination fs))
  Confined-move source destination hs hd =
      Confined-change R (λ now fs. move source destination fs)
        (λ now fs gs. move-Spares source destination fs gs hs hd)

  retimed-Spares :
      (libs : Libraries) (fields : Json) (p : FilePath) (fs gs : Files)
      → R p ≡ true
      → retimed libs fields p fs ≡ some gs
      → Spares R fs gs
  unfolding retimed
  retimed-Spares libs fields p fs gs inside h = elim (Option-cases (lookup p fs)) [
    | inl e ↦ absurd (ground arith)
    | inr (n, e) ↦ elim (Option-cases (times_of libs fields n)) [
      | inl k ↦ absurd (ground arith)
      | inr (t, k) ↦
          let same : put p (with_times t.0 t.1 n) fs ≡ gs = ground arith in
          subst (Spares R fs) same (Spares-put R p (with_times t.0 t.1 n) fs inside)
    ]
  ]

  pub Confined-apply_metadata_fields :
      (ctx : Context) (p : FilePath) (fields : Json)
      → R p ≡ true
      → Confined R (apply_metadata_fields ctx p fields)
  unfolding apply_metadata_fields
  Confined-apply_metadata_fields ctx p fields inside =
      Confined-change R (λ now fs. retimed ctx.libraries fields p fs)
        (λ now fs gs. retimed-Spares ctx.libraries fields p fs gs inside)

  appended-Spares :
      (now : ℕ) (p : FilePath) (entry : Json) (fs gs : Files)
      → R p ≡ true
      → appended now p entry fs ≡ some gs
      → Spares R fs gs
  unfolding appended
  appended-Spares now p entry fs gs inside h = elim (Option-cases (lookup p fs)) [
    | inl e ↦
        let n = file (written (dumped entry ∷ raw "\n" ∷ [])) now now in
        let same : put p n fs ≡ gs = ground arith in
        subst (Spares R fs) same (Spares-put R p n fs inside)
    | inr (file (written pieces) a m, e) ↦
        let n = file (written (pieces ++ dumped entry ∷ raw "\n" ∷ [])) a now in
        let same : put p n fs ≡ gs = ground arith in
        subst (Spares R fs) same (Spares-put R p n fs inside)
    | inr (file (archived ms) a m, e) ↦ absurd (ground arith)
    | inr (directory a m, e) ↦ absurd (ground arith)
  ]

  pub Confined-append :
      (p : FilePath) (entry : ℕ → Json)
      → R p ≡ true
      → Confined R (change (λ now fs. appended now p (entry now) fs))
  Confined-append p entry inside =
      Confined-change R (λ now fs. appended now p (entry now) fs)
        (λ now fs gs. appended-Spares now p (entry now) fs gs inside)

  pub extract-Spares :
      (now : ℕ) (base : FilePath) (ms : Members) (fs gs : Files)
      → HasTree R base
      → extract now base ms fs ≡ some gs
      → Spares R fs gs
  unfolding extract
  extract-Spares now base none_left fs gs inside h =
      subst (Spares R fs) (some_inj fs gs h) (λ q m out found. found)
  extract-Spares now base (member p n rest) fs gs inside h =
      elim (Option-cases (make_dirs now (parent (base ++ p)) fs)) [
        | inl e ↦ absurd (ground arith)
        | inr (made, e) ↦
            let inner = HasTree-self (base ++ p) (HasTree-append base p inside) in
            let later =
              extract-Spares now base rest (put (base ++ p) n made) gs inside (ground arith) in
            λ q m out found. later q m out (
              Spares-put R (base ++ p) n made inner q m out
                (make_dirs-Spares R now (parent (base ++ p)) fs made e q m out found))
      ]

  discard-Spares : (p : FilePath) (fs : Files) → R p ≡ true → Spares R fs (discard p fs)
  unfolding discard
  discard-Spares p fs inside q n out found =
      let kept = Spares-remove_row R p fs inside q n out found in
      elim (Option-cases (lookup p fs)) [
        | inl e ↦ ground arith
        | inr (file c a m, e) ↦ ground arith
        | inr (directory a m, e) ↦ ground arith
      ]

  replace-Spares :
      (source destination : FilePath) (fs gs : Files)
      → HasTree R source
      → HasTree R destination
      → replace source destination fs ≡ some gs
      → Spares R fs gs
  unfolding replace
  replace-Spares source destination fs gs hs hd h = elim (Option-cases (lookup destination fs)) [
    | inl e ↦ subst (Spares R fs) (ground arith) (Spares-rename R source destination fs hs hd)
    | inr (n, e) ↦ subst (Spares R fs) (ground arith) (Spares-rename R source destination fs hs hd)
  ]

  pub keep_download-Spares :
      (destination : FilePath) (content : String) (now : ℕ) (fs gs : Files)
      → HasTree R destination
      → HasTree R (temp_path destination)
      → keep_download destination content now fs ≡ some gs
      → Spares R fs gs
  unfolding keep_download
  keep_download-Spares destination content now fs gs hd ht h =
      elim (Option-cases (write_file now (temp_path destination) (written (raw content ∷ [])) fs)) [
        | inl e ↦ absurd (ground arith)
        | inr (kept, e) ↦ λ q m out found.
            replace-Spares (temp_path destination) destination kept gs ht hd (ground arith) q m out
              (write_file-Spares now (temp_path destination) (written (raw content ∷ [])) fs kept
                (HasTree-self (temp_path destination) ht) e q m out found)
      ]

  pub Confined-or_discarded :
      (temp : FilePath) (f : ℕ → Files → Option Files)
      → R temp ≡ true
      → ((now : ℕ) (fs gs : Files) → f now fs ≡ some gs → Spares R fs gs)
      → Confined R (or_discarded temp f)
  unfolding or_discarded Confined
  Confined-or_discarded temp f inside hf h = elim (Option-cases (f h.now h.files)) [
    | inl e ↦ rw (e, or_discarded) (discard-Spares temp h.files inside, refl)
    | inr (gs, e) ↦ rw (e, or_discarded) (hf h.now h.files gs e, refl)
  ]
