-- ===== src/EnvController/Confinement.antt =====
-- The entries that an operation may change: a region of paths, outside of which what exists stays.
pub mod Steps
pub mod Actions
pub mod Handlers
pub mod Sessions
pub mod Executions
use mirageby_ai.Common.{
  ℕ, ◌≡◌, refl, sym, ap, ◌∙◌, String, Bool, true, false, ◌&&◌, ◌||◌, not, Option, none, some, List,
  [], ◌∷◌, ◌++◌, ◌⊎◌, inl, inr, arith, Bool-cases, any, if◌then◌else◌, true-ne-false, false-ne-true,
  Option-cases, none-ne-some,
}
use mathlib.Core.Path.{subst}
use mirageby_ai.Common.Exec.{
  ok, err, Exec, Exec-cases, bind_ok, bind_err, pure, raise, gets, raise_if, or_raise, ◌>>=◌, ◌>>◌,
}
use mirageby_ai.EnvController.Paths.{FilePath, Segment, same_path, is_under, parent, name, relative}
use mirageby_ai.EnvController.Files.{
  Node, file, directory, Files, Content, Members, lookup, exists, put, remove_row, remove_tree,
  moved_rows, rename, make_from, make_dirs, write_file, unlink, remove_directory, move, move_target,
  is_directory,
}
use mirageby_ai.EnvController.Files.Lookup.{
  same_path_iff, lookup-put_other, lookup-remove_tree, lookup-remove_row, lookup-append,
  lookup-moved_rows, is_under_trans, is_under-append,
}
use mirageby_ai.EnvController.Host.{Host, Act, Failure, change, refused, crashed}

-- What exists outside of the region is in the second table as it was in the first.
abbrev pub Spares : (FilePath → Bool) → Files → Files → Type 0
Spares R fs gs =
    (q : FilePath) (n : Node) → R q ≡ false → lookup q fs ≡ some n → lookup q gs ≡ some n

-- A statement between the two hosts held to the region, and left the journal alone.
abbrev pub Held : (FilePath → Bool) → Host → Host → Type 0
Held R h t = Spares R h.files t.files × (t.journal ≡ h.journal)

Held-same : (R : FilePath → Bool) (h : Host) → Held R h h
Held-same R h = ((λ q n out found. found), refl)

Held-trans : (R : FilePath → Bool) (h t u : Host) → Held R h t → Held R t u → Held R h u
Held-trans R h t u a b = ((λ q n out found. b.0 q n out (a.0 q n out found)), b.1 ∙ a.1)

-- A block holds to the region, whether it returns or raises.
unfoldable pub Confined : {A : Type 0} → (FilePath → Bool) → Act A → Type 0
Confined R m = (h : Host) → Held R h (m h).1

-- A region with a path has all that is below it.
abbrev pub HasTree : (FilePath → Bool) → FilePath → Type 0
HasTree R p = (q : FilePath) → is_under p q ≡ true → R q ≡ true

put_fresh-keeps :
    (p : FilePath) (m : Node) (fs : Files) (q : FilePath) (n : Node)
    → lookup p fs ≡ none
    → lookup q fs ≡ some n
    → lookup q (put p m fs) ≡ some n
put_fresh-keeps p m fs q n fresh found = elim (Bool-cases (same_path p q)) [
  | inl e ↦
      let same = (same_path_iff p q).0 e in
      absurd (none-ne-some n (sym fresh ∙ ap (λ x. lookup x fs) same ∙ found))
  | inr e ↦ lookup-put_other p q m fs e ∙ found
]

module _ (R : FilePath → Bool) where
  pub Confined-pure : {A : Type 0} (a : A) → Confined R (pure a)
  unfolding Confined
  Confined-pure a h = Held-same R h

  pub Confined-raise : (A : Type 0) (e : Failure) → Confined {A = A} R (raise e)
  unfolding Confined
  Confined-raise A e h = Held-same R h

  pub Confined-gets : {A : Type 0} (f : Host → A) → Confined R (gets f)
  unfolding Confined
  Confined-gets f h = Held-same R h

  -- The rest of a block may count on what the returned value has.
  pub Confined-bind_with :
      {A B : Type 0} (P : A → Type 0) (m : Act A) (k : A → Act B)
      → Confined R m
      → ((h : Host) (a : A) (t : Host) → m h ≡ (ok a, t) → P a)
      → ((a : A) → P a → Confined R (k a))
      → Confined R (m >>= k)
  unfolding Confined
  Confined-bind_with P m k hm hp hk h = elim (Exec-cases (m h)) [
    | inl (a, t, e) ↦
        let first : Held R h t = subst (λ r. Held R h r.1) e (hm h) in
        subst (λ r. Held R h r.1) (sym (bind_ok m k h a t e))
          (Held-trans R h t (k a t).1 first (hk a (hp h a t e) t))
    | inr (x, t, e) ↦
        subst (λ r. Held R h r.1) (sym (bind_err m k h x t e)) (subst (λ r. Held R h r.1) e (hm h))
  ]

  pub Confined-bind :
      {A B : Type 0} (m : Act A) (k : A → Act B)
      → Confined R m
      → ((a : A) → Confined R (k a))
      → Confined R (m >>= k)
  Confined-bind m k hm hk = Confined-bind_with (λ _. Unit) m k hm (λ h a t e. tt) (λ a _. hk a)

  pub Confined-or_raise : {A : Type 0} (o : Option A) (e : Failure) → Confined R (or_raise o e)
  Confined-or_raise none e = Confined-raise _ e
  Confined-or_raise (some a) e = Confined-pure a

  pub Confined-raise_if : (b : Bool) (e : Failure) → Confined R (raise_if b e)
  Confined-raise_if true e = Confined-raise _ e
  Confined-raise_if false e = Confined-pure tt

  pub Confined-if :
      {A : Type 0} (b : Bool) (m k : Act A)
      → Confined R m
      → Confined R k
      → Confined R (if b then m else k)
  Confined-if true m k hm hk = hm
  Confined-if false m k hm hk = hk

  pub Confined-change :
      (f : ℕ → Files → Option Files)
      → ((now : ℕ) (fs gs : Files) → f now fs ≡ some gs → Spares R fs gs)
      → Confined R (change f)
  unfolding Confined
  Confined-change f hf h = elim (Option-cases (f h.now h.files)) [
    | inl e ↦ rw (e, change) (Held-same R h)
    | inr (gs, e) ↦ rw (e, change) (hf h.now h.files gs e, refl)
  ]

  pub Spares-put : (p : FilePath) (n : Node) (fs : Files) → R p ≡ true → Spares R fs (put p n fs)
  Spares-put p n fs inside q m out found = lookup-put_other p q n fs apart ∙ found
    where
      apart : same_path p q ≡ false
      apart = elim (Bool-cases (same_path p q)) [
        | inl e ↦
            absurd
              (true-ne-false (sym (subst (λ x. R x ≡ true) ((same_path_iff p q).0 e) inside) ∙ out))
        | inr e ↦ e
      ]

  pub Spares-remove_row : (p : FilePath) (fs : Files) → R p ≡ true → Spares R fs (remove_row p fs)
  Spares-remove_row p fs inside q n out found = lookup-remove_row p q fs apart ∙ found
    where
      apart : same_path p q ≡ false
      apart = elim (Bool-cases (same_path p q)) [
        | inl e ↦
            absurd
              (true-ne-false (sym (subst (λ x. R x ≡ true) ((same_path_iff p q).0 e) inside) ∙ out))
        | inr e ↦ e
      ]

  pub Spares-remove_tree :
      (p : FilePath) (fs : Files) → HasTree R p → Spares R fs (remove_tree p fs)
  Spares-remove_tree p fs inside q n out found = elim (Bool-cases (is_under p q)) [
    | inl e ↦ absurd (true-ne-false (sym (inside q e) ∙ out))
    | inr e ↦ ground (arith, lookup-remove_tree p q fs)
  ]

  pub Spares-rename :
      (from to : FilePath) (fs : Files)
      → HasTree R from
      → HasTree R to
      → Spares R fs (rename from to fs)
  unfolding rename
  Spares-rename from to fs hf ht q n out found = elim (Bool-cases (is_under to q)) [
    | inl e ↦ absurd (true-ne-false (sym (ht q e) ∙ out))
    | inr e ↦
        let kept : lookup q (remove_tree to (remove_tree from fs)) ≡ some n =
          Spares-remove_tree to (remove_tree from fs) ht q n out
            (Spares-remove_tree from fs hf q n out found) in
        ground (
          arith,
          lookup-append q (moved_rows from to fs) (remove_tree to (remove_tree from fs)),
          lookup-moved_rows from to q fs e,
        )
  ]

-- Directories are made where nothing is.
make_from-keeps :
    (now : ℕ) (done p : FilePath) (fs gs : Files) (q : FilePath) (n : Node)
    → make_from now done p fs ≡ some gs
    → lookup q fs ≡ some n
    → lookup q gs ≡ some n
unfolding make_from
make_from-keeps now done [] fs gs q n made found = elim (Option-cases (lookup done fs)) [
  | inl e ↦ let other = put_fresh-keeps done (directory now now) fs q n e found in ground arith
  | inr (m, e) ↦ ground arith
]
make_from-keeps now done (s ∷ p) fs gs q n made found = elim (Option-cases (lookup done fs)) [
  | inl e ↦
      let other = put_fresh-keeps done (directory now now) fs q n e found in
      ground
        (arith, make_from-keeps now (done ++ s ∷ []) p (put done (directory now now) fs) gs q n)
  | inr (m, e) ↦ ground (arith, make_from-keeps now (done ++ s ∷ []) p fs gs q n)
]

pub make_dirs-Spares :
    (R : FilePath → Bool) (now : ℕ) (p : FilePath) (fs gs : Files)
    → make_dirs now p fs ≡ some gs
    → Spares R fs gs
make_dirs-Spares R now p fs gs made q n out found = make_from-keeps now [] p fs gs q n made found
