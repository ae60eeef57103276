-- ===== src/EnvController/Files/Lookup.antt =====
-- What the operations on the table of files do to the node that a path names.
use mirageby_ai.Common.{
  ◌≡◌, refl, sym, ◌∙◌, true, false, none, some, [], ◌∷◌, ◌++◌, ◌↔◌, ◌⊎◌, inl, inr, arith,
  Bool-cases, if◌then◌else◌, true-ne-false,
}
use mathlib.Core.Path.{subst}
use mirageby_ai.Contracts.Subjects.Matching.{same_codes_iff}
use mirageby_ai.EnvController.Paths.{FilePath, same_path, is_under, parent, relative}
use mirageby_ai.EnvController.Files.{Node, Files, lookup, put, remove_row, remove_tree, moved_rows}

pub same_path_iff : (p q : FilePath) → (same_path p q ≡ true) ↔ (p ≡ q)
same_path_iff [] [] = ground arith
same_path_iff [] (t ∷ q) = ground arith
same_path_iff (s ∷ p) [] = ground arith
same_path_iff (s ∷ p) (t ∷ q) = ground (arith, same_codes_iff s t, same_path_iff p q)

pub same_path_refl : (p : FilePath) → same_path p p ≡ true
same_path_refl p = (same_path_iff p p).1 refl

pub is_under_refl : (p : FilePath) → is_under p p ≡ true
is_under_refl [] = refl
is_under_refl (s ∷ p) = ground (arith, (same_codes_iff s s).1 refl, is_under_refl p)

pub is_under_trans :
    (p q r : FilePath) → is_under p q ≡ true → is_under q r ≡ true → is_under p r ≡ true
is_under_trans [] q r h k = refl
is_under_trans (s ∷ p) [] r h k = absurd (ground arith)
is_under_trans (s ∷ p) (t ∷ q) [] h k = absurd (ground arith)
is_under_trans (s ∷ p) (t ∷ q) (u ∷ r) h k =
    ground (arith, same_codes_iff s t, same_codes_iff t u, same_codes_iff s u, is_under_trans p q r)

pub is_under-append : (p x : FilePath) → is_under p (p ++ x) ≡ true
is_under-append [] x = refl
is_under-append (s ∷ p) x = ground (arith, (same_codes_iff s s).1 refl, is_under-append p x)

-- What is below a path is the path itself or has a parent below it.
pub is_under-parent :
    (p q : FilePath) → is_under p q ≡ true → (p ≡ q) ⊎ (is_under p (parent q) ≡ true)
is_under-parent [] q h = inr refl
is_under-parent (s ∷ p) [] h = absurd (ground arith)
is_under-parent (s ∷ []) (t ∷ []) h = inl (ground (arith, same_codes_iff s t))
is_under-parent (s ∷ u ∷ p) (t ∷ []) h = absurd (ground arith)
is_under-parent (s ∷ p) (t ∷ v ∷ q) h =
    let same : s ≡ t = ground (arith, same_codes_iff s t) in
    elim (is_under-parent p (v ∷ q) (ground arith)) [
      | inl e ↦ inl (cc)
      | inr k ↦ inr (ground arith)
    ]

pub lookup-remove_row :
    (p q : FilePath) (fs : Files) → same_path p q ≡ false → lookup q (remove_row p fs) ≡ lookup q fs
unfolding lookup remove_row
lookup-remove_row p q [] h = refl
lookup-remove_row p q ((r, n) ∷ fs) h =
    ground
      (arith, same_path_iff r p, same_path_iff r q, same_path_iff p q, lookup-remove_row p q fs h)

pub lookup-remove_row_same : (p : FilePath) (fs : Files) → lookup p (remove_row p fs) ≡ none
unfolding lookup remove_row
lookup-remove_row_same p [] = refl
lookup-remove_row_same p ((r, n) ∷ fs) = ground (arith, lookup-remove_row_same p fs)

pub lookup-put_other :
    (p q : FilePath) (n : Node) (fs : Files)
    → same_path p q ≡ false
    → lookup q (put p n fs) ≡ lookup q fs
unfolding lookup put
lookup-put_other p q n fs h = ground (arith, lookup-remove_row p q fs h)

pub lookup-put : (p : FilePath) (n : Node) (fs : Files) → lookup p (put p n fs) ≡ some n
unfolding lookup put
lookup-put p n fs = ground (arith, same_path_refl p)

pub lookup-remove_tree :
    (p q : FilePath) (fs : Files)
    → lookup q (remove_tree p fs) ≡ (if is_under p q then none else lookup q fs)
unfolding lookup remove_tree
lookup-remove_tree p q [] = ground arith
lookup-remove_tree p q ((r, n) ∷ fs) = ground (arith, same_path_iff r q, lookup-remove_tree p q fs)

pub lookup-append :
    (q : FilePath) (fs gs : Files)
    → lookup q (fs ++ gs) ≡ elim (lookup q fs) [ none ↦ lookup q gs | some n ↦ some n ]
unfolding lookup
lookup-append q [] gs = refl
lookup-append q ((r, n) ∷ fs) gs = ground (arith, lookup-append q fs gs)

pub lookup-moved_rows :
    (from to q : FilePath) (fs : Files)
    → is_under to q ≡ false
    → lookup q (moved_rows from to fs) ≡ none
unfolding lookup moved_rows
lookup-moved_rows from to q [] h = refl
lookup-moved_rows from to q ((r, n) ∷ fs) h =
    let apart : same_path (to ++ relative from r) q ≡ false =
      elim (Bool-cases (same_path (to ++ relative from r) q)) [
        | inl e ↦ absurd (
            true-ne-false (
              sym (
                subst (λ x. is_under to x ≡ true) ((same_path_iff (to ++ relative from r) q).0 e)
                  (is_under-append to (relative from r)))
              ∙ h))
        | inr e ↦ e
      ] in
    ground (arith, lookup-moved_rows from to q fs h)
