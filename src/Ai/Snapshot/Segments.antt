-- ===== src/Ai/Snapshot/Segments.antt =====
-- The starts and the ends of a list, when an element is popped from the other side.
use mirageby_ai.Common.{suc, ◌≡◌, refl, sym, ap, ◌∙◌, List, [], ◌∷◌, ◌++◌, length}
use mathlib.Core.List.{append_assoc, append-nil}
use mirageby_ai.Ai.Snapshot.Assembly.{pop_last}

module _ {A : Type 0} where
  -- The rest of a list, and its start
  pub record IsSuffix (xs ys : List A) : Type 0 where
    pub front : List A
    pub splits : xs ≡ front ++ ys

  pub record IsPrefix (xs ys : List A) : Type 0 where
    pub back : List A
    pub splits : xs ≡ ys ++ back

  pub IsSuffix-refl : (xs : List A) → IsSuffix xs xs
  IsSuffix-refl xs = record { front = []; splits = refl }

  pub IsPrefix-refl : (xs : List A) → IsPrefix xs xs
  IsPrefix-refl xs = record { back = []; splits = sym (append-nil xs) }

  pub IsSuffix-pop : (xs : List A) (y : A) (ys : List A) → IsSuffix xs (y ∷ ys) → IsSuffix xs ys
  IsSuffix-pop xs y ys h = record {
    front = h.front ++ y ∷ [];
    splits = h.splits ∙ sym (append_assoc h.front (y ∷ []) ys);
  }

  last_of : A → List A → A
  last_of x [] = x
  last_of x (y ∷ ys) = last_of y ys

  pop_last-append : (x : A) (ys : List A) → x ∷ ys ≡ pop_last x ys ++ last_of x ys ∷ []
  unfolding last_of
  pop_last-append x [] = refl
  pop_last-append x (y ∷ ys) = ap (λ l. x ∷ l) (pop_last-append y ys)

  pub length-pop_last : (x : A) (ys : List A) → length (pop_last x ys) ≡ length ys
  length-pop_last x [] = refl
  length-pop_last x (y ∷ ys) = ap suc (length-pop_last y ys)

  pub IsPrefix-pop :
      (xs : List A) (y : A) (ys : List A) → IsPrefix xs (y ∷ ys) → IsPrefix xs (pop_last y ys)
  IsPrefix-pop xs y ys h = record {
    back = last_of y ys ∷ h.back;
    splits =
        h.splits
        ∙ ap (λ l. l ++ h.back) (pop_last-append y ys)
        ∙ append_assoc (pop_last y ys) (last_of y ys ∷ []) h.back;
  }
