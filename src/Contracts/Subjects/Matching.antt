-- ===== src/Contracts/Subjects/Matching.antt =====
-- What `_subject_matches` decides: the NATS rules for tokens, as a relation.
use mirageby_ai.Common.{ℕ, ◌≡◌, refl, true, false, ◌↔◌, inl, inr, List, [], ◌∷◌, arith, Bool-cases}
use mirageby_ai.Contracts.Text.{codes, same_codes}
use mirageby_ai.Contracts.Subjects.{tokens_match}

pub same_codes_iff : (s t : List ℕ) → (same_codes s t ≡ true) ↔ (s ≡ t)
same_codes_iff [] [] = ground arith
same_codes_iff [] (d ∷ t) = ground arith
same_codes_iff (c ∷ s) [] = ground arith
same_codes_iff (c ∷ s) (d ∷ t) = ground (arith, same_codes_iff s t)

-- A pattern covers a subject: token for token, `*` for any one token, `>` for all that follow.
pub data Covers : List (List ℕ) → List (List ℕ) → Type 0 where
  done : Covers [] []
  rest : {p : List ℕ} {ps ss : List (List ℕ)} → p ≡ codes ">" → Covers (p ∷ ps) ss
  star :
      {p s : List ℕ} {ps ss : List (List ℕ)}
      → p ≡ codes "*"
      → Covers ps ss
      → Covers (p ∷ ps) (s ∷ ss)
  token : {p s : List ℕ} {ps ss : List (List ℕ)} → p ≡ s → Covers ps ss → Covers (p ∷ ps) (s ∷ ss)

tokens_match_complete : {ps ss : List (List ℕ)} → Covers ps ss → tokens_match ps ss ≡ true
unfolding tokens_match
tokens_match_complete done = refl
tokens_match_complete (rest {p = p} {ss = []} e) = (same_codes_iff p (codes ">")).1 e
tokens_match_complete (rest {p = p} {ss = s ∷ ss} e) = ground (arith, same_codes_iff p (codes ">"))
tokens_match_complete (star {p = p} e h) =
    ground (arith, same_codes_iff p (codes "*"), tokens_match_complete h)
tokens_match_complete (token {p = p} {s = s} e h) =
    ground (arith, same_codes_iff p s, tokens_match_complete h)

tokens_match_sound : (ps ss : List (List ℕ)) → tokens_match ps ss ≡ true → Covers ps ss
unfolding tokens_match
tokens_match_sound [] [] h = done
tokens_match_sound [] (s ∷ ss) h = elim (absurd_of h) [ ]
  where
    absurd_of : false ≡ true → ⊥
    absurd_of e = cc
tokens_match_sound (p ∷ ps) [] h = rest ((same_codes_iff p (codes ">")).0 h)
tokens_match_sound (p ∷ ps) (s ∷ ss) h = elim (Bool-cases (same_codes p (codes ">"))) [
  | inl e ↦ rest ((same_codes_iff p (codes ">")).0 e)
  | inr not_rest ↦ elim (Bool-cases (same_codes p (codes "*"))) [
    | inl e ↦ star ((same_codes_iff p (codes "*")).0 e) (tokens_match_sound ps ss (ground arith))
    | inr not_star ↦
        token ((same_codes_iff p s).0 (ground arith)) (tokens_match_sound ps ss (ground arith))
  ]
]

-- The loop decides the relation, whatever the pattern and the subject.
pub tokens_match_iff : (ps ss : List (List ℕ)) → (tokens_match ps ss ≡ true) ↔ Covers ps ss
tokens_match_iff ps ss = (tokens_match_sound ps ss, tokens_match_complete)
