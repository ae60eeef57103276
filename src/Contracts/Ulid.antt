-- ===== src/Contracts/Ulid.antt =====
-- contracts/python/mirage_contracts/ulid.py: the validation of ULIDs, a regular expression read
-- as a function on code points.
use mirageby_ai.Common.{
  ℕ, zero, suc, ◌≡◌, ◌⊎◌, inl, inr, refl, Bool, true, false, ◌&&◌, ◌||◌, List, [], ◌∷◌, ◌++◌, leb,
  length, length-append, All, arith, ap,
}
use mirageby_ai.Contracts.Text.{at_end, is_digit}

-- [0-9A-HJKMNP-TV-Z]
abbrev pub is_crockford : ℕ → Bool
is_crockford c =
    is_digit c
    || (leb b'A' c && leb c b'H')
    || (leb b'J' c && leb c b'K')
    || (leb b'M' c && leb c b'N')
    || (leb b'P' c && leb c b'T')
    || (leb b'V' c && leb c b'Z')

-- the rest of the pattern: n symbols, then `$`
symbols_then_end : ℕ → List ℕ → Bool
symbols_then_end zero s = at_end s
symbols_then_end (suc n) [] = false
symbols_then_end (suc n) (c ∷ s) = is_crockford c && symbols_then_end n s

unfoldable pub is_valid_ulid : List ℕ → Bool
unfolding symbols_then_end
is_valid_ulid [] = false
is_valid_ulid (c ∷ s) = (leb b'0' c && leb c b'7') && symbols_then_end 25 s

-- What the documentation promises of a ULID: 26 symbols, the first at most 7.
abbrev pub IsUlid : List ℕ → Type 0
IsUlid [] = ⊥
IsUlid (c ∷ s) =
    (leb b'0' c ≡ true) × (leb c b'7' ≡ true) × (length s ≡ 25) × All (λ d. is_crockford d ≡ true) s

abbrev Symbols : ℕ → List ℕ → Type 0
Symbols n s = (length s ≡ n) × All (λ d. is_crockford d ≡ true) s

Symbols-sound :
    (n : ℕ) (s : List ℕ)
    → symbols_then_end n s ≡ true
    → Symbols n s ⊎ ((t : List ℕ) × Symbols n t × (s ≡ t ++ 10 ∷ []))
unfolding symbols_then_end
Symbols-sound zero [] h = inl (refl, tt)
Symbols-sound zero (c ∷ []) h = inr ([], (refl, tt), ground arith)
Symbols-sound zero (c ∷ d ∷ s) h = cc
Symbols-sound (suc n) [] h = cc
Symbols-sound (suc n) (c ∷ s) h = elim (Symbols-sound n s (ground arith)) [
  | inl (l, a) ↦ inl (ap suc l, ground arith)
  | inr (t, (l, a), e) ↦ inr (c ∷ t, (ap suc l, ground arith), ap (λ r. c ∷ r) e)
]

Symbols-complete : (n : ℕ) (s : List ℕ) → Symbols n s → symbols_then_end n s ≡ true
unfolding symbols_then_end
Symbols-complete zero [] h = refl
Symbols-complete zero (c ∷ s) h = absurd (omega arith)
Symbols-complete (suc n) [] h = absurd (omega arith)
Symbols-complete (suc n) (c ∷ s) h = ground (arith, Symbols-complete n s)

Symbols-newline : (n : ℕ) (s : List ℕ) → Symbols n s → symbols_then_end n (s ++ 10 ∷ []) ≡ true
unfolding symbols_then_end
Symbols-newline zero [] h = refl
Symbols-newline zero (c ∷ s) h = absurd (omega arith)
Symbols-newline (suc n) [] h = absurd (omega arith)
Symbols-newline (suc n) (c ∷ s) h = ground (arith, Symbols-newline n s)

-- An accepted text is a ULID, or a ULID with a line feed behind it.
pub is_valid_ulid_sound :
    (s : List ℕ)
    → is_valid_ulid s ≡ true
    → IsUlid s ⊎ ((t : List ℕ) × IsUlid t × (s ≡ t ++ 10 ∷ []))
unfolding is_valid_ulid
is_valid_ulid_sound [] h = cc
is_valid_ulid_sound (c ∷ s) h = elim (Symbols-sound 25 s (ground arith)) [
  | inl (l, a) ↦ inl (ground arith, ground arith, l, a)
  | inr (t, (l, a), e) ↦ inr (c ∷ t, (ground arith, ground arith, l, a), ap (λ r. c ∷ r) e)
]

-- Every ULID is accepted, and so is every ULID with a line feed behind it, which is none.
pub is_valid_ulid_newline :
    (s : List ℕ)
    → IsUlid s
    → (is_valid_ulid s ≡ true) × (is_valid_ulid (s ++ 10 ∷ []) ≡ true) × (IsUlid (s ++ 10 ∷ []) → ⊥)
unfolding is_valid_ulid
is_valid_ulid_newline [] h = absurd h
is_valid_ulid_newline (c ∷ s) h = (
  ground (arith, Symbols-complete 25 s (h.2, h.3)),
  ground (arith, Symbols-newline 25 s (h.2, h.3)),
  λ u. omega (arith, length-append s (10 ∷ []), h.2, u.2),
)
