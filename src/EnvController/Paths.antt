-- ===== src/EnvController/Paths.antt =====
-- Absolute paths as their segments, what pathlib does with `..`, and the roots a path is under.
use mirageby_ai.Common.{
  ℕ, zero, suc, ◌/◌, ◌%◌, ◌+◌, ltb, Bool, true, false, ◌&&◌, ◌||◌, List, [], ◌∷◌, ◌++◌, ◌==◌, any,
  if◌then◌else◌,
}
use mirageby_ai.Contracts.Text.{codes, same_codes}

abbrev pub Segment : Type 0
Segment = List ℕ

-- The segments from the file system's root downwards.
abbrev pub FilePath : Type 0
FilePath = List Segment

abbrev pub same_path : FilePath → FilePath → Bool
same_path [] [] = true
same_path [] (t ∷ q) = false
same_path (s ∷ p) [] = false
same_path (s ∷ p) (t ∷ q) = same_codes s t && same_path p q

-- `p` is the second path or one of its parents.
abbrev pub is_under : FilePath → FilePath → Bool
is_under [] q = true
is_under (s ∷ p) [] = false
is_under (s ∷ p) (t ∷ q) = same_codes s t && is_under p q

abbrev pub parent : FilePath → FilePath
parent [] = []
parent (s ∷ []) = []
parent (s ∷ t ∷ p) = s ∷ parent (t ∷ p)

-- The last segment
abbrev pub name : FilePath → Segment
name [] = []
name (s ∷ []) = s
name (s ∷ t ∷ p) = name (t ∷ p)

-- What is left of the second path below the first
abbrev pub relative : FilePath → FilePath → FilePath
relative [] q = q
relative (s ∷ p) [] = []
relative (s ∷ p) (t ∷ q) = relative p q

abbrev with_head : ℕ → List Segment → List Segment
with_head c [] = (c ∷ []) ∷ []
with_head c (t ∷ ts) = (c ∷ t) ∷ ts

abbrev split_slashes : List ℕ → List Segment
split_slashes [] = [] ∷ []
split_slashes (c ∷ s) = let ts = split_slashes s in if c == b'/' then [] ∷ ts else with_head c ts

-- pathlib drops empty segments and `.`.
abbrev pub kept_segments : List Segment → List Segment
kept_segments [] = []
kept_segments (s ∷ ts) =
    let rest = kept_segments ts in
    if same_codes s [] || same_codes s (codes ".") then rest else s ∷ rest

-- Path(raw).parts, without the root
unfoldable pub segments : List ℕ → FilePath
segments raw = kept_segments (split_slashes raw)

abbrev pub is_absolute : List ℕ → Bool
is_absolute [] = false
is_absolute (c ∷ s) = c == b'/'

abbrev pub is_dot_dot : Segment → Bool
is_dot_dot s = same_codes s (codes "..")

-- resolve(strict=False) where there are no links: `..` drops the segment before it, at the root
-- nothing.
unfoldable pub resolve_from : FilePath → List Segment → FilePath
resolve_from done [] = done
resolve_from done (s ∷ rest) = elim (is_dot_dot s) [
  | true ↦ resolve_from (parent done) rest
  | false ↦ resolve_from (done ++ s ∷ []) rest
]

abbrev pub resolve : FilePath → FilePath
resolve p = resolve_from [] p

unfoldable pub in_roots : List FilePath → FilePath → Bool
in_roots roots p = any (λ root. is_under (resolve root) p) roots

abbrev digits_below : ℕ → ℕ → List ℕ → List ℕ
digits_below zero n after = after
digits_below (suc fuel) n after =
    let digit = b'0' + n % 10 in
    elim (ltb n 10) [ true ↦ digit ∷ after | false ↦ digits_below fuel (n / 10) (digit ∷ after) ]

-- str(n); a number has no more digits than its value, plus one.
abbrev pub decimal : ℕ → List ℕ
decimal n = digits_below (suc n) n []
