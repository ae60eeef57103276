-- ===== src/Contracts/Versions.antt =====
-- contracts/python/mirage_contracts/registry.py: `parse_schema_version`.
use mirageby_ai.Common.{ℕ, ◌+◌, ◌-◌, ◌*◌, List, [], ◌∷◌, Option, none, some, ◌==◌, if◌then◌else◌}
use mirageby_ai.Contracts.Text.{at_end, is_digit}

-- [0-9]+ is greedy: the digits at the head, and what follows them
pub span_digits : List ℕ → List ℕ × List ℕ
span_digits [] = ([], [])
span_digits (c ∷ s) =
    let (ds, rest) = span_digits s in if is_digit c then (c ∷ ds, rest) else ([], c ∷ s)

-- int() of a run of digits
pub int_of : ℕ → List ℕ → ℕ
int_of acc [] = acc
int_of acc (c ∷ s) = int_of (acc * 10 + (c - b'0')) s

minor_part : ℕ → List ℕ × List ℕ → Option (ℕ × ℕ)
minor_part major ([], rest) = none
minor_part major (d ∷ ds, rest) = if at_end rest then some (major, int_of 0 (d ∷ ds)) else none

major_part : List ℕ × List ℕ → Option (ℕ × ℕ)
major_part ([], rest) = none
major_part (d ∷ ds, []) = none
major_part (d ∷ ds, c ∷ rest) =
    if c == b'.' then minor_part (int_of 0 (d ∷ ds)) (span_digits rest) else none

-- `none` is MalformedSchemaVersionError
unfoldable pub parse_schema_version : List ℕ → Option (ℕ × ℕ)
unfolding span_digits int_of minor_part major_part
parse_schema_version s = major_part (span_digits s)
