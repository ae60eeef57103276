-- ===== src/Ai/Proposal/Commands.antt =====
-- libs/mirage_common/ai.py: the pattern for command content in reject_executable_content, which is
-- searched for without regard to case.
use mirageby_ai.Common.{
  ℕ, ◌+◌, leb, ◌==◌, Bool, true, false, ◌&&◌, ◌||◌, Option, none, some, List, [], ◌∷◌,
  if◌then◌else◌,
}
use mirageby_ai.Contracts.Text.{codes}
use mirageby_ai.Ai.Utf8.{Text}

-- re.IGNORECASE, for letters that the pattern has
abbrev pub folded : ℕ → ℕ
folded c =
    if leb b'A' c && leb c b'Z'
    then c + 32
    else if c == 304 || c == 305
    then b'i'
    else if c == 383
    then b's'
    else c

-- \s
abbrev pub is_space : ℕ → Bool
is_space c =
    (leb 9 c && leb c 13)
    || (leb 28 c && leb c 32)
    || c == 133
    || c == 160
    || c == 5760
    || (leb 8192 c && leb c 8202)
    || c == 8232
    || c == 8233
    || c == 8239
    || c == 8287
    || c == 12288

-- What follows a text that is read without regard to case
unfoldable pub after : List ℕ → Text → Option Text
after [] s = some s
after (p ∷ ps) [] = none
after (p ∷ ps) (c ∷ s) = let later = after ps s in if folded c == p then later else none

abbrev pub begins : List ℕ → Text → Bool
begins p s = elim (after p s) [ none ↦ false | some rest ↦ true ]

-- \s*/c
unfoldable pub spaces_then_c : Text → Bool
spaces_then_c [] = false
spaces_then_c (c ∷ s) =
    let later = spaces_then_c s in if is_space c then later else begins (codes "/c") (c ∷ s)

-- \s+/c
abbrev pub switch : Text → Bool
switch [] = false
switch (c ∷ s) = is_space c && spaces_then_c s

abbrev pub after_cmd : Text → Bool
after_cmd s = switch s || (elim (after (codes ".exe") s) [ none ↦ false | some rest ↦ switch rest ])

-- The pattern at the start of a text; the optional end of `powershell.exe` decides nothing.
unfoldable pub matches : Text → Bool
matches s =
    begins (codes "/bin/sh") s
    || begins (codes "/bin/bash") s
    || begins (codes "powershell") s
    || (elim (after (codes "cmd") s) [ none ↦ false | some rest ↦ after_cmd rest ])

-- re.search
unfoldable pub search : Text → Bool
search [] = matches []
search (c ∷ s) = matches (c ∷ s) || search s
