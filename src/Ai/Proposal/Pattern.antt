-- ===== src/Ai/Proposal/Pattern.antt =====
-- What the pattern for command content says, against the functions that search for it.
use mirageby_ai.Common.{
  ℕ, ◌≡◌, ◌↔◌, ◌⊎◌, inl, inr, refl, sym, ap, ◌∙◌, Bool, true, false, ◌&&◌, ◌||◌, none, some, List,
  [], ◌∷◌, cons-ne-nil, false-ne-true, ◌++◌, All, arith, Bool-cases, Option-cases,
}
use mirageby_ai.Contracts.Text.{codes}
use mirageby_ai.Ai.Utf8.{Text}
use mirageby_ai.Ai.Proposal.Commands.{
  folded, is_space, after, begins, spaces_then_c, switch, after_cmd, matches, search,
}

-- The text spells the word, in letters of any case.
abbrev pub IsSpelled : List ℕ → Text → Type 0
IsSpelled [] [] = Unit
IsSpelled [] (c ∷ s) = ⊥
IsSpelled (p ∷ ps) [] = ⊥
IsSpelled (p ∷ ps) (c ∷ s) = (folded c ≡ p) × IsSpelled ps s

-- A text begins with the word, and what follows has the property.
abbrev pub Begins : List ℕ → (Text → Type 0) → Text → Type 0
Begins p P s = (x rest : Text) × (s ≡ x ++ rest) × IsSpelled p x × P rest

abbrev pub Anything : Text → Type 0
Anything s = Unit

-- Spaces, at least one, and the switch
abbrev pub IsSwitch : Text → Type 0
IsSwitch s =
    (c : ℕ) × (spaces rest : Text) × (s ≡ c ∷ (spaces ++ rest))
    × (is_space c ≡ true)
    × All (λ d. is_space d ≡ true) spaces
    × Begins (codes "/c") Anything rest

-- A text that begins with a command: a shell's path, PowerShell, or cmd or cmd.exe with its switch.
abbrev pub IsCommand : Text → Type 0
IsCommand s =
    ((Begins (codes "/bin/sh") Anything s ⊎ Begins (codes "/bin/bash") Anything s)
      ⊎ Begins (codes "powershell") Anything s)
    ⊎ Begins (codes "cmd") (λ t. IsSwitch t ⊎ Begins (codes ".exe") IsSwitch t) s

-- No command stands anywhere in a text.
abbrev pub IsFreeOfCommands : Text → Type 0
IsFreeOfCommands s = (a b : Text) → s ≡ a ++ b → IsCommand b → ⊥

after_sound :
    (p : List ℕ) (s rest : Text)
    → after p s ≡ some rest
    → (x : Text) × (s ≡ x ++ rest) × IsSpelled p x
unfolding after
after_sound [] s rest h = ([], ground arith, tt)
after_sound (p ∷ ps) [] rest h = absurd (ground arith)
after_sound (p ∷ ps) (c ∷ s) rest h =
    let (x, e, spelled) = after_sound ps s rest (ground arith) in
    (c ∷ x, ap (λ l. c ∷ l) e, (ground arith, spelled))

after_complete : (p : List ℕ) (x rest : Text) → IsSpelled p x → after p (x ++ rest) ≡ some rest
unfolding after
after_complete [] [] rest h = refl
after_complete [] (c ∷ x) rest h = absurd h
after_complete (p ∷ ps) [] rest h = absurd h
after_complete (p ∷ ps) (c ∷ x) rest h = ground (arith, h.0, after_complete ps x rest h.1)

-- A test of what follows the word
abbrev followed : List ℕ → (Text → Bool) → Text → Bool
followed p f s = elim (after p s) [ none ↦ false | some rest ↦ f rest ]

followed_iff :
    (p : List ℕ) (f : Text → Bool) (P : Text → Type 0)
    → ((t : Text) → (f t ≡ true) ↔ P t)
    → (s : Text) → (followed p f s ≡ true) ↔ Begins p P s
followed_iff p f P same s = (
  λ h. elim (Option-cases (after p s)) [
    | inl n ↦ absurd (ground arith)
    | inr (rest, found) ↦
        let (x, e, spelled) = after_sound p s rest found in
        (x, rest, e, spelled, (same rest).0 (ground arith))
  ],
  λ (x, rest, e, spelled, holds).
      let found : after p s ≡ some rest = ap (after p) e ∙ after_complete p x rest spelled in
      rw (found, followed) ((same rest).1 holds),
)

Anything-iff : (t : Text) → (true ≡ true) ↔ Anything t
Anything-iff t = ((λ h. tt), λ h. refl)

begins_iff : (p : List ℕ) (s : Text) → (begins p s ≡ true) ↔ Begins p Anything s
begins_iff p s = followed_iff p (λ t. true) Anything Anything-iff s

no_space : (c : ℕ) → folded c ≡ b'/' → is_space c ≡ false
no_space c h = ground arith

begins_no_space : (c : ℕ) (s : Text) → begins (codes "/c") (c ∷ s) ≡ true → is_space c ≡ false
unfolding after
begins_no_space c s h = no_space c (ground arith)

-- Spaces, also none, and the switch
abbrev Spaced : Text → Type 0
Spaced s =
    (spaces rest : Text) × (s ≡ spaces ++ rest)
    × All (λ d. is_space d ≡ true) spaces
    × Begins (codes "/c") Anything rest

spaces_sound : (s : Text) → spaces_then_c s ≡ true → Spaced s
unfolding spaces_then_c
spaces_sound [] h = absurd (ground arith)
spaces_sound (c ∷ s) h = elim (Bool-cases (is_space c)) [
  | inl space ↦
      let (spaces, rest, e, all, switch_) = spaces_sound s (ground arith) in
      (c ∷ spaces, rest, ap (λ l. c ∷ l) e, (space, all), switch_)
  | inr other ↦ ([], c ∷ s, refl, tt, (begins_iff (codes "/c") (c ∷ s)).0 (ground arith))
]

spaces_complete :
    (spaces rest : Text)
    → All (λ d. is_space d ≡ true) spaces
    → begins (codes "/c") rest ≡ true
    → spaces_then_c (spaces ++ rest) ≡ true
unfolding spaces_then_c after
spaces_complete [] [] all h = absurd (ground arith)
spaces_complete [] (c ∷ s) all h = ground (arith, begins_no_space c s h)
spaces_complete (d ∷ spaces) rest all h = ground (arith, all.0, spaces_complete spaces rest all.1 h)

both : (a b : Bool) → a && b ≡ true → (a ≡ true) × (b ≡ true)
both a b h = ground arith

spaced_true : (a b : Bool) → a ≡ true → b ≡ true → a && b ≡ true
spaced_true a b h k = ground arith

Spaced-IsSwitch : (c : ℕ) (s : Text) → is_space c ≡ true → Spaced s → IsSwitch (c ∷ s)
Spaced-IsSwitch c s space (spaces, rest, e, all, switch_) =
    (c, spaces, rest, ap (λ l. c ∷ l) e, space, all, switch_)

switch_iff : (s : Text) → (switch s ≡ true) ↔ IsSwitch s
switch_iff [] = (
  (λ h. absurd (ground arith)),
  λ (c, spaces, rest, e, _, _, _). absurd (cons-ne-nil _ _ (sym e)),
)
switch_iff (c ∷ s) = (
  λ h.
      let parts = both (is_space c) (spaces_then_c s) h in
      Spaced-IsSwitch c s parts.0 (spaces_sound s parts.1),
  λ (d, spaces, rest, e, space, all, switch_).
      ap switch e
      ∙ spaced_true (is_space d) _ space
          (spaces_complete spaces rest all ((begins_iff (codes "/c") rest).1 switch_)),
)

pub or_iff :
    (a b : Bool) (A B : Type 0) → (a ≡ true) ↔ A → (b ≡ true) ↔ B → (a || b ≡ true) ↔ (A ⊎ B)
or_iff true b A B f g = ((λ h. inl (f.0 refl)), λ h. refl)
or_iff false b A B f g =
    (λ h. inr (g.0 h), λ h. elim h [ inl x ↦ absurd (false-ne-true (f.1 x)) | inr y ↦ g.1 y ])

after_cmd_iff : (s : Text) → (after_cmd s ≡ true) ↔ (IsSwitch s ⊎ Begins (codes ".exe") IsSwitch s)
after_cmd_iff s =
    or_iff (switch s) (followed (codes ".exe") switch s) _ _ (switch_iff s)
      (followed_iff (codes ".exe") switch IsSwitch switch_iff s)

matches_iff : (s : Text) → (matches s ≡ true) ↔ IsCommand s
unfolding matches
matches_iff s =
    let shell = begins_iff (codes "/bin/sh") s in
    let bash = begins_iff (codes "/bin/bash") s in
    let power = begins_iff (codes "powershell") s in
    let cmd = followed_iff (codes "cmd") after_cmd _ after_cmd_iff s in
    or_iff _ _ _ _ (or_iff _ _ _ _ (or_iff _ _ _ _ shell bash) power) cmd

pub search_sound : (s a b : Text) → search s ≡ false → s ≡ a ++ b → IsCommand b → ⊥
unfolding search
search_sound [] [] b h e k = false-ne-true (sym h ∙ ap matches e ∙ (matches_iff b).1 k)
search_sound [] (x ∷ a) b h e k = cons-ne-nil _ _ (sym e)
search_sound (c ∷ s) [] b h e k =
    let none_here : matches (c ∷ s) ≡ false = ground arith in
    false-ne-true (sym none_here ∙ ap matches e ∙ (matches_iff b).1 k)
search_sound (c ∷ s) (x ∷ a) b h e k =
    search_sound s a b (ground arith) (tail_of c x s (a ++ b) e) k
  where
    tail_of : (c x : ℕ) (s t : Text) → c ∷ s ≡ x ∷ t → s ≡ t
    tail_of c x s t q = cc

no_match : (s : Text) → (IsCommand s → ⊥) → matches s ≡ false
no_match s h = elim (Bool-cases (matches s)) [
  | inl hit ↦ absurd (h ((matches_iff s).0 hit))
  | inr miss ↦ miss
]

pub search_complete : (s : Text) → IsFreeOfCommands s → search s ≡ false
unfolding search
search_complete [] h = no_match [] (h [] [] refl)
search_complete (c ∷ s) h = ground (
  arith,
  no_match (c ∷ s) (h [] (c ∷ s) refl),
  search_complete s (λ a b e. h (c ∷ a) b (ap (λ l. c ∷ l) e)),
)
