-- ===== src/Ai/Proposal/Conditions.antt =====
-- The conditions that a proposal is held to, against the tests of the code.
use mirageby_ai.Common.{
  ℕ, ◌≤◌, ◌<◌, ◌≡◌, refl, sym, ap, ◌∙◌, ◌↔◌, ◌⊎◌, ◌*◌, ltb, String, true, false, not, some, List,
  [], ◌∷◌, All, str_eq, eq_iff, false-ne-true, inl, inr, any, length, arith, Bool-cases,
  Option-cases, le→leb,
}
use mirageby_ai.Common.Exec.{result_inj, ok}
use mirageby_ai.Contracts.Json.{Json}
use mirageby_ai.Contracts.Ulid.{IsUlid, is_crockford}
use mirageby_ai.Ai.Utf8.{Text}
use mirageby_ai.Ai.Snapshot.{Confidence, negative, thousandths, is_member}
use mirageby_ai.Ai.Proposal.{
  Libraries, ProposalError, Response, raw, read, is_identifier, has_length, is_unit, loaded,
}
use mirageby_ai.Ai.Proposal.Pattern.{or_iff}

-- A name is one of a list.
abbrev pub IsOneOf : List String → String → Type 0
IsOneOf [] x = ⊥
IsOneOf (y ∷ ys) x = (y ≡ x) ⊎ IsOneOf ys x

-- The document of a response: a dict is taken as it is, a text is of a bounded size and read.
abbrev pub IsDocument : Libraries → Response → Json → Type 0
IsDocument libs r source =
    (r ≡ read source)
    ⊎ ((s : Text) × (r ≡ raw s) × (length s ≤ 16384) × (libs.loads s ≡ some source))

abbrev pub IsFitting : ℕ → Text → Type 0
IsFitting most s = (0 < length s) × (length s ≤ most)

pub IsOneOf-iff : (xs : List String) (x : String) → (is_member x xs ≡ true) ↔ IsOneOf xs x
IsOneOf-iff [] x = ((λ h. absurd (ground arith)), λ h. absurd h)
IsOneOf-iff (y ∷ ys) x = or_iff (str_eq y x) (is_member x ys) _ _ (eq_iff y x) (IsOneOf-iff ys x)

pub none_of_iff : (xs : List String) (x : String) → (is_member x xs ≡ false) ↔ (IsOneOf xs x → ⊥)
none_of_iff xs x = (
  λ h k. false-ne-true (sym h ∙ (IsOneOf-iff xs x).1 k),
  λ h. elim (Bool-cases (is_member x xs)) [
    | inl hit ↦ absurd (h ((IsOneOf-iff xs x).0 hit))
    | inr miss ↦ miss
  ],
)

-- The test of an identifier
All-crockford :
    (s : Text) → (any (λ d. not (is_crockford d)) s ≡ false) ↔ All (λ d. is_crockford d ≡ true) s
All-crockford [] = ((λ h. tt), λ h. refl)
All-crockford (c ∷ s) =
    let rest = All-crockford s in
    (λ h. (ground arith, rest.0 (ground arith)), λ h. ground (arith, h.0, rest.1 h.1))

pub identifier_iff : (s : Text) → (is_identifier s ≡ true) ↔ IsUlid s
identifier_iff [] = ((λ h. absurd (ground arith)), λ h. absurd h)
identifier_iff (c ∷ s) =
    let rest = All-crockford s in
    (
      λ h. (ground arith, ground arith, ground arith, rest.0 (ground arith)),
      λ (low, high, size, all). ground (arith, low, high, size, rest.1 all),
    )

pub IsFitting-iff : (most : ℕ) (s : Text) → (has_length most s ≡ true) ↔ IsFitting most s
IsFitting-iff most s = ((λ h. (ground arith, ground arith)), λ (a, b). ground (arith, a, b))

pub unit_iff : (c : Confidence) → (is_unit c ≡ true) ↔ ((n : ℕ) × (c ≡ thousandths n) × (n ≤ 1000))
unit_iff negative = ((λ h. absurd (ground arith)), λ (n, e, fits). absurd cc)
unit_iff (thousandths m) =
    (λ h. (m, refl, ground arith), λ (n, e, fits). ap is_unit e ∙ le→leb n 1000 fits)

pub IsDocument-iff :
    (libs : Libraries) (r : Response) (j : Json) → (loaded libs r ≡ ok j) ↔ IsDocument libs r j
IsDocument-iff libs (read i) j = (
  λ h. inl (ap read (result_inj {E = ProposalError} i j h)),
  λ h. elim h [ inl e ↦ ap (loaded libs) e | inr (s, e, _, _) ↦ absurd cc ],
)
IsDocument-iff libs (raw s) j = (
  λ h. elim (Bool-cases (ltb (16 * 1024) (length s))) [
    | inl large ↦ absurd (ground arith)
    | inr fits ↦ elim (Option-cases (libs.loads s)) [
      | inl n ↦ absurd (ground arith)
      | inr (i, e) ↦
          let same : i ≡ j = result_inj {E = ProposalError} i j (ground arith) in
          inr (s, refl, ground arith, e ∙ ap some same)
    ]
  ],
  λ h. elim h [
    | inl e ↦ absurd cc
    | inr (t, e, fits, loads) ↦
        let known : loaded libs (raw t) ≡ ok j = ground arith in ap (loaded libs) e ∙ known
  ],
)
