-- ===== src/Ai/Strategy.antt =====
-- `next_strategy_phase`. A confidence is a float, of which the code uses one comparison.
use mirageby_ai.Common.{
  ℕ, ◌+◌, ◌≤◌, Bool, true, not, ◌≡◌, ◌<◌, ◌&&◌, ◌==◌, any, Bool-cases, ltb→lt, inl, inr, List, [],
  ◌∷◌, arith, ltb, if◌then◌else◌, length,
}

-- PHASES
pub data Phase : Type 0 where
  observe profile engage deepen verify contain conclude : Phase

abbrev pub rank : Phase → ℕ
rank observe = 0
rank profile = 1
rank engage = 2
rank deepen = 3
rank verify = 4
rank contain = 5
rank conclude = 6

pub record Progress : Type 0 where
  pub evidence_count : ℕ
  pub confidence_below_threshold : Bool
  pub artifact_ready : Bool
  pub verification_complete : Bool
  pub containment_triggered : Bool
  pub analyst_approval : Bool

-- PHASE_TRANSITIONS
abbrev pub phase_transition : Phase → Phase
phase_transition observe = profile
phase_transition profile = engage
phase_transition engage = deepen
phase_transition deepen = verify
phase_transition verify = contain
phase_transition contain = conclude
phase_transition conclude = conclude

-- What a phase waits for.
abbrev pub is_ready : Phase → Progress → Bool
is_ready observe x = not (ltb x.evidence_count 3)
is_ready profile x = not x.confidence_below_threshold
is_ready engage x = x.artifact_ready
is_ready deepen x = x.verification_complete
is_ready verify x = x.containment_triggered
is_ready contain x = x.analyst_approval
is_ready conclude x = true

abbrev pub is_phase : Phase → Phase → Bool
is_phase p q = rank p == rank q

pub next_strategy_phase : Phase → Progress → Phase
next_strategy_phase current x =
    if is_phase current observe && ltb x.evidence_count 3
    then current
    else if is_phase current profile && x.confidence_below_threshold
    then current
    else if is_phase current engage && not x.artifact_ready
    then current
    else if is_phase current deepen && not x.verification_complete
    then current
    else if is_phase current verify && not x.containment_triggered
    then current
    else if is_phase current contain && not x.analyst_approval
    then current
    else phase_transition current

-- The phase after one look at the progress after the other.
abbrev pub phase_after : Phase → List Progress → Phase
phase_after p [] = p
phase_after p (x ∷ xs) = phase_after (next_strategy_phase p x) xs

rank-next :
    (p : Phase) (x : Progress)
    → (rank p ≤ rank (next_strategy_phase p x)) × (rank (next_strategy_phase p x) ≤ rank p + 1)
unfolding next_strategy_phase
rank-next p x = ground arith

-- A step out of a phase, seen from the phase that is left.
left_when_ready :
    (p q : Phase) (x : Progress)
    → rank q ≤ rank p
    → rank p < rank (next_strategy_phase q x)
    → is_ready p x ≡ true
unfolding next_strategy_phase
left_when_ready p q x h k = ground arith

rank-phase_after :
    (p : Phase) (xs : List Progress)
    → (rank p ≤ rank (phase_after p xs)) × (rank (phase_after p xs) ≤ rank p + length xs)
rank-phase_after p [] = (omega arith, omega arith)
rank-phase_after p (x ∷ xs) =
    let (up, one) = rank-next p x in
    let (more, most) = rank-phase_after (next_strategy_phase p x) xs in (omega arith, omega arith)

passed_when_ready :
    (p q : Phase) (xs : List Progress)
    → rank p ≤ rank q
    → rank q < rank (phase_after p xs)
    → any (is_ready q) xs ≡ true
passed_when_ready p q [] h k = absurd (omega arith)
passed_when_ready p q (x ∷ xs) h k =
    elim (Bool-cases (ltb (rank q) (rank (next_strategy_phase p x)))) [
      | inl gone ↦ ground (arith, left_when_ready q p x h (ltb→lt _ _ gone))
      | inr there ↦
          ground (arith, passed_when_ready (next_strategy_phase p x) q xs (ground arith) k)
    ]

-- A strategy goes forward one phase at a time and leaves none before its own condition is met:
-- after any number of looks at the progress the phase is not an earlier one, it has moved at most
-- once for each look, and for every phase passed on the way there was a look that found ready
-- what that phase waits for.
pub phase_after_lem :
    (p : Phase) (xs : List Progress)
    → (rank p ≤ rank (phase_after p xs))
      × (rank (phase_after p xs) ≤ rank p + length xs)
      × ((q : Phase)
          → rank p ≤ rank q
          → rank q < rank (phase_after p xs)
          → any (is_ready q) xs ≡ true)
phase_after_lem p xs =
    let (up, most) = rank-phase_after p xs in (up, most, λ q h k. passed_when_ready p q xs h k)
