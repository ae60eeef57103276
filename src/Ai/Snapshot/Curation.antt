-- ===== src/Ai/Snapshot/Curation.antt =====
-- The bounds that the curation puts on the parts of a snapshot.
use mirageby_ai.Common.{
  ℕ, suc, ◌≤◌, ◌≡◌, refl, ap, String, Bool, true, false, not, ◌||◌, Option, none, some, List, [],
  ◌∷◌, inl, inr, map, any, take_last, length, length-take, length-take_last, arith, Bool-cases, All,
}
use mathlib.Core.Path.{subst}
use Prim.Native.String.{compare}
use Prim.Native.Nat.{Ordering}
use mirageby_ai.Common.Exec.{result_inj, ok, Result-cases}
use mirageby_ai.Contracts.Json.{Json}
use mirageby_ai.Ai.Utf8.{Text, encode, IsChar, truncate_utf8, truncate_utf8-IsLongestPrefix}
use mirageby_ai.Ai.Snapshot.{
  Confidence, negative, thousandths, clamped, Event, DirectiveItem, Directive, Snapshot, Material,
  Libraries, SnapshotError, is_member, action_types, case_states, bounded_json_object, insert_once,
  sorted_set, shown_event, shown_directive, draft_of, curate,
}
use mirageby_ai.Ai.Snapshot.Objects.{IsBounded, bounded_json_object-IsBounded}

abbrev Allowed : String → Type 0
Allowed a = is_member a action_types ≡ true

insert_once-All :
    (P : String → Type 0) (x : String) (xs : List String)
    → P x
    → All P xs
    → All P (insert_once x xs)
unfolding insert_once
insert_once-All P x [] h k = (h, tt)
insert_once-All P x (y ∷ ys) h k =
    elim (compare x y)
      as (λ o. All P (elim o [
        | Ordering.lt ↦ x ∷ y ∷ ys
        | Ordering.eq ↦ y ∷ ys
        | Ordering.gt ↦ y ∷ insert_once x ys
      ])) [
        | Ordering.lt ↦ (h, k)
        | Ordering.eq ↦ k
        | Ordering.gt ↦ (k.0, insert_once-All P x ys h k.1)
      ]

sorted_set-All : (P : String → Type 0) (xs : List String) → All P xs → All P (sorted_set xs)
unfolding sorted_set
sorted_set-All P [] h = tt
sorted_set-All P (x ∷ xs) h = insert_once-All P x (sorted_set xs) h.0 (sorted_set-All P xs h.1)

-- No text has a surrogate, for which encode would raise.
pub record IsEncodable (m : Material) : Type 0 where
  pub objective : All IsChar m.objective
  pub behaviour_summary : All IsChar m.behaviour_summary
  pub summaries : All (λ (e : Event). All IsChar e.summary) (take_last 50 m.recent_events)
  pub objectives :
      All (λ (d : DirectiveItem). All IsChar d.objective) (take_last 5 m.analyst_directives)
  pub content : All (All IsChar) (take_last 10 m.untrusted_intruder_content)

abbrev Fits : ℕ → Text → Type 0
Fits n s = length (encode s) ≤ n

-- The bounds of each part of a snapshot
pub record IsCurated (libs : Libraries) (s : Snapshot) : Type 0 where
  pub state_known : is_member s.case_state case_states ≡ true
  pub objective_fits : length (encode s.objective) ≤ 512
  pub summary_fits : length (encode s.behaviour_summary) ≤ 2048
  pub event_count : length s.recent_events ≤ 50
  pub events_fit : All (λ (e : Event). length (encode e.summary) ≤ 256) s.recent_events
  pub confidence_fits : s.skill_profile.confidence ≤ 1000
  pub sandbox_fits : length (libs.object_bytes s.sandbox_state) ≤ 4096
  pub artifact_count : length s.available_artifacts ≤ 20
  pub actions_allowed : All (λ a. is_member a action_types ≡ true) s.allowed_actions
  pub directive_count : length s.analyst_directives ≤ 5
  pub directives_fit :
      All (λ (d : Directive). length (encode d.objective) ≤ 512) s.analyst_directives
  pub action_count : length s.previous_actions ≤ 10
  pub content_count : length s.untrusted_intruder_content ≤ 10
  pub content_fits : All (λ t. length (encode t) ≤ 1024) s.untrusted_intruder_content

clamped-le : (c : Option Confidence) → clamped c ≤ 1000
clamped-le none = omega arith
clamped-le (some negative) = omega arith
clamped-le (some (thousandths n)) = omega arith

truncated : (s : Text) (n : ℕ) → All IsChar s → length (encode (truncate_utf8 s n)) ≤ n
truncated s n h = (truncate_utf8-IsLongestPrefix s n h).within

All-map :
    {A B : Type 0} (f : A → B) (P : A → Type 0) (Q : B → Type 0) (xs : List A)
    → ((x : A) → P x → Q (f x))
    → All P xs
    → All Q (map f xs)
All-map f P Q [] imp h = tt
All-map f P Q (x ∷ xs) imp h = (imp x h.0, All-map f P Q xs imp h.1)

length-map : {A B : Type 0} (f : A → B) (xs : List A) → length (map f xs) ≡ length xs
length-map f [] = refl
length-map f (x ∷ xs) = ap suc (length-map f xs)

All-Allowed :
    (xs : List String) → any (λ a. not (is_member a action_types)) xs ≡ false → All Allowed xs
All-Allowed [] h = tt
All-Allowed (x ∷ xs) h = elim (Bool-cases (is_member x action_types)) [
  | inl e ↦ (e, All-Allowed xs (or_inv (not (is_member x action_types)) _ h).1)
  | inr e ↦
      absurd (true_inv (is_member x action_types) e (or_inv (not (is_member x action_types)) _ h).0)
]
  where
    or_inv : (a b : Bool) → a || b ≡ false → (a ≡ false) × (b ≡ false)
    or_inv a b q = ground arith

    true_inv : (a : Bool) → a ≡ false → not a ≡ false → ⊥
    true_inv a e q = ground arith

last_few : {A B : Type 0} (f : A → B) (n : ℕ) (xs : List A) → length (map f (take_last n xs)) ≤ n
last_few f n xs = omega (arith, length-map f (take_last n xs), length-take_last n xs)

draft_of-IsCurated :
    (libs : Libraries) (m : Material) (sandbox : List (String × Json))
    → IsEncodable m
    → is_member m.case_state case_states ≡ true
    → any (λ a. not (is_member a action_types)) m.allowed_actions ≡ false
    → length (libs.object_bytes sandbox) ≤ 4096
    → IsCurated libs (draft_of m sandbox)
draft_of-IsCurated libs m sandbox h known allowed fits = record {
  state_known = known;
  objective_fits = truncated m.objective 512 h.objective;
  summary_fits = truncated m.behaviour_summary 2048 h.behaviour_summary;
  event_count = last_few shown_event 50 m.recent_events;
  events_fit =
      All-map shown_event (λ (e : Event). All IsChar e.summary) (λ (e : Event). Fits 256 e.summary)
        (take_last 50 m.recent_events) (λ e k. truncated e.summary 256 k) h.summaries;
  confidence_fits = clamped-le m.skill_profile.confidence;
  sandbox_fits = fits;
  artifact_count = omega (arith, length-take 20 m.available_artifacts);
  actions_allowed =
      sorted_set-All Allowed m.allowed_actions (All-Allowed m.allowed_actions allowed);
  directive_count = last_few shown_directive 5 m.analyst_directives;
  directives_fit =
      All-map shown_directive (λ (d : DirectiveItem). All IsChar d.objective)
        (λ (d : Directive). Fits 512 d.objective) (take_last 5 m.analyst_directives)
        (λ d k. truncated d.objective 512 k) h.objectives;
  action_count = omega (arith, length-take_last 10 m.previous_actions);
  content_count = last_few (λ (s : Text). truncate_utf8 s 1024) 10 m.untrusted_intruder_content;
  content_fits =
      All-map (λ (s : Text). truncate_utf8 s 1024) (All IsChar) (Fits 1024)
        (take_last 10 m.untrusted_intruder_content) (λ s k. truncated s 1024 k) h.content;
}

curate-inv :
    (libs : Libraries) (m : Material) (d : Snapshot)
    → curate libs m ≡ ok d
    → (sandbox : List (String × Json)) × (bounded_json_object libs m.sandbox_state 4096
        ≡ ok sandbox)
      × (draft_of m sandbox ≡ d)
      × (is_member m.case_state case_states ≡ true)
      × (any (λ a. not (is_member a action_types)) m.allowed_actions ≡ false)
unfolding curate
curate-inv libs m d h = elim (Bool-cases (is_member m.case_state case_states)) [
  | inr e ↦ absurd (ground arith)
  | inl known ↦ elim (Bool-cases (any (λ a. not (is_member a action_types)) m.allowed_actions)) [
    | inl e ↦ absurd (ground arith)
    | inr allowed ↦ elim (Result-cases (bounded_json_object libs m.sandbox_state 4096)) [
      | inr (x, e) ↦ absurd (ground arith)
      | inl (sandbox, e) ↦ (
        sandbox,
        e,
        result_inj {E = SnapshotError} (draft_of m sandbox) d (ground arith),
        known,
        allowed,
      )
    ]
  ]
]

-- A snapshot that the curation lets through has a known state and only actions of the known types; its
-- texts, its lists and its sandbox state are within their bounds, and its confidence is at most 1.
pub curate-IsCurated :
    (libs : Libraries) (m : Material) (d : Snapshot)
    → IsEncodable m
    → curate libs m ≡ ok d
    → IsCurated libs d
curate-IsCurated libs m d h e =
    let (sandbox, fits, same, known, allowed) = curate-inv libs m d e in
    subst (IsCurated libs) same (
      draft_of-IsCurated libs m sandbox h known allowed (
        subst (IsBounded libs 4096) fits (bounded_json_object-IsBounded libs m.sandbox_state 4096)))
