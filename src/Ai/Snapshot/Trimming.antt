-- ===== src/Ai/Snapshot/Trimming.antt =====
-- What the trimming of a snapshot may take away, and that it ends.
use mirageby_ai.Common.{
  suc, ◌≡◌, refl, sym, ap, ◌∙◌, not, none, some, List, [], ◌∷◌, ◌⊎◌, inl, inr, select, length,
  arith, Bool-cases, Option-cases, List-cases, none-ne-some, some_inj,
}
use mirageby_ai.Contracts.Json.{Json}
use mirageby_ai.Ai.Utf8.{Text}
use mirageby_ai.Ai.Snapshot.{Directive, Event, Snapshot}
use mirageby_ai.Ai.Snapshot.Assembly.{
  Field, is_active, pop_last, pop_inactive, trim_step, removable,
}
use mirageby_ai.Ai.Snapshot.Segments.{
  IsSuffix, IsPrefix, IsSuffix-refl, IsPrefix-refl, IsSuffix-pop, IsPrefix-pop, length-pop_last,
}

-- The one that is popped is not active, and there is one unless all are active.
pop_inactive-some :
    (ds rest : List Directive)
    → pop_inactive ds ≡ some rest
    → (select is_active rest ≡ select is_active ds) × (suc (length rest) ≡ length ds)
unfolding pop_inactive
pop_inactive-some [] rest h = absurd (none-ne-some rest h)
pop_inactive-some (d ∷ ds) rest h = elim (Bool-cases (is_active d)) [
  | inr e ↦ let same : ds ≡ rest = some_inj ds rest (ground arith) in ground (arith, ap length same)
  | inl e ↦ elim (Option-cases (pop_inactive ds)) [
    | inl n ↦ absurd (ground arith)
    | inr (more, m) ↦
        let same : d ∷ more ≡ rest = some_inj (d ∷ more) rest (ground arith) in
        let own = pop_inactive-some ds more m in ground (arith, own.0, own.1, ap length same)
  ]
]

pop_inactive-none :
    (ds : List Directive) → pop_inactive ds ≡ none → select (λ d. not (is_active d)) ds ≡ []
unfolding pop_inactive
pop_inactive-none [] h = refl
pop_inactive-none (d ∷ ds) h = ground (arith, pop_inactive-none ds)

all_active_none :
    (ds : List Directive) → select (λ d. not (is_active d)) ds ≡ [] → pop_inactive ds ≡ none
unfolding pop_inactive
all_active_none [] h = refl
all_active_none (d ∷ ds) h = elim (Bool-cases (is_active d)) [
  | inr e ↦ absurd (ground arith)
  | inl e ↦ ground (arith, all_active_none ds (ground arith))
]

abbrev inactive : List Directive → List Directive
inactive ds = select (λ d. not (is_active d)) ds

-- What the trimming leaves of a snapshot. It takes the oldest untrusted content, then the last
-- artifacts, then the oldest actions, then directives that are not active, then the oldest events, each
-- only when nothing of the one before is left; the other fields and the active directives stay.
pub record IsTrimmed (s t : Snapshot) : Type 0 where
  pub protected : t ≡ record s {
    untrusted_intruder_content = t.untrusted_intruder_content;
    available_artifacts = t.available_artifacts;
    previous_actions = t.previous_actions;
    analyst_directives = t.analyst_directives;
    recent_events = t.recent_events;
  }
  pub content : IsSuffix s.untrusted_intruder_content t.untrusted_intruder_content
  pub artifacts : IsPrefix s.available_artifacts t.available_artifacts
  pub artifacts_second :
      (t.available_artifacts ≡ s.available_artifacts) ⊎ (t.untrusted_intruder_content ≡ [])
  pub actions : IsSuffix s.previous_actions t.previous_actions
  pub actions_third : (t.previous_actions ≡ s.previous_actions) ⊎ (t.available_artifacts ≡ [])
  pub directives : select is_active t.analyst_directives ≡ select is_active s.analyst_directives
  pub directives_fourth : (t.analyst_directives ≡ s.analyst_directives) ⊎ (t.previous_actions ≡ [])
  pub events : IsSuffix s.recent_events t.recent_events
  pub events_last : (t.recent_events ≡ s.recent_events) ⊎ (inactive t.analyst_directives ≡ [])

pub IsTrimmed-refl : (s : Snapshot) → IsTrimmed s s
IsTrimmed-refl s = record {
  protected = refl;
  content = IsSuffix-refl s.untrusted_intruder_content;
  artifacts = IsPrefix-refl s.available_artifacts;
  artifacts_second = inl refl;
  actions = IsSuffix-refl s.previous_actions;
  actions_third = inl refl;
  directives = refl;
  directives_fourth = inl refl;
  events = IsSuffix-refl s.recent_events;
  events_last = inl refl;
}

-- Only protected fields are left.
pub record IsBare (t : Snapshot) : Type 0 where
  pub no_content : t.untrusted_intruder_content ≡ []
  pub no_artifact : t.available_artifacts ≡ []
  pub no_action : t.previous_actions ≡ []
  pub all_active : inactive t.analyst_directives ≡ []
  pub no_event : t.recent_events ≡ []

-- One round that pops leaves a trimmed snapshot trimmed, and one element less to pop.
pub record IsPopped (t u : Snapshot) : Type 0 where
  pub keeps : (s : Snapshot) → IsTrimmed s t → IsTrimmed s u
  pub less : suc (removable u) ≡ removable t

content-IsPopped :
    (t : Snapshot) (x : Text) (xs : List Text)
    → t.untrusted_intruder_content ≡ x ∷ xs
    → IsPopped t (record t { untrusted_intruder_content = xs })
content-IsPopped t x xs e = record {
  keeps = λ s h. record {
    protected = ap (λ (r : Snapshot). record r { untrusted_intruder_content = xs }) h.protected;
    content = IsSuffix-pop s.untrusted_intruder_content x xs (rw (← e) h.content);
    artifacts = h.artifacts;
    artifacts_second = elim h.artifacts_second [ inl k ↦ inl k | inr k ↦ absurd (ground arith) ];
    actions = h.actions;
    actions_third = h.actions_third;
    directives = h.directives;
    directives_fourth = h.directives_fourth;
    events = h.events;
    events_last = h.events_last;
  };
  less = omega (arith, ap length e);
}

artifact-IsPopped :
    (t : Snapshot) (x : Json) (xs : List Json)
    → t.untrusted_intruder_content ≡ []
    → t.available_artifacts ≡ x ∷ xs
    → IsPopped t (record t { available_artifacts = pop_last x xs })
artifact-IsPopped t x xs n e = record {
  keeps = λ s h. record {
    protected = ap (λ (r : Snapshot). record r { available_artifacts = pop_last x xs }) h.protected;
    artifacts = IsPrefix-pop s.available_artifacts x xs (rw (← e) h.artifacts);
    artifacts_second = inr n;
    actions_third = elim h.actions_third [ inl k ↦ inl k | inr k ↦ absurd (ground arith) ];
    content = h.content;
    actions = h.actions;
    directives = h.directives;
    directives_fourth = h.directives_fourth;
    events = h.events;
    events_last = h.events_last;
  };
  less = omega (arith, ap length e, length-pop_last x xs);
}

action-IsPopped :
    (t : Snapshot) (x : Json) (xs : List Json)
    → t.available_artifacts ≡ []
    → t.previous_actions ≡ x ∷ xs
    → IsPopped t (record t { previous_actions = xs })
action-IsPopped t x xs n e = record {
  keeps = λ s h. record {
    protected = ap (λ (r : Snapshot). record r { previous_actions = xs }) h.protected;
    actions = IsSuffix-pop s.previous_actions x xs (rw (← e) h.actions);
    actions_third = inr n;
    directives_fourth = elim h.directives_fourth [ inl k ↦ inl k | inr k ↦ absurd (ground arith) ];
    content = h.content;
    artifacts = h.artifacts;
    artifacts_second = h.artifacts_second;
    directives = h.directives;
    events = h.events;
    events_last = h.events_last;
  };
  less = omega (arith, ap length e);
}

directive-IsPopped :
    (t : Snapshot) (ds : List Directive)
    → t.previous_actions ≡ []
    → pop_inactive t.analyst_directives ≡ some ds
    → IsPopped t (record t { analyst_directives = ds })
directive-IsPopped t ds n e =
    let popped = pop_inactive-some t.analyst_directives ds e in
    record {
      keeps = λ s h. record {
        protected = ap (λ (r : Snapshot). record r { analyst_directives = ds }) h.protected;
        directives = popped.0 ∙ h.directives;
        directives_fourth = inr n;
        events_last = elim h.events_last [
          | inl k ↦ inl k
          | inr k ↦ absurd (none-ne-some ds (sym (all_active_none t.analyst_directives k) ∙ e))
        ];
        content = h.content;
        artifacts = h.artifacts;
        artifacts_second = h.artifacts_second;
        actions = h.actions;
        actions_third = h.actions_third;
        events = h.events;
      };
      less = omega (arith, popped.1);
    }

event-IsPopped :
    (t : Snapshot) (x : Event) (xs : List Event)
    → inactive t.analyst_directives ≡ []
    → t.recent_events ≡ x ∷ xs
    → IsPopped t (record t { recent_events = xs })
event-IsPopped t x xs n e = record {
  keeps = λ s h. record {
    protected = ap (λ (r : Snapshot). record r { recent_events = xs }) h.protected;
    events = IsSuffix-pop s.recent_events x xs (rw (← e) h.events);
    events_last = inr n;
    content = h.content;
    artifacts = h.artifacts;
    artifacts_second = h.artifacts_second;
    actions = h.actions;
    actions_third = h.actions_third;
    directives = h.directives;
    directives_fourth = h.directives_fourth;
  };
  less = omega (arith, ap length e);
}

pub trim_step-cases :
    (t : Snapshot)
    → ((trim_step t ≡ none) × IsBare t)
      ⊎ ((f : Field) × (u : Snapshot) × (trim_step t ≡ some (f, u)) × IsPopped t u)
unfolding trim_step
trim_step-cases t = elim (List-cases t.untrusted_intruder_content) [
  | inr (x, xs, e) ↦ inr (Field.untrusted_intruder_content, _, rw e refl, content-IsPopped t x xs e)
  | inl no_content ↦ elim (List-cases t.available_artifacts) [
    | inr (x, xs, e) ↦
        inr (Field.available_artifacts, _, ground arith, artifact-IsPopped t x xs no_content e)
    | inl no_artifact ↦ elim (List-cases t.previous_actions) [
      | inr (x, xs, e) ↦
          inr (Field.previous_actions, _, ground arith, action-IsPopped t x xs no_artifact e)
      | inl no_action ↦ elim (Option-cases (pop_inactive t.analyst_directives)) [
        | inr (ds, e) ↦
            inr (Field.analyst_directives, _, ground arith, directive-IsPopped t ds no_action e)
        | inl n ↦
            let all_active = pop_inactive-none t.analyst_directives n in
            elim (List-cases t.recent_events) [
              | inr (x, xs, e) ↦
                  inr (Field.recent_events, _, ground arith, event-IsPopped t x xs all_active e)
              | inl no_event ↦ inl (
                ground arith,
                record {
                  no_content = no_content;
                  no_artifact = no_artifact;
                  no_action = no_action;
                  all_active = all_active;
                  no_event = no_event;
                },
              )
            ]
      ]
    ]
  ]
]
