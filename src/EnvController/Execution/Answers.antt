-- ===== src/EnvController/Execution/Answers.antt =====
-- The answer and the journal entry of a known action, and the output tags.
use mirageby_ai.Common.{
  ◌≡◌, refl, sym, ap, ◌∙◌, String, Bool, true, false, not, ◌||◌, none, some, [], ◌∷◌, ◌⊎◌, inl, inr,
  arith, Bool-cases, Option-cases, str_eq, eq_iff, eq_refl, any, All, false-ne-true,
}
use mathlib.Core.Path.{subst}
use mirageby_ai.Common.Exec.{
  Result, ok, err, raise_if, ◌>>=◌, ◌>>◌, Exec-cases, bind_ok, bind_err, err-ne-ok, ok_inj,
}
use mirageby_ai.Contracts.Json.{Json}
use mirageby_ai.SandboxActions.Types.{allowed_action_types, default_output_tag, is_one_of}
use mirageby_ai.EnvController.Paths.{resolve}
use mirageby_ai.EnvController.Host.{
  Host, Act, Failure, Context, crashed, get_or, get_field, is_text, entry_of, first_root,
}
use mirageby_ai.EnvController.Journal.{Definition, Journal, get}
use mirageby_ai.EnvController.Journal.Refinement.{get-record_entry}
use mirageby_ai.EnvController.Handlers.{display_message, log_message}
use mirageby_ai.EnvController.Execution.{
  Outcome, Request, handler, finish, entry_for, status_of, output_tag, text_param, is_output_tag,
  execute_action, text_of, succeeded, failed_outcome, journaled,
}
use mirageby_ai.EnvController.Confinement.{Confined}
use mirageby_ai.EnvController.Confinement.Executions.{Keeps-handler}

-- What an outcome may be: a success has a known tag and a rollback definition, a refusal has an
-- error and neither.
pub record IsSuccess (o : Outcome) : Type 0 where
  pub status_is : o.status ≡ "SUCCESS"
  pub tagged : is_output_tag o.output_tag ≡ true
  pub undone_by : Definition
  pub defined : o.rollback_definition ≡ some undone_by
  pub no_error : o.error_detail ≡ none

pub record IsRefusal (o : Outcome) : Type 0 where
  pub failure : Failure
  pub status_is : o.status ≡ status_of failure
  pub untagged : o.output_tag ≡ none
  pub undefined : o.rollback_definition ≡ none
  pub reported : o.error_detail ≡ some failure

pub record Answered (r : Request) (before : Journal) (x : Result Failure Outcome × Host)
    : Type 0 where
  pub outcome : Outcome
  pub host : Host
  pub answers : x ≡ (ok outcome, host)
  pub kind : IsSuccess outcome ⊎ IsRefusal outcome
  pub journaled_as :
      get r.action_id host.journal ≡ some (entry_for r outcome.rollback_definition outcome.status)
  pub others_same :
      (id : String) → str_eq r.action_id id ≡ false → get id host.journal ≡ get id before

text_tagged :
    (v : Json)
    → is_text v "AI_GENERATED_INTERACTION" || is_text v "ANALYST_MESSAGE" ≡ true
    → is_output_tag (text_of v) ≡ true
text_tagged (Json.text s) h = ground (
  arith,
  eq_iff s "AI_GENERATED_INTERACTION",
  eq_iff s "ANALYST_MESSAGE",
  eq_iff "AI_GENERATED_INTERACTION" s,
  eq_iff "ANALYST_MESSAGE" s,
)
text_tagged Json.null h = absurd (ground arith)
text_tagged (Json.flag b) h = absurd (ground arith)
text_tagged (Json.num b) h = absurd (ground arith)
text_tagged (Json.ratio b c) h = absurd (ground arith)
text_tagged (Json.arr b) h = absurd (ground arith)
text_tagged (Json.obj b) h = absurd (ground arith)

tag_of_param :
    (params : Json) (h : Host) (v : Json) (t : Host)
    → get_field "output_tag" params h ≡ (ok v, t)
    → is_text v "AI_GENERATED_INTERACTION" || is_text v "ANALYST_MESSAGE" ≡ true
    → is_output_tag (text_param "output_tag" params) ≡ true
unfolding get_or text_param
tag_of_param (Json.obj d) h v t r valid = elim (Option-cases (entry_of "output_tag" d)) [
  | inl e ↦
      let same : Json.null ≡ v = (ok_inj {E = Failure} Json.null v h t (ground arith)).0 in
      absurd (
        false-ne-true (
          subst (λ x. is_text x "AI_GENERATED_INTERACTION" || is_text x "ANALYST_MESSAGE" ≡ true)
            (sym same) valid))
  | inr (w, e) ↦
      let same : w ≡ v = (ok_inj {E = Failure} w v h t (ground arith)).0 in
      let tagged = text_tagged v valid in ground arith
]
tag_of_param Json.null h v t r valid = absurd (err-ne-ok _ v h t r)
tag_of_param (Json.flag b) h v t r valid = absurd (err-ne-ok _ v h t r)
tag_of_param (Json.num b) h v t r valid = absurd (err-ne-ok _ v h t r)
tag_of_param (Json.ratio b c) h v t r valid = absurd (err-ne-ok _ v h t r)
tag_of_param (Json.text b) h v t r valid = absurd (err-ne-ok _ v h t r)
tag_of_param (Json.arr b) h v t r valid = absurd (err-ne-ok _ v h t r)

-- What the rest of the block needs of the tag
checked :
    (b : Bool) (rest : Act Definition) (h : Host) (d : Definition) (t : Host)
    → (raise_if (not b) (crashed "ValueError") >> rest) h ≡ (ok d, t)
    → b ≡ true
unfolding ◌>>=◌
checked true rest h d t r = refl
checked false rest h d t r = absurd (err-ne-ok _ d h t r)

message_tag :
    (ctx : Context) (params : Json) (h : Host) (d : Definition) (t : Host)
    → display_message ctx params h ≡ (ok d, t)
    → is_output_tag (text_param "output_tag" params) ≡ true
unfolding display_message
message_tag ctx params h d t r = elim (Exec-cases (get_field "output_tag" params h)) [
  | inl (v, u, e) ↦ tag_of_param params h v u e (
      checked (is_text v "AI_GENERATED_INTERACTION" || is_text v "ANALYST_MESSAGE")
        (first_root ctx.allowed_roots >>= log_message params v) u d t
        (sym (bind_ok (get_field "output_tag" params) _ h v u e) ∙ r))
  | inr (x, u, e) ↦
      absurd (err-ne-ok x d u t (sym (bind_err (get_field "output_tag" params) _ h x u e) ∙ r))
]

default_tagged :
    (t : String) → str_eq t "DISPLAY_MESSAGE" ≡ false → is_output_tag (default_output_tag t) ≡ true
unfolding default_output_tag
default_tagged t h =
    let other : is_one_of ("DISPLAY_MESSAGE" ∷ []) t ≡ false =
      ground (arith, eq_iff t "DISPLAY_MESSAGE", eq_iff "DISPLAY_MESSAGE" t) in
    ground arith

finish-Answered :
    (r : Request) (before : Journal) (x : Result Failure Definition × Host)
    → x.1.journal ≡ before
    → ((d : Definition) (t : Host) → x ≡ (ok d, t) → is_output_tag (output_tag r) ≡ true)
    → Answered r before (finish r x)
unfolding finish
finish-Answered r before (ok d, h) same tagged =
    let valid = tagged d h refl in
    let e = entry_for r (some d) "SUCCESS" in
    record {
      outcome = succeeded (output_tag r) d;
      host = journaled e h;
      answers = ground arith;
      kind = inl (record {
        status_is = refl;
        tagged = valid;
        undone_by = d;
        defined = refl;
        no_error = refl;
      });
      journaled_as = ground (arith, get-record_entry e h.journal r.action_id, eq_refl r.action_id);
      others_same = λ id other. ground (arith, get-record_entry e h.journal id, ap (get id) same);
    }
finish-Answered r before (err x, h) same tagged =
    let e = entry_for r none (status_of x) in
    record {
      outcome = failed_outcome (status_of x) x;
      host = journaled e h;
      answers = refl;
      kind = inr (record {
        failure = x;
        status_is = refl;
        untagged = refl;
        undefined = refl;
        reported = refl;
      });
      journaled_as = ground (arith, get-record_entry e h.journal r.action_id, eq_refl r.action_id);
      others_same = λ id other. ground (arith, get-record_entry e h.journal id, ap (get id) same);
    }

handler_tagged :
    (ctx : Context) (r : Request) (h : Host) (d : Definition) (t : Host)
    → handler ctx r.action_type r.action_params h ≡ (ok d, t)
    → is_output_tag (output_tag r) ≡ true
unfolding output_tag handler
handler_tagged ctx r h d t e = elim (Bool-cases (str_eq r.action_type "DISPLAY_MESSAGE")) [
  | inl message ↦
      let same = (eq_iff r.action_type "DISPLAY_MESSAGE").0 message in
      let own =
        message_tag ctx r.action_params h d t
          (subst (λ x. handler ctx x r.action_params h ≡ (ok d, t)) same e) in
      ground arith
  | inr other ↦ let own = default_tagged r.action_type other in ground arith
]

-- When the approved roots are written without `..`, a known action that is not a rollback is
-- answered, whatever its parameters are and whatever its handler raises: with a success that has a
-- known output tag and says what undoes it, or with a refusal that has the error and neither; the
-- journal then has the entry of that outcome under the action's identifier and is otherwise
-- unchanged.
pub execute_action-Answered :
    (ctx : Context) (r : Request) (h : Host)
    → All (λ root. resolve root ≡ root) ctx.allowed_roots
    → any (λ t. str_eq t r.action_type) allowed_action_types ≡ true
    → str_eq r.action_type "ROLLBACK_ACTION" ≡ false
    → Answered r h.journal (execute_action ctx r h)
unfolding execute_action Confined
execute_action-Answered ctx r h plain known other =
    let x = handler ctx r.action_type r.action_params h in
    let same = (Keeps-handler ctx plain r.action_type r.action_params h).1 in
    let taken : execute_action ctx r h ≡ finish r x = ground arith in
    subst (Answered r h.journal) (sym taken)
      (finish-Answered r h.journal x same (handler_tagged ctx r h))
