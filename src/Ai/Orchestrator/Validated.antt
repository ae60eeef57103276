-- ===== src/Ai/Orchestrator/Validated.antt =====
-- AIOrchestrator.propose with the validation of libs/mirage_common/ai.py: what a proposal that comes
-- back has passed.
use mirageby_ai.Common.{
  ℕ, ◌≡◌, sym, ap, ◌∙◌, String, true, Option, none, some, arith, eq_iff, none-ne-some, some_inj,
  inl, inr,
}
use mirageby_ai.Common.Exec.{Result, ok, err, Result-cases}
use mirageby_ai.Ai.Utf8.{Text}
use mirageby_ai.Ai.Budget.{Moment}
use mirageby_ai.Ai.Proposal.{Libraries, ProposalError, Response, validate_proposal}
use mirageby_ai.Ai.Proposal.Acceptance.{IsAcceptable, validate_proposal_iff}
use mirageby_ai.Ai.Proposal
use mirageby_ai.Ai.Orchestrator.{
  Proposal, Outcome, proposed, fell_back, raised, Answer, Provider, Orchestrator, Request, is_own,
  propose,
}
use mirageby_ai.Ai.Orchestrator.Bounded.{Settles, propose-Settles}

-- A provider whose responses are texts or dicts; the text of code points and a datetime as a number
-- are the host's.
pub record Host (W : Type 0) : Type 0 where
  pub propose : W → Answer Response × W
  pub monotonic : W → ℕ
  pub pause : String → ℕ → W → W
  pub text_of : Text → String
  pub timestamp : Moment → ℕ

module _ {W : Type 0} (libs : Libraries) (host : Host W) where
  -- What propose reads of a validated proposal
  abbrev pub read_of : Result ProposalError Proposal.Proposal → Option Proposal
  read_of (err e) = none
  read_of (ok p) =
      some (record { case_id = host.text_of p.case_id; snapshot_id = host.text_of p.snapshot_id })

  abbrev pub validating : Provider Response W
  validating = record {
    propose = host.propose;
    validate_proposal = λ r now. read_of (validate_proposal libs r (host.timestamp now));
    monotonic = host.monotonic;
    pause = host.pause;
  }

  -- The outcome rests on a response that is acceptable at the request's time, for this case and snapshot.
  abbrev pub IsBacked : Request → Outcome → Type 0
  IsBacked q (proposed p n) =
      (r : Response) × (full : Proposal.Proposal) × IsAcceptable libs r (host.timestamp q.now) full
      × (host.text_of full.case_id ≡ q.case_id)
      × (host.text_of full.snapshot_id ≡ q.snapshot_id)
  IsBacked q x = Unit

  own_inv :
      (q : Request) (p : Proposal)
      → is_own q p ≡ true
      → (p.case_id ≡ q.case_id) × (p.snapshot_id ≡ q.snapshot_id)
  own_inv q p h = (
    (eq_iff p.case_id q.case_id).0 (ground arith),
    (eq_iff p.snapshot_id q.snapshot_id).0 (ground arith),
  )

  answer-IsBacked :
      (q : Request) (p : Proposal) (n : ℕ) (r : Response)
      → is_own q p ≡ true
      → read_of (validate_proposal libs r (host.timestamp q.now)) ≡ some p
      → IsBacked q (proposed p n)
  answer-IsBacked q p n r own e =
      elim (Result-cases (validate_proposal libs r (host.timestamp q.now))) [
        | inr (x, bad) ↦ absurd (none-ne-some p (sym (ap read_of bad) ∙ e))
        | inl (full, good) ↦
            let same = some_inj _ p (sym (ap read_of good) ∙ e) in
            let provenance = own_inv q p own in
            (
              r,
              full,
              (validate_proposal_iff libs r (host.timestamp q.now) full).0 good,
              ap (λ (x : Proposal). x.case_id) same ∙ provenance.0,
              ap (λ (x : Proposal). x.snapshot_id) same ∙ provenance.1,
            )
      ]

  settled-IsBacked :
      (q : Request) (o : Orchestrator) (x : Outcome × Orchestrator × W)
      → Settles validating q o x
      → IsBacked q x.0
  settled-IsBacked q o (proposed p n, o', w) (few, own, (r, e), charged) =
      answer-IsBacked q p n r own e
  settled-IsBacked q o (fell_back reason n, o', w) h = tt
  settled-IsBacked q o (raised e, o', w) h = tt

  -- Whatever the provider answers, a request comes to an outcome, and a proposal that comes back
  -- stands in a response that validate_proposal accepts at the request's time, for the case and
  -- the snapshot of the request: so it has a known action and no forbidden key or command.
  pub propose-IsBacked :
      (q : Request) (o : Orchestrator) (w : W)
      → (x : Outcome × Orchestrator × W) × (propose validating q o w ≡ some x) × IsBacked q x.0
  propose-IsBacked q o w =
      let (x, e, settled) = propose-Settles validating q o w in
      (x, e, settled-IsBacked q o x settled)
