-- ===== src/Ai.antt =====
-- libs/mirage_common/ai.py: the snapshot that a provider is shown, the validation of its proposals, and
-- the budget, the circuit breaker, the policy and the orchestrator between it and a case.
pub mod Utf8
pub mod Proposal
pub mod Snapshot
pub mod Budget
pub mod Breaker
pub mod Policy
pub mod Strategy
pub mod Orchestrator
pub mod Credentials
pub mod Tests
