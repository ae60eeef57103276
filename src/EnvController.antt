-- ===== src/EnvController.antt =====
-- agents/mirage-env-controller/mirage_env_controller: the agent inside a sandbox that carries out
-- the structured actions (actions.py) and keeps the journal that they are rolled back from
-- (journal.py).
pub mod Downloads
pub mod Paths
pub mod Journal
pub mod Host
pub mod Handlers
pub mod Sessions
pub mod Execution
pub mod Resolution
pub mod Confinement
pub mod Tests
pub mod Files
