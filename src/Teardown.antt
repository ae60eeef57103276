-- ===== src/Teardown.antt =====
-- libs/mirage_common/teardown.py: the ordered teardown of a case's cloud resources and its journal.
-- The adapter is `LocalCloudAdapter`, and the times in the journal are left out.
pub mod Spared
pub mod Types
pub mod Resources
pub mod Workflow
pub mod Safety
pub mod Completion
pub mod Evidence
pub mod Tests
