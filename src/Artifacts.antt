-- ===== src/Artifacts.antt =====
-- libs/mirage_common/artifacts.py: the limits of an upload and of an archive, the scan of an artifact
-- and the conditions of its deployment.
pub mod Archive
pub mod Scan
pub mod Tests
