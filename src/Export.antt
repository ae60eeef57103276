-- ===== src/Export.antt =====
-- libs/mirage_common/trust_anchor.py and libs/mirage_common/evidence_export.py: which key a package
-- is verified with, and the signing and the verification of an export.
pub mod Trust
pub mod Package
pub mod Signing
pub mod Tests
