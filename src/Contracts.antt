-- ===== src/Contracts.antt =====
-- The shared contracts: contracts/python/mirage_contracts and libs/mirage_common/subjects.py.
pub mod Text
pub mod Json
pub mod Ulid
pub mod Versions
pub mod Envelope
pub mod Subjects
pub mod Tests
