-- ===== src/Database/Tests.antt =====
-- An event that is published into an empty outbox.
