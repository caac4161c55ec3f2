-- ===== src/Platform/Idempotency.antt =====
-- platform/idempotency.py: `InMemoryIdempotencyRegistry`.
mod Registry
mod Replay
mod Conflict
mod Tests
