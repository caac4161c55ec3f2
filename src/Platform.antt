-- ===== src/Platform.antt =====
-- backend/app/platform: the idempotency registry.
mod Idempotency
