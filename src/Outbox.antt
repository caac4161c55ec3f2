-- ===== src/Outbox.antt =====
-- infrastructure/outbox/repository.py: the transactional outbox of a tenant.
mod Rows
mod Enqueue
mod Leases
mod Operations
mod Kept
mod Finality
mod Held
mod Settled
mod Settling
mod Fencing
mod Deduplication
mod Tests
