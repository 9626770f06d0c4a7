-- ===== src/Tests.antt =====
-- The theorems at work on concrete data.
mod Fixtures
mod Payments
mod Mailboxes
mod Proofs
mod Metrics
mod Gateways
mod Http
mod Config
mod Recovery
mod Expiry
mod Sessions
mod Reports
