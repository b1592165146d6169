-- ===== src/Webhook.antt =====
-- internal/webhook: events, the retry schedule, signatures, and the outbox that deliveries go through.
pub mod Events
pub mod Backoff
pub mod Outbox
pub mod Signature
pub mod Tests
