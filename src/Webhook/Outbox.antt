-- ===== src/Webhook/Outbox.antt =====
-- internal/webhook/store.go, with the tables of migrations 0010 and 0012: the outbox of deliveries.
--
-- Times and durations are numbers of nanoseconds. The database's clock and the application's are
-- arguments. `P` is the type of the frozen payloads.
pub mod Rows
pub mod Queue
pub mod Settle
pub mod Replay
pub mod Laws
