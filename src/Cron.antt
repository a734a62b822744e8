-- ===== src/Cron.antt =====
-- modules/cron/cron.service.ts: the scheduled jobs, each behind a lock in Redis. The jobs catch what
-- they throw, so that the lock is always released. The ping that keeps the connections alive, the
-- trending score and the counters of industries and features are left out.
pub mod Lock
pub mod Expiry
pub mod Batches
pub mod Recount
mod Tests
