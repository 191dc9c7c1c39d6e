-- ===== src/Stores.antt =====
-- backend/src/stores.rs: the in-memory stores behind CSRF tokens, lockouts and rate limits. Each
-- method holds the store's mutex while it runs, so a method is one step from map to map. Times are
-- epoch milliseconds of `config::now_ms`, which clamps at 0, so they are natural numbers; a
-- difference is compared in the form in which no negative number arises.
pub mod Eviction
pub mod Csrf
pub mod Lockout
pub mod RateLimit
mod Examples
