-- ===== src/Stores.antt =====
-- The small stores over the durable store, each with the errors of its database handled as the code
-- does: logged, and answered as if nothing were there.
pub mod ModForums
pub mod Webhooks
pub mod Pending
pub mod PendingLaws
pub mod FcmTokens
pub mod WatchTokens
