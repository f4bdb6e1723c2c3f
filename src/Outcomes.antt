-- ===== src/Outcomes.antt =====
-- node/src/upstream-outcomes.js: what an upstream's answer means for the request and the account.
pub mod Cooldown
pub mod Status
pub mod Transport
pub mod Blame
pub mod Verdicts
mod Tests
