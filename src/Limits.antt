-- ===== src/Limits.antt =====
-- api/ratelimit.py and api/streaming.py: what keeps one caller from starving the others.
pub mod Bucket
pub mod Slots
