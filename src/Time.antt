-- ===== src/Time.antt =====
-- packages/time-correction: the one-shot service that decides whether a clock may be believed.
pub mod Quorum
pub mod Dns
pub mod Ntp
pub mod Nts
pub mod Deferred
pub mod Options
pub mod Choose
pub mod Network
pub mod Doh
pub mod TimeServer
pub mod Pair
pub mod Run
