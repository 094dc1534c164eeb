-- ===== src/Delivery.antt =====
-- internal/delivery: the signed HTTP delivery of one webhook and its retry schedule.
pub mod Sign
pub mod Retry
pub mod Deliver
