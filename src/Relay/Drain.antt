-- ===== src/Relay/Drain.antt =====
-- `drain` of engine/relay.go ends: the attempts that are left in the table measure its passes.
pub mod Effort
pub mod Settling
pub mod Sending
pub mod Spending
pub mod Uses
pub mod Claims
pub mod Conclusion
pub mod Passes
pub mod Empty
