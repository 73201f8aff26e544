-- ===== src/Quotes.antt =====
-- apps/api/src/modules/quotes: how a quote is calculated, and how a draft is sent.
pub mod Calculation
pub mod Totals
pub mod Replacement
pub mod Sending
pub mod Withdrawal
pub mod OneSent
mod Examples
mod Sends
