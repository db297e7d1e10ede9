-- ===== src/Tests.antt =====
-- Concrete runs of the services, and the theorems at inputs that meet their hypotheses.
pub mod Sample
pub mod Runs
pub mod Orders
pub mod Payments
pub mod Records
pub mod Invoices
pub mod Assistant
pub mod Alerts
pub mod Accounts
pub mod Talks
