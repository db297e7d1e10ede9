-- ===== src/Common.antt =====
-- app/common: domain errors, domain events, decimals and money.
pub mod Error
pub mod Event
pub mod Result
pub mod Decimal
pub mod Patch
pub mod Bus
pub mod Dict
pub mod Storage
pub mod Money
pub mod Text
pub mod Words
