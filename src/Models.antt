-- ===== src/Models.antt =====
-- The rows of the database, one module for each models.py, and the constraints that they declare.
pub mod Rows
pub mod Catalog
pub mod Customer
pub mod Inventory
pub mod Order
pub mod Payment
pub mod Invoice
pub mod Notification
pub mod Business
pub mod Draft
