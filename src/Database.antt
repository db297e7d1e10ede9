-- ===== src/Database.antt =====
-- One SQLAlchemy session on the PostgreSQL database (app/db.py), as the services use it: a call
-- returns or raises, and leaves the session in a new state either way.
pub mod Tables
pub mod Session
pub mod Ends
pub mod Steps
pub mod Keeps
pub mod Leaves
pub mod Refuses
