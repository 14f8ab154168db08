-- ===== src/Revocation.antt =====
-- The revocation index (backend/app/core/revocation.py). Redis is a service: it enters as a record
-- of the commands that the code sends, with the documented behaviour of each.
pub mod Redis
pub mod Index
pub mod Laws
pub mod Persist
pub mod Sample
