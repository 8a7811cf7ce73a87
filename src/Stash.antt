-- ===== src/Stash.antt =====
-- packages/syft/src/syft/store/db/stash.py: the stash of objects with their permissions, over one
-- table of the database.
pub mod Env
pub mod Access
pub mod Write
pub mod Grants
pub mod Rows
pub mod Reading
pub mod Writing
pub mod Raising
pub mod Deleting
pub mod Updating
pub mod Granting
pub mod Storage
mod Storing
mod Upserting
pub mod Examples
