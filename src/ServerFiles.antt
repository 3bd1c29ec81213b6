-- ===== src/ServerFiles.antt =====
-- Server Files (paxalia/server_files/policy.py, exceptions.py and service.py): what a browser may
-- name, what the deployment denies, which roots are served, and what a preview shows.
pub mod Error
pub mod Name
pub mod Path
pub mod Glob
pub mod Access
pub mod Roots
pub mod Preview
mod Tests
