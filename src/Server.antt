-- ===== src/Server.antt =====
-- backend/internal, the upload service that the console talks to.
pub mod Model
pub mod Action
pub mod Storage
pub mod World
pub mod Tables
pub mod Keys
pub mod FileName
pub mod Rows
pub mod Uploads
pub mod Merge
pub mod Media
pub mod Compensate
pub mod Files
pub mod Routes
pub mod Parts
pub mod Deletion
pub mod Repair
pub mod Ledger
pub mod Delivery
pub mod Locking
pub mod Listing
pub mod Resend
