-- ===== src/Backend.antt =====
-- The test server's backend, server/backend: the accounts, mailboxes and event streams that the
-- mock API serves.
pub mod Types
pub mod Updates
pub mod Exec
pub mod Store
pub mod Labels
pub mod Message
pub mod Metadata
pub mod Events
pub mod Mailbox
pub mod Attachments
pub mod Delivery
pub mod Search
pub mod Settings
pub mod Addresses
pub mod Users
pub mod Sessions
pub mod Contacts
pub mod Reads
pub mod Operations
pub mod Tests
