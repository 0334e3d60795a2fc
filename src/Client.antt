-- ===== src/Client.antt =====
-- The client library: the part of the root package that calls the API.
pub mod EventStream
pub mod MessageList
pub mod Paging
pub mod ContactList
pub mod Session
pub mod Import
pub mod Sending
mod Tests
