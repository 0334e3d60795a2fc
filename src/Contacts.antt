-- ===== src/Contacts.antt =====
-- The contact cards of contact_card.go and the settings that contact_types.go keeps in them.
pub mod Card
pub mod Group
pub mod Settings
mod Tests
