-- ===== src/Contacts/Tests.antt =====
-- Concrete inputs for the cards and settings of contacts.
mod Plain
mod CardsTest
