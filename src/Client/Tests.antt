-- ===== src/Client/Tests.antt =====
-- Concrete inputs of the client, and the theorems at them.
mod EventStreamTest
mod Slices
mod PagingTest
mod ContactListTest
mod SessionTest
mod MessageListTest
mod ImportTest
mod SendingTest
