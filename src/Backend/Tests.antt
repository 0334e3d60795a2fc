-- ===== src/Backend/Tests.antt =====
-- Concrete inputs of the backend, and the theorems at them.
mod UpdatesTest
mod LabelsTest
mod MessageTest
mod EventsTest
pub mod Fixture
mod RunsTest
mod SessionsTest
mod AttachmentsTest
mod DeliveryTest
mod AddressesTest
