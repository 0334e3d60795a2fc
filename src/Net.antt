-- ===== src/Net.antt =====
-- netctl.go: listeners whose connections hang or drop, and the control of dials, reads and writes.
pub mod Listener
pub mod Control
mod Tests
