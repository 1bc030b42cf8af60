-- ===== src/Device.antt =====
-- The QEMU device model, qemu-device/src/vnpu.c.
pub mod State
pub mod Dot
pub mod Mmio
pub mod Timer
pub mod Lifecycle
pub mod Product
pub mod Steps
pub mod Invariant
pub mod Faults
pub mod Registers
pub mod Machine
pub mod Protocol
