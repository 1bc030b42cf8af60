-- ===== src/System.antt =====
-- The driver on the device: vnpu_drv.c with its register accesses served by vnpu.c.
pub mod Machine
pub mod Reset
pub mod MockDevice
pub mod Userspace
pub mod Calls
pub mod Agreement
pub mod History
pub mod Cli
