-- ===== src/Driver.antt =====
-- The Linux driver, linux-driver/src/vnpu_drv.c, over linux-driver/include/vnpu_uapi.h.
pub mod Uapi
pub mod State
pub mod Hardware
pub mod Ioctl
pub mod Probe
pub mod Requests
pub mod Traces
