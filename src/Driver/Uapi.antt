-- ===== src/Driver/Uapi.antt =====
-- vnpu_uapi.h: the structures of the ioctl interface, its commands and the driver status codes.
use virtual_silicon_validati.Base.{ℕ, List}
use virtual_silicon_validati.Base.Int.{ℤ}

abbrev pub driver_status_ok : ℕ
driver_status_ok = 0

abbrev pub driver_status_timeout : ℕ
driver_status_timeout = 1

abbrev pub driver_status_device_error : ℕ
driver_status_device_error = 2

abbrev pub driver_status_inv_rev : ℕ
driver_status_inv_rev = 3

abbrev pub driver_status_inv_len : ℕ
driver_status_inv_len = 4

abbrev pub driver_status_inv_time : ℕ
driver_status_inv_time = 5

pub record VnpuInfo : Type 0 where
  pub abi_version : ℕ
  pub device_id : ℕ

pub record VnpuDotRequest : Type 0 where
  pub abi_version : ℕ
  pub job_id : ℕ
  pub vector_length : ℕ
  pub timeout_ms : ℕ
  pub input_a : List ℕ
  pub input_b : List ℕ
  pub result : ℤ
  pub driver_status : ℕ
  pub device_error : ℕ

pub record VnpuFaultRequest : Type 0 where
  pub abi_version : ℕ
  pub fault_mask : ℕ

pub record VnpuStatus : Type 0 where
  pub abi_version : ℕ
  pub submitted : ℕ
  pub completed : ℕ
  pub timed_out : ℕ
  pub device_error : ℕ
  pub resets : ℕ

-- A command with the structure that its argument points to. `other` is any other number.
pub data Command : Type 0 where
  get_info : VnpuInfo → Command
  run_dot : VnpuDotRequest → Command
  reset : Command
  set_fault : VnpuFaultRequest → Command
  get_stat : VnpuStatus → Command
  other : Command
