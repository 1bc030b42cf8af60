-- ===== src/System/Calls.antt =====
-- The answers of the HAL to its calls on the driver and the device.
use virtual_silicon_validati.Base.{
  ℕ, List, Option, ◌+◌, ◌^◌, ◌<◌, ◌≡◌, refl, true, false, none, some, if◌then◌else◌, arith,
}
use virtual_silicon_validati.Driver.State.{VnpuDevice, Kernel}
use virtual_silicon_validati.Base.Word.{u64}
use virtual_silicon_validati.Device.Mmio.{
  mmio_read, read_register, mmio_write, decode, write_register, lowest_fault,
}
use virtual_silicon_validati.Driver.Ioctl.{ioctl, ioctl_reset, ioctl_get_info, ioctl_get_stat}
use virtual_silicon_validati.Driver.Requests.{one_hot, ioctl_set_fault_lem}
use virtual_silicon_validati.Device.Faults.{lowest_fault_lem}
use virtual_silicon_validati.System.Reset.{quiet, hw_reset_lem}
use virtual_silicon_validati.Hal.Types.{FaultType, fault_bits, ok, DeviceStats}
use virtual_silicon_validati.Hal.Linux.{vnpu_reset, vnpu_set_fault, vnpu_get_info, vnpu_get_stats}
use virtual_silicon_validati.System.Machine.{Machine, device_bus}
use virtual_silicon_validati.System.Userspace.{Stack, mapped, syscalls}

-- What the HAL reports of the driver's counters.
abbrev pub stats_of : VnpuDevice → DeviceStats
stats_of d = record {
  submitted = d.submitted_num;
  completed = d.completed_num;
  timed_out = d.timed_out_num;
  device_error = d.device_error_num;
  resets = d.reset_num;
}

fault_bits-small : (f : FaultType) → fault_bits f < 2 ^ 32
fault_bits-small f = ground arith

fault_bits-one_hot : (f : FaultType) → one_hot (fault_bits f) ≡ true
fault_bits-one_hot f = ground arith

lowest_fault-fault_bits : (f : FaultType) → lowest_fault (fault_bits f) ≡ fault_bits f
lowest_fault-fault_bits f = ground (arith, lowest_fault_lem (fault_bits f))

module _ (k : Kernel Machine) (node : List ℕ → Option ℕ) where
  -- The answer of the HAL to `reset`, through the driver on the device.
  pub reset_lem :
      (s : Stack)
      → vnpu_reset (syscalls k node) s ≡ (
          if s.drv.mutex
          then none
          else some (
            ok tt,
            record s {
              drv = record s.drv {
                irq_raised = 0;
                last_irq = 0;
                reset_num = u64 (s.drv.reset_num + 1);
              };
              hw = quiet s.hw;
            },
          ))
  unfolding vnpu_reset ioctl ioctl_reset
  reset_lem s = ground (arith, hw_reset_lem (record s.drv { mutex = true }) s.hw)

  pub set_fault_lem :
      (f : FaultType) (s : Stack)
      → s.drv.mutex ≡ false
      → vnpu_set_fault (syscalls k node) f s
        ≡ some (
          ok tt,
          record s { hw = record s.hw { dev = record s.hw.dev { fault_control = fault_bits f } } },
        )
  unfolding vnpu_set_fault ioctl mmio_write decode write_register
  set_fault_lem f s h =
      let taken =
        ioctl_set_fault_lem device_bus mapped
          (record { abi_version = 1; fault_mask = fault_bits f }) s.drv s.hw refl h
          (fault_bits-small f) in
      ground (arith, taken, fault_bits-one_hot f, lowest_fault-fault_bits f)

  pub get_info_lem :
      (s : Stack)
      → vnpu_get_info (syscalls k node) s
        ≡ some (
          ok (record { abi_version = 1; device_id = 0x564E5055; revision = 0; capabilities = 0 }),
          s,
        )
  unfolding vnpu_get_info ioctl ioctl_get_info mmio_read decode read_register
  get_info_lem s = refl

  pub get_stats_lem :
      (s : Stack) → vnpu_get_stats (syscalls k node) s ≡ some (ok (stats_of s.drv), s)
  unfolding vnpu_get_stats ioctl ioctl_get_stat
  get_stats_lem s = refl
