-- ===== src/System/Reset.antt =====
-- `vnpu_hw_reset`, `vnpu_probe` and `vnpu_irq_handler` on the device.
use virtual_silicon_validati.Base.{
  ◌+◌, ◌/◌, ◌≡◌, refl, true, false, none, some, ◌==◌, if◌then◌else◌, arith,
}
use virtual_silicon_validati.Base.Int.{pos}
use virtual_silicon_validati.Base.Bits.{bit_and-two, bit_and-three, bit_and_two_digits}
use virtual_silicon_validati.Base.Digits.{zero-bit_and}
use virtual_silicon_validati.Base.Word.{u32, u64, not64}
use virtual_silicon_validati.Device.State.{VnpuState, update_irq, status_idle}
use virtual_silicon_validati.Device.Mmio.{
  mmio_read, mmio_write, decode, read_register, write_register, do_reset,
}
use virtual_silicon_validati.Device.Invariant.{IsValid}
use virtual_silicon_validati.Driver.State.{VnpuDevice}
use virtual_silicon_validati.Driver.Hardware.{hw_reset, irq_handler, irq_none, irq_handled}
use virtual_silicon_validati.Driver.Probe.{Resources, failed, fresh, probe, probe_device}
use virtual_silicon_validati.Driver.Ioctl.{returned, ioctl_reset}
use virtual_silicon_validati.System.Machine.{Machine, device_bus}

-- The device after a reset by the driver.
abbrev pub quiet : Machine → Machine
quiet m = record m {
  dev = record m.dev {
    dot_timer = none;
    status = status_idle;
    irq_status = 0;
    irq_enable = 0;
    err_code = 0;
    fault_control = 0;
    irq_line = false;
  };
}

-- `vnpu_hw_reset` succeeds on the device in whatever state it is, and leaves it idle, silent, with
-- interrupts disabled, no error, no fault and no operation in flight; all other registers stay.
pub hw_reset_lem :
    (d : VnpuDevice) (m : Machine)
    → hw_reset device_bus d m ≡ (pos 0, record d { irq_raised = 0; last_irq = 0 }, quiet m)
unfolding hw_reset mmio_read mmio_write decode read_register write_register do_reset update_irq
hw_reset_lem d m = refl

-- With the mutex free the RESET ioctl resets the device, returns 0 and counts the reset, and leaves
-- the mutex free.
pub ioctl_reset_lem :
    (d : VnpuDevice) (m : Machine)
    → d.mutex ≡ false
    → ioctl_reset device_bus d m
      ≡ returned
          (pos 0)
          none
          (record d { irq_raised = 0; last_irq = 0; reset_num = u64 (d.reset_num + 1) })
          (quiet m)
unfolding ioctl_reset
ioctl_reset_lem d m h = ground (arith, hw_reset_lem (record d { mutex = true }) m)

-- The kernel grants every resource that `vnpu_probe` asks for.
pub record IsGranted (r : Resources) : Type 0 where
  pub enable : failed r.enable ≡ false
  pub allocated : r.allocated ≡ true
  pub regions : failed r.regions ≡ false
  pub mapped : r.mapped ≡ true
  pub irq : failed r.irq ≡ false
  pub misc : failed r.misc ≡ false

-- With its resources granted the probe of a well-formed device of either revision succeeds, whatever
-- capabilities the device reports, since it does not read them: the driver starts
-- with the revision that the device reports, the mutex free and every counter 0, and the device
-- with its interrupts disabled.
pub probe_lem :
    (r : Resources) (m : Machine)
    → IsGranted r
    → IsValid m.dev
    → probe device_bus r m
      ≡ (pos 0, some (record fresh { device_revision = m.dev.ops.revision }), quiet m)
unfolding probe probe_device mmio_read decode read_register
probe_lem r m g v = ground (arith, hw_reset_lem fresh m)

-- What the handler records of an interrupt.
abbrev pub recorded : VnpuState → VnpuDevice → VnpuDevice
recorded s d =
    if s.irq_status / 2 == 1
    then record d {
      device_error = s.err_code;
      device_status = s.status;
      device_error_num = u64 (d.device_error_num + 1);
      error_flag = true;
      irq_raised = d.irq_raised + 1;
    }
    else record d { irq_raised = d.irq_raised + 1 }

-- The interrupt handler on the device: it owns the interrupt exactly if an interrupt bit is set,
-- completes the waiter then, and records the device's status and error code exactly if the error
-- bit is. In every case it leaves no interrupt bit set and the pin low, so the interrupt does not
-- fire again, and no other register changes.
pub irq_handler_lem :
    (d : VnpuDevice) (m : Machine)
    → IsValid m.dev
    → irq_handler device_bus d m ≡ (
      if m.dev.irq_status == 0 then irq_none else irq_handled,
      if m.dev.irq_status == 0 then d else recorded m.dev d,
      record m { dev = record m.dev { irq_status = 0; irq_line = false } },
    )
unfolding irq_handler mmio_read mmio_write decode read_register write_register update_irq
irq_handler_lem d m v = ground (
  arith,
  bit_and-two (u32 m.dev.irq_status),
  bit_and-three (u32 m.dev.irq_status),
  bit_and_two_digits m.dev.irq_status (not64 3),
  zero-bit_and m.dev.irq_enable,
)
