-- ===== src/System/History.antt =====
-- Every history of the driver on a device that it has probed: calls, interrupts and timers.
use virtual_silicon_validati.Base.{
  ℕ, ◌+◌, ◌≤◌, ◌≡◌, sym, subst, ◌∙◌, true, false, Option, none, some, bit_and, arith,
}
use virtual_silicon_validati.Base.Int.{ℤ, pos}
use virtual_silicon_validati.Base.Word.{not64}
use virtual_silicon_validati.Base.Digits.{zero-bit_and}
use virtual_silicon_validati.Device.State.{update_irq}
use virtual_silicon_validati.Device.Mmio.{
  mmio_read, mmio_write, decode, read_register, write_register,
}
use virtual_silicon_validati.Device.Timer.{expire}
use virtual_silicon_validati.Device.Lifecycle.{realize, register_init, clear_registers}
use virtual_silicon_validati.Device.Invariant.{IsValid, realize-IsValid}
use virtual_silicon_validati.Driver.Uapi.{
  VnpuDotRequest, Command, get_info, run_dot, reset, set_fault, get_stat, other,
}
use virtual_silicon_validati.Driver.State.{VnpuDevice, Kernel}
use virtual_silicon_validati.Driver.Hardware.{irq_handler}
use virtual_silicon_validati.Driver.Probe.{Resources, fresh, probe}
use virtual_silicon_validati.Driver.Ioctl.{
  Copies, clear_irqs, ioctl_get_info, ioctl_reset, ioctl_set_fault, ioctl_get_stat, ioctl_run_dot,
  ioctl,
}
use virtual_silicon_validati.Driver.Requests.{ioctl_run_dot_lem}
use virtual_silicon_validati.Driver.Traces.{World, after}
use virtual_silicon_validati.System.Machine.{Machine, device_bus, write-IsValid}
use virtual_silicon_validati.System.Reset.{
  IsGranted, quiet, hw_reset_lem, irq_handler_lem, probe_lem,
}

-- What can happen to the driver and its device.
pub data Move (k : Kernel Machine) : World Machine → World Machine → Type 0 where
  calls :
      (c : Copies) (cmd : Command) (w : World Machine)
      → Move k w (after (ioctl device_bus k c cmd w.drv w.hw))
  interrupts :
      (w : World Machine)
      → Move k w (let (r, d, hw) = irq_handler device_bus w.drv w.hw in record { drv = d; hw = hw })
  fires :
      (deadline : ℕ) (w : World Machine)
      → w.hw.dev.dot_timer ≡ some deadline
      → deadline ≤ w.hw.clock
      → Move k w (record w { hw = record w.hw { dev = expire w.hw.dev } })
  ticks :
      (ms : ℕ) (w : World Machine)
      → Move k w (record w { hw = record w.hw { clock = w.hw.clock + ms } })

-- What comes of the probe of a device that has just been realized.
pub data Reach (k : Kernel Machine) : World Machine → Type 0 where
  probed :
      (r : Resources) (clock : ℕ) (d : VnpuDevice) (m : Machine)
      → IsGranted r
      → probe device_bus r (record { dev = realize; clock = clock }) ≡ (pos 0, some d, m)
      → Reach k (record { drv = d; hw = m })
  next : {w v : World Machine} → Reach k w → Move k w v → Reach k v

-- The device idles with no operation, no interrupt and no error, and the driver has counted none.
pub record IsAsleep (w : World Machine) : Type 0 where
  pub idle : w.hw.dev.status ≡ 0
  pub no_timer : w.hw.dev.dot_timer ≡ none
  pub no_irq : w.hw.dev.irq_status ≡ 0
  pub line_low : w.hw.dev.irq_line ≡ false
  pub no_result : w.hw.dev.result ≡ pos 0
  pub revision : w.drv.device_revision ≡ 2
  pub submitted : w.drv.submitted_num ≡ 0
  pub completed : w.drv.completed_num ≡ 0
  pub timed_out : w.drv.timed_out_num ≡ 0
  pub device_errors : w.drv.device_error_num ≡ 0
  pub not_raised : w.drv.irq_raised ≡ 0
  pub valid : IsValid w.hw.dev

-- An idle device whose interrupts are cleared and enabled.
clear_irqs_lem :
    (m : Machine)
    → m.dev.irq_status ≡ 0
    → clear_irqs device_bus m
      ≡ record m { dev = record m.dev { irq_status = 0; irq_enable = 3; irq_line = false } }
unfolding clear_irqs mmio_write decode write_register update_irq
clear_irqs_lem m e =
    ground (arith, e, zero-bit_and 3, zero-bit_and m.dev.irq_enable, zero-bit_and (not64 3))

quiet-IsValid : (m : Machine) → IsValid m.dev → IsValid (quiet m).dev
quiet-IsValid m v = ground arith

abbrev realized : ℕ → Machine
realized clock = record { dev = realize; clock = clock }

start-IsAsleep :
    (clock : ℕ)
    → IsAsleep (record {
      drv = record fresh { device_revision = realize.ops.revision };
      hw = quiet (realized clock);
    })
unfolding realize register_init clear_registers
start-IsAsleep clock = ground arith

-- A probe that succeeds leaves the driver and the device so.
abbrev Starts : ℤ × Option VnpuDevice × Machine → Type 0
Starts (r, some d, m) = IsAsleep (record { drv = d; hw = m })
Starts (r, none, m) = Unit

module _ (k : Kernel Machine) where
  run_dot-IsAsleep :
      (c : Copies) (dot : VnpuDotRequest) (w : World Machine)
      → IsAsleep w
      → IsAsleep (after (ioctl_run_dot device_bus k c dot w.drv w.hw))
  run_dot-IsAsleep c dot w a =
      ground (arith, ioctl_run_dot_lem device_bus k c dot w.drv w.hw, clear_irqs_lem w.hw a.no_irq)

  call-IsAsleep :
      (c : Copies) (cmd : Command) (w : World Machine)
      → IsAsleep w
      → IsAsleep (after (ioctl device_bus k c cmd w.drv w.hw))
  unfolding ioctl ioctl_get_info ioctl_reset ioctl_set_fault ioctl_get_stat mmio_read mmio_write
      decode read_register write_register
  call-IsAsleep c (get_info i) w a = ground arith
  call-IsAsleep c (run_dot dot) w a = run_dot-IsAsleep c dot w a
  call-IsAsleep c reset w a =
      ground (arith, hw_reset_lem (record w.drv { mutex = true }) w.hw, quiet-IsValid w.hw a.valid)
  call-IsAsleep c (set_fault f) w a =
      let mask = bit_and f.fault_mask 0xF in
      let v = write-IsValid w.hw 0x180 mask a.valid in ground (arith, v)
  call-IsAsleep c (get_stat s) w a = ground arith
  call-IsAsleep c other w a = a

  irq-IsAsleep :
      (w : World Machine)
      → IsAsleep w
      → IsAsleep (let (r, d, hw) = irq_handler device_bus w.drv w.hw in record { drv = d; hw = hw })
  irq-IsAsleep w a = ground (arith, irq_handler_lem w.drv w.hw a.valid)

  -- However the driver is called and however its device's time goes by, from the probe of a device of
  -- revision B that has just been realized, the device idles: no operation is ever in flight, no
  -- interrupt is ever pending, its result is 0, and the driver counts no operation and no device
  -- error. The device is well-formed throughout.
  pub Reach-IsAsleep : {w : World Machine} → Reach k w → IsAsleep w
  Reach-IsAsleep (probed r clock d m g e) =
      subst Starts (sym (probe_lem r (realized clock) g realize-IsValid) ∙ e) (start-IsAsleep clock)
  Reach-IsAsleep (next r (calls c cmd w)) = call-IsAsleep c cmd w (Reach-IsAsleep r)
  Reach-IsAsleep (next r (interrupts w)) = irq-IsAsleep w (Reach-IsAsleep r)
  Reach-IsAsleep (next r (fires deadline w armed due)) =
      absurd (ground (arith, (Reach-IsAsleep r).no_timer))
  Reach-IsAsleep (next r (ticks ms w)) =
      let a = Reach-IsAsleep r in
      record {
        idle = a.idle;
        no_timer = a.no_timer;
        no_irq = a.no_irq;
        line_low = a.line_low;
        no_result = a.no_result;
        revision = a.revision;
        submitted = a.submitted;
        completed = a.completed;
        timed_out = a.timed_out;
        device_errors = a.device_errors;
        not_raised = a.not_raised;
        valid = a.valid;
      }
