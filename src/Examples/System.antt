-- ===== src/Examples/System.antt =====
-- Runs of the driver, the device and the HAL together.
use virtual_silicon_validati.Base.{◌+◌, ◌≡◌, refl, true, false, some, arith}
use virtual_silicon_validati.Base.Int.{pos}
use virtual_silicon_validati.Driver.Uapi.{run_dot}
use virtual_silicon_validati.Driver.Hardware.{irq_handler, hw_reset, irq_handled}
use virtual_silicon_validati.Driver.Probe.{Resources, fresh, probe}
use virtual_silicon_validati.Driver.Ioctl.{clear_irqs, ioctl}
use virtual_silicon_validati.Hal.Pack.{pack_int8_input}
use virtual_silicon_validati.Hal.Types.{ok, stuck_busy}
use virtual_silicon_validati.Hal.Linux.{vnpu_run_dot}
use virtual_silicon_validati.Hal.Mock
use virtual_silicon_validati.System.Machine.{Machine, device_bus}
use virtual_silicon_validati.System.Reset.{
  IsGranted, quiet, hw_reset_lem, irq_handler_lem, probe_lem,
}
use virtual_silicon_validati.Device.Lifecycle.{realize}
use virtual_silicon_validati.Device.Invariant.{realize-IsValid}
use virtual_silicon_validati.Driver.Traces.{World, after}
use virtual_silicon_validati.System.History.{
  Reach, probed, next, calls, ticks, IsAsleep, Reach-IsAsleep,
}
use virtual_silicon_validati.System.MockDevice.{told, mock-agrees}
use virtual_silicon_validati.Device.Timer.{expire}
use virtual_silicon_validati.Device.Protocol.{operate}
use virtual_silicon_validati.System.Userspace.{Stack, mapped, syscalls, vnpu_run_dot-zero}
use virtual_silicon_validati.Examples.Data.{
  device_b, device_b-IsValid, with_fault, broken, broken-IsValid, machine, sixteen, driver_b, ones,
  extremes, simulated, nodes,
}

hw_reset_lem_example :
    hw_reset device_bus driver_b (machine broken) ≡ (pos 0, driver_b, quiet (machine broken))
hw_reset_lem_example = hw_reset_lem driver_b (machine broken)

abbrev granted : Resources
granted = record {
  enable = pos 0;
  allocated = true;
  regions = pos 0;
  mapped = true;
  irq = pos 0;
  misc = pos 0;
}

granted-IsGranted : IsGranted granted
granted-IsGranted = record {
  enable = refl;
  allocated = refl;
  regions = refl;
  mapped = refl;
  irq = refl;
  misc = refl;
}

probe_lem_example :
    probe device_bus granted (machine device_b)
    ≡ (pos 0, some (record fresh { device_revision = 2 }), quiet (machine device_b))
probe_lem_example = probe_lem granted (machine device_b) granted-IsGranted device_b-IsValid

irq_handler_lem_example : irq_handler device_bus driver_b (machine broken) ≡ (
  irq_handled,
  record driver_b {
    device_error = 3;
    device_status = 3;
    device_error_num = 1;
    error_flag = true;
    irq_raised = 1;
  },
  machine (record broken { irq_status = 0; irq_line = false }),
)
irq_handler_lem_example = irq_handler_lem driver_b (machine broken) broken-IsValid

abbrev stack : Stack
stack = record { drv = driver_b; hw = machine device_b; errno = 0 }

vnpu_run_dot-zero_example :
    vnpu_run_dot (syscalls simulated nodes) ones extremes (pos 500) stack
    ≡ some (
      ok (record { result = pos 0; device_error = pos 0; status = 0 }),
      record {
        drv = record driver_b { mutex = true };
        hw = clear_irqs device_bus (machine device_b);
        errno = 22;
      },
    )
vnpu_run_dot-zero_example =
    vnpu_run_dot-zero simulated nodes ones extremes (pos 500) stack (ground arith) (ground arith)
      (ground arith) refl

-- A mock and a device whose operations time out.
mock-agrees_example :
    (Mock.run_dot ones extremes (pos 500) (Mock.set_fault stuck_busy Mock.fresh)).0
    ≡ told (expire (operate 7 2 (pack_int8_input ones) (pack_int8_input extremes) (with_fault 2)))
unfolding Mock.set_fault
mock-agrees_example =
    mock-agrees 7 ones extremes (pos 500) (with_fault 2) (Mock.set_fault stuck_busy Mock.fresh)
      stuck_busy (ground arith) (ground arith) (ground arith) (ground arith) refl refl refl

-- A probe, a dot product, and a millisecond.
abbrev started : World Machine
started = record {
  drv = record fresh { device_revision = realize.ops.revision };
  hw = quiet (record { dev = realize; clock = 0 });
}

abbrev called : World Machine
called = after (ioctl device_bus simulated mapped (run_dot sixteen) started.drv started.hw)

called-Reach : Reach simulated called
called-Reach =
    next
      (probed granted 0 started.drv started.hw granted-IsGranted
        (probe_lem granted (record { dev = realize; clock = 0 }) granted-IsGranted realize-IsValid))
      (calls mapped (run_dot sixteen) started)

Reach-IsAsleep_example :
    IsAsleep (record called { hw = record called.hw { clock = called.hw.clock + 1 } })
Reach-IsAsleep_example = Reach-IsAsleep simulated (next called-Reach (ticks 1 called))
