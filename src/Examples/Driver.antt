-- ===== src/Examples/Driver.antt =====
-- Runs of the driver on the device.
use virtual_silicon_validati.Base.{◌≡◌, refl, true, [], ◌∷◌, none, some, arith, ◌↔◌, ◌-◌, ◌^◌}
use virtual_silicon_validati.Base.Int.{pos}
use virtual_silicon_validati.Device.Mmio.{mmio_read, read_register, decode}
use virtual_silicon_validati.Driver.Uapi.{get_info, reset, other}
use virtual_silicon_validati.Driver.State.{minus}
use virtual_silicon_validati.Driver.Ioctl.{
  returned, blocked, refusal, clear_irqs, ioctl_set_fault, ioctl_run_dot, ioctl_get_info, ioctl,
}
use virtual_silicon_validati.Driver.Requests.{
  IsRequest, refusal-none_iff, ioctl_set_fault_lem, ioctl_run_dot_lem,
}
use virtual_silicon_validati.Driver.Traces.{World, irq, moves, later, run_dot_deadlocks}
use virtual_silicon_validati.System.Machine.{Machine, device_bus}
use virtual_silicon_validati.Examples.Data.{
  device_b, machine, eight, sixteen, driver_b, good_copies, simulated, finished,
}

refusal-none_iff_example : (refusal driver_b sixteen ≡ none) ↔ IsRequest 2 sixteen
refusal-none_iff_example = refusal-none_iff driver_b sixteen

ioctl_set_fault_lem_example :
    ioctl_set_fault device_bus good_copies
      (record { abi_version = 1; fault_mask = 6 })
      driver_b
      (machine device_b)
    ≡ returned (minus 22) none driver_b (machine device_b)
ioctl_set_fault_lem_example =
    ioctl_set_fault_lem device_bus good_copies (record { abi_version = 1; fault_mask = 6 }) driver_b
      (machine device_b) refl refl (omega arith)

ioctl_run_dot_lem_example :
    ioctl_run_dot device_bus simulated good_copies eight driver_b (machine device_b)
    ≡ returned
        (minus 22)
        none
        (record driver_b { mutex = true; irq_raised = 0 })
        (clear_irqs device_bus (machine device_b))
unfolding refusal
ioctl_run_dot_lem_example =
    ioctl_run_dot_lem device_bus simulated good_copies eight driver_b (machine device_b)

abbrev world : World Machine
world = record { drv = driver_b; hw = machine device_b }

abbrev stuck : World Machine
stuck = later device_bus simulated world good_copies eight (moves (machine finished) ∷ irq ∷ [])

run_dot_deadlocks_example :
    ioctl device_bus simulated good_copies reset stuck.drv stuck.hw ≡ blocked stuck.drv stuck.hw
run_dot_deadlocks_example =
    run_dot_deadlocks device_bus simulated good_copies eight world
      (moves (machine finished) ∷ irq ∷ []) good_copies reset refl (ground arith) refl

-- The three commands that only copy.
get_info_run :
    ioctl device_bus simulated good_copies
      (get_info (record { abi_version = 0; device_id = 0 }))
      driver_b
      (machine device_b)
    ≡ returned
        (pos 0)
        (some (get_info (record { abi_version = 1; device_id = 0x564E_5055 })))
        driver_b
        (machine device_b)
unfolding ioctl ioctl_get_info mmio_read read_register decode
get_info_run = refl

other_run :
    ioctl device_bus simulated good_copies other driver_b (machine device_b)
    ≡ returned (pos (2 ^ 32 - 25)) none driver_b (machine device_b)
unfolding ioctl
other_run = refl
