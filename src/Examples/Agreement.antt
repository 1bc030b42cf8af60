-- ===== src/Examples/Agreement.antt =====
-- The mock and the stack, side by side.
use virtual_silicon_validati.Base.{◌≡◌, refl, List, [], ◌∷◌, some, arith}
use virtual_silicon_validati.Base.Int.{pos}
use virtual_silicon_validati.Hal.Types.{stuck_busy}
use virtual_silicon_validati.Hal.Mock.{MockVnpuDevice, fresh}
use virtual_silicon_validati.Hal.Interface.{
  linux_device, mock_device, Call, gets_info, runs_dot, resets, sets_fault, gets_stats, Answer,
  invoke_all,
}
use virtual_silicon_validati.System.Userspace.{Stack, syscalls}
use virtual_silicon_validati.System.Agreement.{Corresponds, linux-mock_agree}
use virtual_silicon_validati.Examples.Data.{device_b, machine, driver_b, ones, simulated, nodes}

abbrev stack : Stack
stack = record { drv = driver_b; hw = machine device_b; errno = 0 }

-- A fault, a dot product with one element on one side, a reset, and the counters.
abbrev calls : List Call
calls =
    gets_info
    ∷ sets_fault stuck_busy
    ∷ runs_dot ones (pos 1 ∷ []) (pos 5)
    ∷ resets
    ∷ gets_stats
    ∷ []

linux-mock_agree_example :
    (answers : List Answer) × (s' : Stack) × (m' : MockVnpuDevice) × (invoke_all
        (linux_device (syscalls simulated nodes))
        calls
        stack
      ≡ some (answers, s'))
    × (invoke_all mock_device calls fresh ≡ some (answers, m'))
    × Corresponds s' m'
linux-mock_agree_example =
    linux-mock_agree simulated nodes calls stack fresh
      (record { free = refl; fault = refl; counters = refl })
      (tt, (tt, (λ h. ground (arith, h.b_length), (tt, (tt, tt)))))
