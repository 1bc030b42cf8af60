-- ===== src/Driver/Traces.antt =====
-- What holds of the driver over every sequence of calls, interrupts and moves of the hardware.
use virtual_silicon_validati.Base.{
  ℕ, ◌+◌, ◌-◌, ◌^◌, ◌≡◌, Bool, true, false, not, ◌&&◌, Option, none, some, List, [], ◌∷◌, arith,
  bit_and,
}
use virtual_silicon_validati.Base.Word.{u32}
use virtual_silicon_validati.Device.State.{truthy}
use virtual_silicon_validati.Driver.Uapi.{VnpuDotRequest, Command, run_dot, reset, set_fault}
use virtual_silicon_validati.Driver.State.{VnpuDevice, Bus, Kernel}
use virtual_silicon_validati.Driver.Hardware.{hw_reset, irq_handler}
use virtual_silicon_validati.Driver.Ioctl.{
  Copies, Outcome, returned, blocked, refusal, ioctl_get_info, ioctl_reset, ioctl_set_fault,
  ioctl_get_stat, ioctl,
}
use virtual_silicon_validati.Driver.Requests.{IsRequest, refusal-none_iff, ioctl_run_dot_lem}

pub record World (Hw : Type 0) : Type 0 where
  pub drv : VnpuDevice
  pub hw : Hw

-- A blocked caller has not touched anything.
abbrev pub after : {Hw : Type 0} → Outcome Hw → World Hw
after (returned ret user d hw) = record { drv = d; hw = hw }
after (blocked d hw) = record { drv = d; hw = hw }

-- A process calls the driver, the interrupt line is served, or the hardware moves by itself.
pub data Event (Hw : Type 0) : Type 0 where
  call : Copies → Command → Event Hw
  irq : Event Hw
  moves : Hw → Event Hw

-- The three counters that RUN_DOT keeps.
pub record IsUnused (d : VnpuDevice) : Type 0 where
  pub submitted : d.submitted_num ≡ 0
  pub completed : d.completed_num ≡ 0
  pub timed_out : d.timed_out_num ≡ 0

abbrev passes : Option ℕ → Bool
passes none = true
passes (some status) = false

-- The calls that reach `mutex_lock`.
abbrev pub needs_mutex : VnpuDevice → Copies → Command → Bool
needs_mutex d c reset = true
needs_mutex d c (run_dot dot) = c.from_ok && passes (refusal d dot)
needs_mutex d c (set_fault fault) =
    c.from_ok
    && (not (truthy (bit_and fault.fault_mask (u32 (fault.fault_mask + 2 ^ 32 - 1))))
        && not (truthy (bit_and fault.fault_mask 0xFFFF_FFF0)))
needs_mutex d c _ = false

module _ (bus : Bus) (kernel : Kernel bus.Hw) where
  abbrev pub step : World bus.Hw → Event bus.Hw → World bus.Hw
  step w (call c cmd) = after (ioctl bus kernel c cmd w.drv w.hw)
  step w irq = let (r, d, hw) = irq_handler bus w.drv w.hw in record { drv = d; hw = hw }
  step w (moves hw) = record w { hw = hw }

  pub run : World bus.Hw → List (Event bus.Hw) → World bus.Hw
  run w [] = w
  run w (e ∷ es) = run (step w e) es

  call-IsUnused :
      (c : Copies) (cmd : Command) (d : VnpuDevice) (hw : bus.Hw)
      → IsUnused d
      → IsUnused (after (ioctl bus kernel c cmd d hw)).drv
  unfolding ioctl ioctl_get_info ioctl_reset ioctl_set_fault ioctl_get_stat hw_reset
  call-IsUnused c (run_dot dot) d hw u = ground (arith, ioctl_run_dot_lem bus kernel c dot d hw)
  call-IsUnused c _ d hw u = ground arith

  irq-IsUnused : (d : VnpuDevice) (hw : bus.Hw) → IsUnused d → IsUnused (irq_handler bus d hw).1
  unfolding irq_handler
  irq-IsUnused d hw u = ground arith

  -- Over every history of calls, interrupts and moves of the hardware, counters of submitted,
  -- completed and timed-out operations that are 0 stay 0: no RUN_DOT ever submits an operation.
  pub run-IsUnused :
      (es : List (Event bus.Hw)) (w : World bus.Hw) → IsUnused w.drv → IsUnused (run w es).drv
  unfolding run
  run-IsUnused [] w u = u
  run-IsUnused (call c cmd ∷ es) w u =
      run-IsUnused es (step w (call c cmd)) (call-IsUnused c cmd w.drv w.hw u)
  run-IsUnused (irq ∷ es) w u = run-IsUnused es (step w irq) (irq-IsUnused w.drv w.hw u)
  run-IsUnused (moves hw ∷ es) w u = run-IsUnused es (record w { hw = hw }) u

  call_held :
      (c : Copies) (cmd : Command) (d : VnpuDevice) (hw : bus.Hw)
      → d.mutex ≡ true
      → (after (ioctl bus kernel c cmd d hw)).drv.mutex ≡ true
  unfolding ioctl ioctl_get_info ioctl_reset ioctl_set_fault ioctl_get_stat
  call_held c (run_dot dot) d hw u = ground (arith, ioctl_run_dot_lem bus kernel c dot d hw)
  call_held c _ d hw u = ground arith

  irq_held : (d : VnpuDevice) (hw : bus.Hw) → d.mutex ≡ true → (irq_handler bus d hw).1.mutex ≡ true
  unfolding irq_handler
  irq_held d hw u = ground arith

  -- Once the mutex is held between two calls, nothing gives it back.
  run_held :
      (es : List (Event bus.Hw)) (w : World bus.Hw)
      → w.drv.mutex ≡ true
      → (run w es).drv.mutex ≡ true
  unfolding run
  run_held [] w u = u
  run_held (call c cmd ∷ es) w u = run_held es (step w (call c cmd)) (call_held c cmd w.drv w.hw u)
  run_held (irq ∷ es) w u = run_held es (step w irq) (irq_held w.drv w.hw u)
  run_held (moves hw ∷ es) w u = run_held es (record w { hw = hw }) u

  accepted_held :
      (c : Copies) (dot : VnpuDotRequest) (w : World bus.Hw)
      → c.from_ok ≡ true
      → IsRequest w.drv.device_revision dot
      → (step w (call c (run_dot dot))).drv.mutex ≡ true
  unfolding ioctl
  accepted_held c dot w f q =
      ground
        (arith, ioctl_run_dot_lem bus kernel c dot w.drv w.hw, (refusal-none_iff w.drv dot).1 q)

  held_blocks :
      (c : Copies) (cmd : Command) (d : VnpuDevice) (hw : bus.Hw)
      → d.mutex ≡ true
      → needs_mutex d c cmd ≡ true
      → ioctl bus kernel c cmd d hw ≡ blocked d hw
  unfolding ioctl ioctl_reset ioctl_set_fault
  held_blocks c (run_dot dot) d hw u n = ground (arith, ioctl_run_dot_lem bus kernel c dot d hw)
  held_blocks c _ d hw u n = ground arith

  -- The world some events after a RUN_DOT.
  abbrev pub later : World bus.Hw → Copies → VnpuDotRequest → List (Event bus.Hw) → World bus.Hw
  later w c dot es = run (step w (call c (run_dot dot))) es

  -- After one RUN_DOT that passes the checks of the driver, and whatever calls, interrupts and
  -- moves of the hardware follow, every call that takes the mutex waits for ever: each RESET, each
  -- further RUN_DOT that passes the checks, each SET_FAULT with a mask that is allowed.
  pub run_dot_deadlocks :
      (c : Copies) (dot : VnpuDotRequest) (w : World bus.Hw) (es : List (Event bus.Hw))
      (c' : Copies) (cmd : Command)
      → c.from_ok ≡ true
      → IsRequest w.drv.device_revision dot
      → needs_mutex (later w c dot es).drv c' cmd ≡ true
      → ioctl bus kernel c' cmd (later w c dot es).drv (later w c dot es).hw
        ≡ blocked (later w c dot es).drv (later w c dot es).hw
  run_dot_deadlocks c dot w es c' cmd f q n =
      let w' = later w c dot es in
      held_blocks c' cmd w'.drv w'.hw
        (run_held es (step w (call c (run_dot dot))) (accepted_held c dot w f q)) n
