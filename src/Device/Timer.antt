-- ===== src/Device/Timer.antt =====
-- `vnpu_dot_timer` of vnpu.c, and how QEMU calls it.
use virtual_silicon_validati.Base.{none, bit_and, bit_xor, if◌then◌else◌}
use virtual_silicon_validati.Base.Word.{of_i32, to_i32}
use virtual_silicon_validati.Base.Int.{ℤ}
use virtual_silicon_validati.Device.State.{
  VnpuState, truthy, update_irq, status_busy, status_error, irq_error, err_forced, fault_irq_drop,
  fault_stuck_busy, fault_corrupt_result, fault_force_error,
}
use virtual_silicon_validati.Device.Dot.{dot_product}

-- `result ^= 1` at `int32_t`.
unfoldable pub corrupt : ℤ → ℤ
corrupt r = to_i32 (bit_xor (of_i32 r) 1)

-- The ladder over `fault_control`.
unfoldable pub apply_fault : VnpuState → VnpuState
unfolding corrupt
apply_fault s =
    if truthy (bit_and s.fault_control fault_irq_drop)
    then record s { irq_status = 0 }
    else if truthy (bit_and s.fault_control fault_stuck_busy)
    then record s { status = status_busy; irq_status = 0 }
    else if truthy (bit_and s.fault_control fault_corrupt_result)
    then record s { result = corrupt s.result }
    else if truthy (bit_and s.fault_control fault_force_error)
    then record s { status = status_error; err_code = err_forced; irq_status = irq_error }
    else s

unfoldable pub dot_timer : VnpuState → VnpuState
unfolding apply_fault update_irq
dot_timer s = let (r, s') = dot_product s in update_irq (apply_fault (record s' { result = r }))

-- A timer that expires is no longer pending when QEMU calls its function.
unfoldable pub expire : VnpuState → VnpuState
unfolding dot_timer
expire s = dot_timer (record s { dot_timer = none })
