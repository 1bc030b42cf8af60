-- ===== src/Device/State.antt =====
-- The constants, `VnpuRevisionOps`, `VnpuState` and `vnpu_update_irq` of vnpu.c.
-- `pci_set_irq` and the QEMU timer are seen by their effect: the level last given to the interrupt
-- pin, and the deadline in milliseconds of a timer that is pending.
use virtual_silicon_validati.Base.{ℕ, Bool, not, List, Option, bit_and, ◌==◌}
use virtual_silicon_validati.Base.Int.{ℤ}

abbrev pub revision_a : ℕ
revision_a = 0x1

abbrev pub revision_b : ℕ
revision_b = 0x2

-- The six and six capability bits of VNPU_CAP_A and VNPU_CAP_B, joined by `|`.
abbrev pub cap_a : ℕ
cap_a = 0x7B

abbrev pub cap_b : ℕ
cap_b = 0x7D

abbrev pub control_start : ℕ
control_start = 0x1

abbrev pub control_reset : ℕ
control_reset = 0x2

abbrev pub status_idle : ℕ
status_idle = 0x0

abbrev pub status_busy : ℕ
status_busy = 0x1

abbrev pub status_done : ℕ
status_done = 0x2

abbrev pub status_error : ℕ
status_error = 0x3

abbrev pub irq_completion : ℕ
irq_completion = 0x1

abbrev pub irq_error : ℕ
irq_error = 0x2

abbrev pub err_none : ℕ
err_none = 0x0

abbrev pub err_invalid_length : ℕ
err_invalid_length = 0x1

abbrev pub err_busy : ℕ
err_busy = 0x2

abbrev pub err_forced : ℕ
err_forced = 0x3

abbrev pub fault_irq_drop : ℕ
fault_irq_drop = 0x1

abbrev pub fault_stuck_busy : ℕ
fault_stuck_busy = 0x2

abbrev pub fault_corrupt_result : ℕ
fault_corrupt_result = 0x4

abbrev pub fault_force_error : ℕ
fault_force_error = 0x8

pub record VnpuRevisionOps : Type 0 where
  pub revision : ℕ
  pub capabilities : ℕ
  pub vec_len : ℕ

pub record VnpuState : Type 0 where
  pub status : ℕ
  pub err_code : ℕ
  pub input_a : List ℕ
  pub input_b : List ℕ
  pub result : ℤ
  pub control : ℕ
  pub job_ib : ℕ
  pub irq_status : ℕ
  pub irq_enable : ℕ
  pub fault_control : ℕ
  pub dot_timer : Option ℕ
  pub irq_line : Bool
  pub ops : VnpuRevisionOps

-- A number as a condition of C.
abbrev pub truthy : ℕ → Bool
truthy n = not (n == 0)

abbrev pub pending : VnpuState → Bool
pending s = truthy (bit_and s.irq_status s.irq_enable)

unfoldable pub update_irq : VnpuState → VnpuState
update_irq s = record s { irq_line = pending s }
