-- ===== src/Driver/State.antt =====
-- The constants and `struct vnpu_device` of vnpu_drv.c, and what the driver takes from the kernel.
use virtual_silicon_validati.Base.{ℕ, ◌-◌, Bool}
use virtual_silicon_validati.Base.Int.{ℤ, negsuc}

-- `-n`, for a positive error number.
abbrev pub minus : ℕ → ℤ
minus n = negsuc (n - 1)

abbrev pub eio : ℕ
eio = 5

abbrev pub enomem : ℕ
enomem = 12

abbrev pub efault : ℕ
efault = 14

abbrev pub ebusy : ℕ
ebusy = 16

abbrev pub einval : ℕ
einval = 22

abbrev pub enotty : ℕ
enotty = 25

abbrev pub eopnotsupp : ℕ
eopnotsupp = 95

abbrev pub etimedout : ℕ
etimedout = 110

abbrev pub reg_device_id : ℕ
reg_device_id = 0x000

abbrev pub reg_revision : ℕ
reg_revision = 0x004

abbrev pub reg_control : ℕ
reg_control = 0x00C

abbrev pub reg_status : ℕ
reg_status = 0x010

abbrev pub reg_irq_status : ℕ
reg_irq_status = 0x014

abbrev pub reg_irq_enable : ℕ
reg_irq_enable = 0x018

abbrev pub reg_error_code : ℕ
reg_error_code = 0x01C

abbrev pub reg_vector_length : ℕ
reg_vector_length = 0x024

abbrev pub reg_input_a_base : ℕ
reg_input_a_base = 0x100

abbrev pub reg_input_b_base : ℕ
reg_input_b_base = 0x120

abbrev pub reg_result : ℕ
reg_result = 0x140

abbrev pub reg_fault_control : ℕ
reg_fault_control = 0x180

abbrev pub irq_completion : ℕ
irq_completion = 0x1

abbrev pub irq_error : ℕ
irq_error = 0x2

abbrev pub irq_all : ℕ
irq_all = 0x3

-- `irq_raised` is the count of the completion, `mutex` whether it is held. The pointers to kernel
-- objects and the fields that no code uses are left out.
pub record VnpuDevice : Type 0 where
  pub device_revision : ℕ
  pub irq_raised : ℕ
  pub last_irq : ℕ
  pub mutex : Bool
  pub job_id : ℕ
  pub device_status : ℕ
  pub error_flag : Bool
  pub device_error : ℕ
  pub reset_num : ℕ
  pub submitted_num : ℕ
  pub device_error_num : ℕ
  pub completed_num : ℕ
  pub timed_out_num : ℕ

-- `readl` and `writel` on the mapped BAR: a hardware state, and 32-bit accesses at an offset.
pub record Bus : Type 1 where
  pub Hw : Type 0
  pub read : Hw → ℕ → ℕ × Hw
  pub write : Hw → ℕ → ℕ → Hw

-- The rest of the kernel that RUN_DOT calls: the length of a timeout in jiffies, and
-- `wait_for_completion_timeout`, which gives the jiffies left, 0 after a timeout, and during which
-- the hardware goes on and interrupts are handled.
pub record Kernel (Hw : Type 0) : Type 0 where
  pub msecs_to_jiffies : ℕ → ℕ
  pub wait_for_completion_timeout : VnpuDevice → Hw → ℕ → ℕ × VnpuDevice × Hw
