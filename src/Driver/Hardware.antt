-- ===== src/Driver/Hardware.antt =====
-- The functions of vnpu_drv.c that talk to the hardware: register accesses, `device_error_handler`,
-- `vnpu_hw_reset` and `vnpu_irq_handler`.
use virtual_silicon_validati.Base.{
  ℕ, ◌+◌, ◌*◌, true, false, not, List, bit_and, ◌==◌, if◌then◌else◌, get_or, zero, suc,
}
use virtual_silicon_validati.Base.Int.{ℤ, pos}
use virtual_silicon_validati.Base.Word.{u64}
use virtual_silicon_validati.Device.State.{truthy}
use virtual_silicon_validati.Driver.State.{
  VnpuDevice, Bus, minus, eio, ebusy, einval, eopnotsupp, reg_control, reg_status, reg_irq_status,
  reg_irq_enable, reg_error_code, reg_input_a_base, reg_input_b_base, irq_error, irq_all,
}

-- `device_error_handler`: the error number of a device error, and the flag cleared.
unfoldable pub device_error_handler : VnpuDevice → ℤ × VnpuDevice
device_error_handler d = (
  if d.device_error == 1
      then minus einval
      else if d.device_error == 2
      then minus ebusy
      else if d.device_error == 3
      then minus eio
      else if d.device_error == 4
      then minus eopnotsupp
      else minus eio,
  record d { error_flag = false },
)

pub data IrqReturn : Type 0 where
  irq_none irq_handled : IrqReturn

module _ (bus : Bus) where
  open bus use {Hw, read as readl, write as writel}

  unfoldable pub set_input_a : Hw → ℕ → ℕ → Hw
  set_input_a hw value offset = writel hw (reg_input_a_base + offset * 4) value

  unfoldable pub set_input_b : Hw → ℕ → ℕ → Hw
  set_input_b hw value offset = writel hw (reg_input_b_base + offset * 4) value

  -- The two loops over the input words, from index `i` with the rounds left.
  unfoldable pub set_inputs : ℕ → ℕ → List ℕ → List ℕ → Hw → Hw
  unfolding set_input_a set_input_b
  set_inputs zero i a b hw = hw
  set_inputs (suc left) i a b hw =
      set_inputs left (i + 1) a b (set_input_b (set_input_a hw (get_or a i 0) i) (get_or b i 0) i)

  unfoldable pub hw_reset : VnpuDevice → Hw → ℤ × VnpuDevice × Hw
  hw_reset d hw =
      let hw0 = writel hw reg_irq_enable 0 in
      let hw1 = writel hw0 reg_control 0x2 in
      let hw2 = writel hw1 reg_irq_status irq_all in
      let (status, hw3) = readl hw2 reg_status in
      let (irq_status, hw4) = readl hw3 reg_irq_status in
      let (err, hw5) = readl hw4 reg_error_code in
      if not (status == 0)
      then (minus eio, d, hw5)
      else if truthy (bit_and irq_status irq_all)
      then (minus eio, d, hw5)
      else if not (err == 0)
      then (minus eio, d, hw5)
      else (pos 0, record d { irq_raised = 0; last_irq = 0 }, hw5)

  unfoldable pub irq_handler : VnpuDevice → Hw → IrqReturn × VnpuDevice × Hw
  irq_handler d hw =
      let (irq_status, hw0) = readl hw reg_irq_status in
      let hw1 = writel hw0 reg_irq_status irq_all in
      if not (truthy (bit_and irq_status irq_all))
      then (irq_none, d, hw1)
      else if truthy (bit_and irq_status irq_error)
      then (let (err, hw2) = readl hw1 reg_error_code in
          let (status, hw3) = readl hw2 reg_status in
          (
            irq_handled,
            record d {
              device_error = err;
              device_status = status;
              device_error_num = u64 (d.device_error_num + 1);
              error_flag = true;
              irq_raised = d.irq_raised + 1;
            },
            hw3,
          ))
      else (irq_handled, record d { irq_raised = d.irq_raised + 1 }, hw1)
