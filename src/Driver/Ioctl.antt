-- ===== src/Driver/Ioctl.antt =====
-- `vnpu_ioctl` of vnpu_drv.c, one function for each command.
use virtual_silicon_validati.Base.{
  ℕ, ◌+◌, ◌-◌, ◌^◌, Bool, true, false, not, ◌||◌, Option, none, some, bit_and, ◌==◌, ltb,
  if◌then◌else◌,
}
use virtual_silicon_validati.Base.Int.{ℤ, pos}
use virtual_silicon_validati.Base.Word.{u32, u64, of_i32, to_i32}
use virtual_silicon_validati.Device.State.{truthy}
use virtual_silicon_validati.Driver.Uapi.{
  VnpuInfo, VnpuDotRequest, VnpuFaultRequest, VnpuStatus, Command, get_info, run_dot, reset,
  set_fault, get_stat, other, driver_status_ok, driver_status_timeout, driver_status_device_error,
  driver_status_inv_rev, driver_status_inv_len, driver_status_inv_time,
}
use virtual_silicon_validati.Driver.State.{
  VnpuDevice, Bus, Kernel, minus, efault, einval, enotty, etimedout, reg_device_id, reg_control,
  reg_irq_status, reg_irq_enable, reg_vector_length, reg_result, reg_fault_control, irq_all,
}
use virtual_silicon_validati.Driver.Hardware.{device_error_handler, set_inputs, hw_reset}

-- Whether the `copy_from_user` and the `copy_to_user` of a call succeed.
pub record Copies : Type 0 where
  pub from_ok : Bool
  pub to_ok : Bool

-- A call returns with its value, the structure that it stored to the user, and the driver and the
-- hardware after; or it waits for the mutex, which it already finds held.
pub data Outcome (Hw : Type 0) : Type 0 where
  returned : ℤ → Option Command → VnpuDevice → Hw → Outcome Hw
  blocked : VnpuDevice → Hw → Outcome Hw

-- `copy_to_user` at the end of a command: -EFAULT, or the structure stored.
abbrev pub reply : {Hw : Type 0} → Copies → ℤ → Command → VnpuDevice → Hw → Outcome Hw
reply c ret user d hw =
    if c.to_ok then returned ret (some user) d hw else returned (minus efault) none d hw

-- `mutex_lock`.
abbrev pub locked : {Hw : Type 0} → VnpuDevice → Hw → (VnpuDevice → Outcome Hw) → Outcome Hw
locked d hw body = if d.mutex then blocked d hw else body (record d { mutex = true })

abbrev pub unlock : VnpuDevice → VnpuDevice
unlock d = record d { mutex = false }

-- The value of the `u32 res` for an `int`, as the `long` that is returned.
abbrev pub through_res : ℤ → ℤ
through_res n = pos (of_i32 n)

-- The checks of RUN_DOT before the mutex: the driver status of a request that is refused.
unfoldable pub refusal : VnpuDevice → VnpuDotRequest → Option ℕ
refusal d dot =
    if not (dot.abi_version == 1)
    then some driver_status_inv_rev
    else if (if d.device_revision == 0x1
        then not (dot.vector_length == 8)
        else if d.device_revision == 0x2
        then not (dot.vector_length == 8 || dot.vector_length == 16)
        else false)
    then some driver_status_inv_len
    else if dot.timeout_ms == 0 || ltb 1000 dot.timeout_ms
    then some driver_status_inv_time
    else none

module _ (bus : Bus) where
  open bus use {Hw, read as readl, write as writel}

  -- Programming the hardware, once the mutex is held: `none` is the `else` branch of the length
  -- test. `vec_len` is the local variable that chooses the loop.
  unfoldable pub program_inputs : ℕ → VnpuDotRequest → Hw → Option Hw
  program_inputs vec_len dot hw =
      if vec_len == 8
      then some (set_inputs bus 2 0 dot.input_a dot.input_b hw)
      else if vec_len == 16
      then some (set_inputs bus 4 0 dot.input_a dot.input_b hw)
      else none

  unfoldable pub clear_irqs : Hw → Hw
  clear_irqs hw = writel (writel hw reg_irq_status irq_all) reg_irq_enable irq_all

  unfoldable pub submit : VnpuDotRequest → Hw → Hw
  submit dot hw = writel (writel hw reg_vector_length dot.vector_length) reg_control 0x1

  -- What follows the wait.
  unfoldable pub finish_dot : ℕ → Copies → VnpuDotRequest → VnpuDevice → Hw → Outcome Hw
  finish_dot remaining c dot d hw =
      if remaining == 0
      then reply c (minus etimedout)
          (run_dot (record dot { driver_status = driver_status_timeout }))
          (unlock (record d { timed_out_num = u64 (d.timed_out_num + 1) }))
          (writel hw reg_control 0x2)
      else if d.error_flag
      then (let (res, d') = device_error_handler (unlock d) in
          reply c (through_res res)
            (run_dot (record dot { driver_status = driver_status_device_error })) d' hw)
      else (let (result, hw') = readl hw reg_result in
          reply c (pos 0)
            (run_dot
              (record dot { result = to_i32 (u32 result); driver_status = driver_status_ok }))
            (unlock (record d { completed_num = u64 (d.completed_num + 1) })) hw')

  unfoldable pub ioctl_get_info : Copies → VnpuInfo → VnpuDevice → Hw → Outcome Hw
  ioctl_get_info c info d hw =
      if not c.from_ok
      then returned (minus efault) none d hw
      else (let (device_id, hw') = readl hw reg_device_id in
          reply c (pos 0) (get_info (record { abi_version = 1; device_id = device_id })) d hw')

  unfoldable pub ioctl_reset : VnpuDevice → Hw → Outcome Hw
  ioctl_reset d hw = locked d hw λ d0.
      let (res, d1, hw') = hw_reset bus d0 hw in
      returned (through_res res) none
        (unlock (if of_i32 res == 0 then record d1 { reset_num = u64 (d1.reset_num + 1) } else d1))
        hw'

  unfoldable pub ioctl_set_fault : Copies → VnpuFaultRequest → VnpuDevice → Hw → Outcome Hw
  ioctl_set_fault c fault d hw =
      if not c.from_ok
      then returned (minus efault) none d hw
      else if truthy (bit_and fault.fault_mask (u32 (fault.fault_mask + 2 ^ 32 - 1)))
      then returned (minus einval) none d hw
      else if truthy (bit_and fault.fault_mask 0xFFFF_FFF0)
      then returned (minus einval) none d hw
      else locked d hw λ d0.
        let mask = bit_and fault.fault_mask 0xF in
        reply c (pos 0) (set_fault (record fault { fault_mask = mask })) (unlock d0)
          (writel hw reg_fault_control mask)

  unfoldable pub ioctl_get_stat : Copies → VnpuStatus → VnpuDevice → Hw → Outcome Hw
  ioctl_get_stat c status d hw =
      if not c.from_ok
      then returned (minus efault) none d hw
      else reply c (pos 0)
          (get_stat (record status {
            submitted = d.submitted_num;
            completed = d.completed_num;
            timed_out = d.timed_out_num;
            device_error = d.device_error_num;
            resets = d.reset_num;
          }))
          d hw

  module _ (kernel : Kernel Hw) where
    open kernel use {msecs_to_jiffies, wait_for_completion_timeout}

    -- RUN_DOT from the mutex on, as a function of the local variable `vec_len`. The branch that
    -- refuses the length returns with the mutex held.
    unfoldable pub run_dot_locked : ℕ → Copies → VnpuDotRequest → VnpuDevice → Hw → Outcome Hw
    run_dot_locked vec_len c dot d hw = locked d hw λ d0.
        let d1 = record d0 { irq_raised = 0 } in
        let hw0 = clear_irqs hw in
        elim (program_inputs vec_len dot hw0) [
          | none ↦ returned (minus einval) none d1 hw0
          | some hw1 ↦
              let d2 = record d1 { submitted_num = u64 (d1.submitted_num + 1) } in
              let timeout = msecs_to_jiffies dot.timeout_ms in
              let (remaining, d3, hw2) = wait_for_completion_timeout d2 (submit dot hw1) timeout in
              finish_dot remaining c dot d3 hw2
        ]

    unfoldable pub ioctl_run_dot : Copies → VnpuDotRequest → VnpuDevice → Hw → Outcome Hw
    ioctl_run_dot c dot d hw =
        let vec_len : ℕ = 0 in
        if not c.from_ok then returned (minus efault) none d hw else elim (refusal d dot) [
          | some status ↦ returned (minus einval) none d hw
          | none ↦ run_dot_locked vec_len c dot d hw
        ]

    -- `res` starts as -ENOTTY.
    unfoldable pub ioctl : Copies → Command → VnpuDevice → Hw → Outcome Hw
    ioctl c (get_info info) d hw = ioctl_get_info c info d hw
    ioctl c (run_dot dot) d hw = ioctl_run_dot c dot d hw
    ioctl c reset d hw = ioctl_reset d hw
    ioctl c (set_fault fault) d hw = ioctl_set_fault c fault d hw
    ioctl c (get_stat status) d hw = ioctl_get_stat c status d hw
    ioctl c other d hw = returned (through_res (minus enotty)) none d hw
