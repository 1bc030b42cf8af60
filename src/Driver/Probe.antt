-- ===== src/Driver/Probe.antt =====
-- `vnpu_probe` of vnpu_drv.c. What the kernel answers to each request for a resource is a parameter.
use virtual_silicon_validati.Base.{Bool, true, false, not, Option, none, some, if◌then◌else◌, ◌==◌}
use virtual_silicon_validati.Base.Int.{ℤ, pos, negsuc}
use virtual_silicon_validati.Driver.State.{VnpuDevice, Bus, minus, enomem, reg_revision}
use virtual_silicon_validati.Driver.Hardware.{hw_reset}

-- The answers of `pcim_enable_device`, `devm_kzalloc`, `pci_request_regions`, `pcim_iomap`,
-- `devm_request_irq` and `misc_register`.
pub record Resources : Type 0 where
  pub enable : ℤ
  pub allocated : Bool
  pub regions : ℤ
  pub mapped : Bool
  pub irq : ℤ
  pub misc : ℤ

-- `if (ret)`.
abbrev pub failed : ℤ → Bool
failed (pos n) = not (n == 0)
failed (negsuc n) = true

-- `devm_kzalloc`, `init_completion` and `mutex_init`.
abbrev pub fresh : VnpuDevice
fresh = record {
  device_revision = 0;
  irq_raised = 0;
  last_irq = 0;
  mutex = false;
  job_id = 0;
  device_status = 0;
  error_flag = false;
  device_error = 0;
  reset_num = 0;
  submitted_num = 0;
  device_error_num = 0;
  completed_num = 0;
  timed_out_num = 0;
}

module _ (bus : Bus) where
  open bus use {Hw, read as readl}

  -- From the reset of the hardware on; the device is what `pci_set_drvdata` keeps.
  unfoldable pub probe_device : Resources → Hw → ℤ × Option VnpuDevice × Hw
  probe_device r hw =
      let (ret, d, hw0) = hw_reset bus fresh hw in
      if failed ret
      then (ret, none, hw0)
      else if failed r.irq
      then (r.irq, none, hw0)
      else if failed r.misc
      then (r.misc, none, hw0)
      else (let (revision, hw1) = readl hw0 reg_revision in
          (
            pos 0,
            some (record d {
              device_revision = revision;
              device_error_num = 0;
              reset_num = 0;
              timed_out_num = 0;
              submitted_num = 0;
              completed_num = 0;
              error_flag = false;
              job_id = 0;
            }),
            hw1,
          ))

  unfoldable pub probe : Resources → Hw → ℤ × Option VnpuDevice × Hw
  unfolding probe_device
  probe r hw =
      if failed r.enable
      then (r.enable, none, hw)
      else if not r.allocated
      then (minus enomem, none, hw)
      else if failed r.regions
      then (minus enomem, none, hw)
      else if not r.mapped
      then (minus enomem, none, hw)
      else probe_device r hw
