-- ===== src/Driver/Requests.antt =====
-- Which requests the driver takes, and what RUN_DOT does with them.
use virtual_silicon_validati.Base.{
  ℕ, ◌+◌, ◌-◌, ◌*◌, ◌/◌, ◌^◌, ◌≤◌, ◌<◌, ◌≡◌, ◌≢◌, ◌⊎◌, ◌↔◌, inl, inr, refl, Bool, Bool-cases, true,
  false, not, ◌&&◌, ◌||◌, none, some, arith, bit_and, ◌==◌, ltb, if◌then◌else◌,
}
use virtual_silicon_validati.Base.Int.{pos}
use virtual_silicon_validati.Base.Bits.{every, every_lem, bit_and_ones_zero, bit_and_nibble}
use virtual_silicon_validati.Base.Digits.{bit_and_step, zero-bit_and}
use virtual_silicon_validati.Base.Word.{u32}
use virtual_silicon_validati.Device.State.{truthy}
use virtual_silicon_validati.Driver.Uapi.{VnpuDotRequest, VnpuFaultRequest, set_fault}
use virtual_silicon_validati.Driver.State.{
  VnpuDevice, Bus, Kernel, minus, efault, einval, reg_fault_control,
}
use virtual_silicon_validati.Driver.Ioctl.{
  Copies, returned, blocked, reply, refusal, program_inputs, clear_irqs, ioctl_set_fault,
  run_dot_locked, ioctl_run_dot,
}

-- What a request of RUN_DOT must be: the ABI version, a length of the revision, and a timeout.
pub record IsRequest (revision : ℕ) (dot : VnpuDotRequest) : Type 0 where
  pub version : dot.abi_version ≡ 1
  pub length_a : revision ≡ 1 → dot.vector_length ≡ 8
  pub length_b : revision ≡ 2 → (dot.vector_length ≡ 8) ⊎ (dot.vector_length ≡ 16)
  pub timeout_pos : 1 ≤ dot.timeout_ms
  pub timeout_max : dot.timeout_ms ≤ 1000

-- The checks before the mutex let through the well-formed requests and no other.
pub refusal-none_iff :
    (d : VnpuDevice) (dot : VnpuDotRequest)
    → (refusal d dot ≡ none) ↔ IsRequest d.device_revision dot
unfolding refusal
refusal-none_iff d dot = (λ h. ground arith, λ h. ground arith)

-- The masks that SET_FAULT takes.
abbrev pub one_hot : ℕ → Bool
one_hot m = m == 0 || (m == 1 || (m == 2 || (m == 4 || m == 8)))

abbrev multi : ℕ → ℕ
multi m = bit_and m (u32 (m + 2 ^ 32 - 1))

mask_table : every (λ m. if one_hot m then multi m == 0 else truthy (multi m)) 16 ≡ true
unfolding every
mask_table = refl

high_bits : (m : ℕ) → bit_and m 0xFFFF_FFF0 ≡ bit_and (m / 2 / 2 / 2 / 2) (2 ^ 28 - 1) * 16
high_bits m = omega (
  arith,
  bit_and_step m 0xFFFF_FFF0,
  bit_and_step (m / 2) 0x7FFF_FFF8,
  bit_and_step (m / 2 / 2) 0x3FFF_FFFC,
  bit_and_step (m / 2 / 2 / 2) 0x1FFF_FFFE,
)

high_bits_zero : (m : ℕ) → m < 16 → bit_and m 0xFFFF_FFF0 ≡ 0
high_bits_zero m h = rw (high_bits m, small) (rw (zero-bit_and (2 ^ 28 - 1)) refl)
  where
    small : m / 2 / 2 / 2 / 2 ≡ 0
    small = omega arith

high_bits_set : (m : ℕ) → m < 2 ^ 32 → 16 ≤ m → bit_and m 0xFFFF_FFF0 ≢ 0
high_bits_set m h k e =
    omega
      (arith, bit_and_ones_zero 28 (m / 2 / 2 / 2 / 2) (omega arith) (omega (arith, high_bits m)))

-- The two bit tests of SET_FAULT let through 0 and the four single fault bits.
pub mask_tests :
    (m : ℕ)
    → m < 2 ^ 32
    → (not (truthy (multi m)) && not (truthy (bit_and m 0xFFFF_FFF0))) ≡ one_hot m
mask_tests m h = elim (Bool-cases (ltb m 16)) [
  | inl p ↦ ground (
    arith,
    high_bits_zero m (ground arith),
    every_lem (λ m. if one_hot m then multi m == 0 else truthy (multi m)) 16 m mask_table
        (ground arith),
  )
  | inr p ↦ ground (arith, high_bits_set m h (ground arith))
]

module _ (bus : Bus) where
  open bus use {Hw, write as writel}

  -- With a readable request, of any ABI version, since that is not tested, and the mutex free,
  -- SET_FAULT takes 0 and the four single fault bits: it
  -- writes them to FAULT_CONTROL as they are and gives the mutex back. It refuses every other 32-bit
  -- mask with -EINVAL, and touches nothing then.
  pub ioctl_set_fault_lem :
      (c : Copies) (fault : VnpuFaultRequest) (d : VnpuDevice) (hw : Hw)
      → c.from_ok ≡ true
      → d.mutex ≡ false
      → fault.fault_mask < 2 ^ 32
      → ioctl_set_fault bus c fault d hw ≡ (
          if one_hot fault.fault_mask
          then reply c (pos 0) (set_fault fault) d (writel hw reg_fault_control fault.fault_mask)
          else returned (minus einval) none d hw)
  unfolding ioctl_set_fault
  ioctl_set_fault_lem c fault d hw f m h =
      ground (arith, mask_tests fault.fault_mask h, bit_and_nibble fault.fault_mask)

  module _ (kernel : Kernel Hw) where
    -- RUN_DOT in full: a bad pointer gives -EFAULT and a request that is refused -EINVAL, with
    -- nothing touched. A request that passes the checks waits if the mutex is held; otherwise it
    -- gives -EINVAL too, since the length that it tests is 0: it has cleared and enabled the
    -- interrupts by then, submits nothing, stores nothing to the user, and leaves the mutex held.
    pub ioctl_run_dot_lem :
        (c : Copies) (dot : VnpuDotRequest) (d : VnpuDevice) (hw : Hw)
        → ioctl_run_dot bus kernel c dot d hw ≡ (
            if not c.from_ok then returned (minus efault) none d hw else elim (refusal d dot) [
              | some status ↦ returned (minus einval) none d hw
              | none ↦
                  if d.mutex
                  then blocked d hw
                  else returned
                      (minus einval)
                      none
                      (record d { mutex = true; irq_raised = 0 })
                      (clear_irqs bus hw)
            ])
    unfolding ioctl_run_dot run_dot_locked program_inputs
    ioctl_run_dot_lem c dot d hw = ground arith
