-- ===== src/Device/Registers.antt =====
-- The register map as a guest sees it: what a read returns and changes, and what a write changes.
use virtual_silicon_validati.Base.{
  ℕ, zero, suc, ◌+◌, ◌*◌, ◌/◌, ◌%◌, ◌<◌, ◌≡◌, refl, Bool, true, false, ◌&&◌, ◌||◌, not, none, some,
  arith, bit_and, set, get_or-set_self, ◌==◌, if◌then◌else◌, leb,
}
use virtual_silicon_validati.Base.Bits.{bit_and_two_digits, bit_and-two, bit_and-one, bit_or-two}
use virtual_silicon_validati.Base.Digits.{zero-bit_and}
use virtual_silicon_validati.Base.Word.{u32, not64}
use virtual_silicon_validati.Device.State.{
  VnpuState, pending, update_irq, truthy, status_idle, status_busy, status_done, status_error,
  irq_error, err_busy, err_invalid_length,
}
use virtual_silicon_validati.Device.Mmio.{
  input_a, input_b, decode, read_register, write_register, mmio_read, mmio_write, do_reset,
  do_start, write_vector_length, reject_length, set_vec_len,
}
use virtual_silicon_validati.Device.Invariant.{IsValid}

-- A read changes the device in one case only: four bytes of RESULT in DONE take it to IDLE.
pub mmio_read-state :
    (s : VnpuState) (addr size : ℕ)
    → (mmio_read s addr size).1 ≡ (
        if size == 4 && (addr == 0x140 && s.status == status_done)
        then record s { status = status_idle }
        else s)
unfolding mmio_read read_register decode
mmio_read-state s addr size = ground arith

-- The offsets whose writes have an effect.
abbrev pub is_writable : ℕ → Bool
is_writable addr =
    addr == 0x00C
    || (addr == 0x014
        || (addr == 0x018
            || (addr == 0x020
                || (addr == 0x024
                    || ((leb 0x100 addr && leb addr 0x10C || leb 0x120 addr && leb addr 0x12C)
                          && addr % 4 == 0
                        || addr == 0x180)))))

-- A write of another size, or to an offset that is read-only or unmapped, changes nothing.
pub mmio_write_ignored :
    (now : ℕ) (s : VnpuState) (addr val size : ℕ)
    → (size == 4 && is_writable addr) ≡ false
    → mmio_write now s addr val size ≡ s
unfolding mmio_write write_register decode
mmio_write_ignored now s addr val size h = ground arith

-- `is_set n k` is bit `k` of `n`, for the two interrupt bits.
abbrev pub bit0 : ℕ → Bool
bit0 n = n % 2 == 1

abbrev pub bit1 : ℕ → Bool
bit1 n = n / 2 % 2 == 1

-- IRQ_STATUS is write-one-to-clear: each interrupt bit survives exactly if it was set and the
-- written bit is 0, and the pin is driven by what is left.
pub irq_status_w1c :
    (now : ℕ) (s : VnpuState) (val : ℕ)
    → s.irq_status < 4
    → let t = mmio_write now s 0x014 val 4 in
      (bit0 t.irq_status ≡ (bit0 s.irq_status && not (bit0 val)))
      × (bit1 t.irq_status ≡ (bit1 s.irq_status && not (bit1 val)))
      × (t ≡ record s { irq_status = t.irq_status; irq_line = t.irq_line })
      × (t.irq_line ≡ pending t)
unfolding mmio_write write_register decode update_irq
irq_status_w1c now s val h =
    let e = bit_and_two_digits s.irq_status (not64 val) h in
    (ground arith, ground arith, refl, refl)

-- CONTROL_RESET works in every state, also with CONTROL_START beside it: the operation in flight is
-- dropped, status, interrupts, error and fault are cleared, the pin falls, and all else stays.
pub control-reset :
    (now : ℕ) (s : VnpuState) (val : ℕ)
    → bit1 val ≡ true
    → mmio_write now s 0x00C val 4 ≡ record s {
      dot_timer = none;
      status = status_idle;
      irq_status = 0;
      err_code = 0;
      fault_control = 0;
      irq_line = false;
    }
unfolding mmio_write write_register decode do_reset update_irq
control-reset now s val h = ground (arith, bit_and-two val, zero-bit_and s.irq_enable)

-- CONTROL_START alone: from IDLE it arms the timer for 100 ms later and enters BUSY; in any other
-- state nothing is started, the error interrupt is raised, and the error code is BUSY unless the
-- device is in ERROR, which keeps its code.
pub control-start :
    (now : ℕ) (s : VnpuState) (val : ℕ)
    → s.irq_status < 4
    → bit0 val ≡ true
    → bit1 val ≡ false
    → mmio_write now s 0x00C val 4 ≡ (
        if s.status == status_idle
        then record s {
          status = status_busy;
          irq_status = 0;
          err_code = 0;
          dot_timer = some (now + 100);
          irq_line = false;
        }
        else record s {
          irq_status = 2 + s.irq_status % 2;
          err_code =
              if s.status == status_busy || s.status == status_done then err_busy else s.err_code;
          irq_line = truthy (bit_and (2 + s.irq_status % 2) s.irq_enable);
        })
unfolding mmio_write write_register decode do_start update_irq
control-start now s val h p q =
    ground (
      arith,
      bit_and-two val,
      bit_and-one val,
      zero-bit_and s.irq_enable,
      bit_or-two s.irq_status h,
    )

-- The lengths that a revision takes.
abbrev pub is_length : ℕ → ℕ → Bool
is_length revision n = n == 8 || n == 16 && revision == 2

-- VECTOR_LENGTH takes 8, and 16 on revision B; any other length puts the device into ERROR with
-- INVALID_LENGTH and the error interrupt alone, whatever it was doing, and keeps the old length.
pub vector_length_lem :
    (now : ℕ) (s : VnpuState) (val : ℕ)
    → IsValid s
    → mmio_write now s 0x024 val 4 ≡ (
        if is_length s.ops.revision val
        then record s { ops = record s.ops { vec_len = val } }
        else record s {
          err_code = err_invalid_length;
          status = status_error;
          irq_status = irq_error;
          irq_line = truthy (bit_and irq_error s.irq_enable);
        })
unfolding mmio_write write_register decode write_vector_length set_vec_len reject_length update_irq
vector_length_lem now s val v = ground arith

decode-input_a : (i : ℕ) → i < 4 → decode (0x100 + i * 4) ≡ input_a i
unfolding decode
decode-input_a zero h = refl
decode-input_a (suc zero) h = refl
decode-input_a (suc (suc zero)) h = refl
decode-input_a (suc (suc (suc zero))) h = refl
decode-input_a (suc (suc (suc (suc i)))) h = absurd (omega arith)

decode-input_b : (i : ℕ) → i < 4 → decode (0x120 + i * 4) ≡ input_b i
unfolding decode
decode-input_b zero h = refl
decode-input_b (suc zero) h = refl
decode-input_b (suc (suc zero)) h = refl
decode-input_b (suc (suc (suc zero))) h = refl
decode-input_b (suc (suc (suc (suc i)))) h = absurd (omega arith)

-- A write to INPUT_A[i] or INPUT_B[i] stores the word, cut to 32 bits, and nothing else.
pub write-input_a :
    (now : ℕ) (s : VnpuState) (i val : ℕ)
    → i < 4
    → mmio_write now s (0x100 + i * 4) val 4 ≡ record s { input_a = set s.input_a i (u32 val) }
unfolding mmio_write write_register
write-input_a now s i val h = rw (decode-input_a i h)

pub write-input_b :
    (now : ℕ) (s : VnpuState) (i val : ℕ)
    → i < 4
    → mmio_write now s (0x120 + i * 4) val 4 ≡ record s { input_b = set s.input_b i (u32 val) }
unfolding mmio_write write_register
write-input_b now s i val h = rw (decode-input_b i h)

-- An input register of a valid device gives back the word that was last written to it, cut to 32
-- bits, also after a write to the other input register of the same index.
pub input-readback :
    (now : ℕ) (s : VnpuState) (i a b : ℕ)
    → i < 4
    → IsValid s
    → let t = mmio_write now (mmio_write now s (0x100 + i * 4) a 4) (0x120 + i * 4) b 4 in
      ((mmio_read t (0x100 + i * 4) 4).0 ≡ u32 a) × ((mmio_read t (0x120 + i * 4) 4).0 ≡ u32 b)
unfolding mmio_read read_register
input-readback now s i a b h v =
    rw
      (
        write-input_a now s i a h,
        write-input_b now (record s { input_a = set s.input_a i (u32 a) }) i b h,
        decode-input_a i h,
        decode-input_b i h,
      )
      (
        get_or-set_self s.input_a i (u32 a) 0 (omega (arith, v.a_words.four)),
        get_or-set_self s.input_b i (u32 b) 0 (omega (arith, v.b_words.four)),
      )
