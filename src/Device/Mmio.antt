-- ===== src/Device/Mmio.antt =====
-- `vnpu_mmio_read` and `vnpu_mmio_write` of vnpu.c. The labels of the two switches are decoded
-- once; `now` is the reading of QEMU_CLOCK_VIRTUAL in milliseconds.
use virtual_silicon_validati.Base.{
  ℕ, ◌+◌, ◌||◌, not, none, some, bit_and, bit_or, ◌==◌, if◌then◌else◌, get_or, set,
}
use virtual_silicon_validati.Base.Word.{u32, not64, neg64, of_i64}
use virtual_silicon_validati.Device.State.{
  VnpuState, truthy, update_irq, revision_a, revision_b, control_start, control_reset, status_idle,
  status_busy, status_done, status_error, irq_error, err_busy, err_invalid_length,
}

pub data Register : Type 0 where
  device_id revision capabilities control status irq_status irq_enable error_code : Register
  job_id vector_length result fault_control unmapped : Register
  input_a : ℕ → Register
  input_b : ℕ → Register

decode_high : ℕ → Register
decode_high addr =
    if addr == 0x100
    then input_a 0
    else if addr == 0x104
    then input_a 1
    else if addr == 0x108
    then input_a 2
    else if addr == 0x10C
    then input_a 3
    else if addr == 0x120
    then input_b 0
    else if addr == 0x124
    then input_b 1
    else if addr == 0x128
    then input_b 2
    else if addr == 0x12C
    then input_b 3
    else if addr == 0x140
    then result
    else if addr == 0x180
    then fault_control
    else unmapped

unfoldable pub decode : ℕ → Register
unfolding decode_high
decode addr =
    if addr == 0x000
    then device_id
    else if addr == 0x004
    then revision
    else if addr == 0x008
    then capabilities
    else if addr == 0x00C
    then control
    else if addr == 0x010
    then status
    else if addr == 0x014
    then irq_status
    else if addr == 0x018
    then irq_enable
    else if addr == 0x01C
    then error_code
    else if addr == 0x020
    then job_id
    else if addr == 0x024
    then vector_length
    else decode_high addr

-- The `uint64_t` that is read, and the state after: reading RESULT takes DONE to IDLE.
unfoldable pub read_register : Register → VnpuState → ℕ × VnpuState
read_register device_id s = (0x564E5055, s)
read_register revision s = (s.ops.revision, s)
read_register capabilities s = (s.ops.capabilities, s)
read_register status s = (s.status, s)
read_register irq_status s = (s.irq_status, s)
read_register irq_enable s = (s.irq_enable, s)
read_register error_code s = (s.err_code, s)
read_register job_id s = (s.job_ib, s)
read_register vector_length s = (s.ops.vec_len, s)
read_register (input_a i) s = (get_or s.input_a i 0, s)
read_register (input_b i) s = (get_or s.input_b i 0, s)
read_register result s =
    (of_i64 s.result, if s.status == status_done then record s { status = status_idle } else s)
read_register fault_control s = (s.fault_control, s)
read_register control s = (0, s)
read_register unmapped s = (0, s)

unfoldable pub mmio_read : VnpuState → ℕ → ℕ → ℕ × VnpuState
mmio_read s addr size = if not (size == 4) then (0, s) else read_register (decode addr) s

-- `case 0x00C` with CONTROL_RESET set.
unfoldable pub do_reset : VnpuState → VnpuState
unfolding update_irq
do_reset s = update_irq (record s {
  dot_timer = none;
  status = status_idle;
  irq_status = 0;
  err_code = 0;
  fault_control = 0;
})

-- `case 0x00C` with CONTROL_START set and CONTROL_RESET clear.
unfoldable pub do_start : ℕ → VnpuState → VnpuState
unfolding update_irq
do_start now s =
    if not (s.status == status_idle)
    then update_irq (record s {
      irq_status = bit_or s.irq_status irq_error;
      err_code =
          if s.status == status_busy
          then err_busy
          else if s.status == status_done
          then err_busy
          else s.err_code;
    })
    else record (update_irq (record s { status = status_busy; irq_status = 0 })) {
      err_code = 0;
      dot_timer = some (now + 100);
    }

-- The two `else` branches of `case 0x024`.
unfoldable pub reject_length : VnpuState → VnpuState
unfolding update_irq
reject_length s =
    update_irq
      (record s { err_code = err_invalid_length; status = status_error; irq_status = irq_error })

unfoldable pub set_vec_len : ℕ → VnpuState → VnpuState
set_vec_len val s = record s { ops = record s.ops { vec_len = u32 val } }

unfoldable pub write_vector_length : ℕ → VnpuState → VnpuState
unfolding set_vec_len reject_length
write_vector_length val s =
    if s.ops.revision == revision_a
    then if val == 8 then set_vec_len val s else reject_length s
    else if s.ops.revision == revision_b
    then if val == 8 || val == 16 then set_vec_len val s else reject_length s
    else s

-- `val & (0U - val)` of the four low bits.
unfoldable pub lowest_fault : ℕ → ℕ
lowest_fault val = let v = bit_and val 0x0F in u32 (bit_and v (neg64 v))

unfoldable pub write_register : ℕ → Register → ℕ → VnpuState → VnpuState
unfolding do_reset do_start write_vector_length
write_register now control val s =
    if truthy (bit_and val control_reset)
    then do_reset s
    else if truthy (bit_and val control_start)
    then do_start now s
    else s
write_register now irq_status val s =
    update_irq (record s { irq_status = u32 (bit_and s.irq_status (not64 val)) })
write_register now irq_enable val s = update_irq (record s { irq_enable = u32 (bit_and val 0x3) })
write_register now job_id val s = record s { job_ib = u32 val }
write_register now vector_length val s = write_vector_length val s
write_register now (input_a i) val s = record s { input_a = set s.input_a i (u32 val) }
write_register now (input_b i) val s = record s { input_b = set s.input_b i (u32 val) }
write_register now fault_control val s = record s { fault_control = lowest_fault val }
write_register now _ val s = s

unfoldable pub mmio_write : ℕ → VnpuState → ℕ → ℕ → ℕ → VnpuState
mmio_write now s addr val size =
    if not (size == 4) then s else write_register now (decode addr) val s
