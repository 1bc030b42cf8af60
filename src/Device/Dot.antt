-- ===== src/Device/Dot.antt =====
-- `unpack_i8` and `vnpu_dot_product` of vnpu.c.
use virtual_silicon_validati.Base.{
  ℕ, zero, suc, ◌+◌, ◌-◌, ◌*◌, ◌/◌, ◌^◌, bit_and, ◌==◌, if◌then◌else◌, get_or,
}
use virtual_silicon_validati.Base.Int.{ℤ, pos, ◌+ℤ◌, ◌*ℤ◌}
use virtual_silicon_validati.Base.Word.{u32, to_i32, wrap_i32}
use virtual_silicon_validati.Device.State.{
  VnpuState, truthy, status_done, status_error, irq_completion, irq_error, err_invalid_length,
}

unfoldable pub unpack_i8 : ℕ → ℕ → ℤ
unpack_i8 input shift =
    let x = bit_and (input / 2 ^ (shift * 8)) 0xFF in
    if truthy (bit_and x 0x80) then to_i32 (u32 (x + 2 ^ 32 - 0x100)) else to_i32 x

-- `result += x * y` at `int32_t`.
unfoldable pub mac : ℤ → ℤ → ℤ → ℤ
mac result x y = wrap_i32 (result +ℤ wrap_i32 (x *ℤ y))

-- The four products of one round.
unfoldable pub dot_word : ℕ → ℕ → ℤ → ℤ
dot_word a b result =
    let r0 = mac result (unpack_i8 a 0) (unpack_i8 b 0) in
    let r1 = mac r0 (unpack_i8 a 1) (unpack_i8 b 1) in
    let r2 = mac r1 (unpack_i8 a 2) (unpack_i8 b 2) in mac r2 (unpack_i8 a 3) (unpack_i8 b 3)

-- The loop from index `i`, with its rounds left.
unfoldable pub dot_loop : ℕ → ℕ → VnpuState → ℤ → ℤ × VnpuState
dot_loop zero i s result = (result, s)
dot_loop (suc left) i s result =
    dot_loop left (i + 1) (record s { status = status_done; irq_status = irq_completion })
      (dot_word (get_or s.input_a i 0) (get_or s.input_b i 0) result)

unfoldable pub dot_product : VnpuState → ℤ × VnpuState
unfolding dot_loop
dot_product s =
    if s.ops.vec_len == 0x08
    then dot_loop 2 0 s (pos 0)
    else if s.ops.vec_len == 0x10
    then dot_loop 4 0 s (pos 0)
    else (
      pos 0,
      record s { status = status_error; irq_status = irq_error; err_code = err_invalid_length },
    )
