-- ===== src/Examples/Device.antt =====
-- Runs of the device.
use virtual_silicon_validati.Base.{◌*◌, ◌≡◌, inl, refl, true, false, none, some, [], ◌∷◌, arith}
use virtual_silicon_validati.Base.Int.{pos, negsuc, Within, ◌+ℤ◌, ◌*ℤ◌}
use virtual_silicon_validati.Device.State.{update_irq, pending}
use virtual_silicon_validati.Device.Dot.{dot_product}
use virtual_silicon_validati.Device.Mmio.{mmio_read, mmio_write}
use virtual_silicon_validati.Device.Timer.{expire}
use virtual_silicon_validati.Device.Lifecycle.{realize}
use virtual_silicon_validati.Device.Product.{elements, dot_product_lem}
use virtual_silicon_validati.Device.Steps.{Step, Reach, here, next, write}
use virtual_silicon_validati.Device.Invariant.{IsValid, expire_lem, Reach-IsValid}
use virtual_silicon_validati.Device.Registers.{
  bit0, bit1, irq_status_w1c, control-reset, control-start, vector_length_lem, input-readback,
}
use virtual_silicon_validati.Device.Machine.{
  view, label, follow, view-follow, error_until_reset, late_reject-done,
}
use virtual_silicon_validati.Base.Word.{to_i32, u32}
use virtual_silicon_validati.Device.Protocol.{operate, operate-expires}
use virtual_silicon_validati.Examples.Data.{
  with_fault, device_b, device_b-IsValid, running, running-IsValid, finished, broken,
}

dot_product_lem_example :
    (dot_product running ≡ (pos 18, record running { status = 2; irq_status = 1 }))
    × Within (8 * 16384) (pos 18)
unfolding elements ◌+ℤ◌ ◌*ℤ◌
dot_product_lem_example = dot_product_lem running (inl refl)

-- A guest that enables its interrupts and starts an operation.
guest_start : Reach (mmio_write 5 (mmio_write 0 realize 0x018 3 4) 0x00C 1 4)
guest_start =
    next (next here (write 0 realize 0x018 3 4))
      (write 5 (mmio_write 0 realize 0x018 3 4) 0x00C 1 4)

Reach-IsValid_example : IsValid (mmio_write 5 (mmio_write 0 realize 0x018 3 4) 0x00C 1 4)
Reach-IsValid_example = Reach-IsValid guest_start

-- A START while BUSY.
view-follow_example :
    let s = mmio_write 5 (mmio_write 0 realize 0x018 3 4) 0x00C 1 4 in
    view (mmio_write 9 s 0x00C 1 4) ≡ follow (label (write 9 s 0x00C 1 4)) (view s)
view-follow_example =
    view-follow guest_start
      (write 9 (mmio_write 5 (mmio_write 0 realize 0x018 3 4) 0x00C 1 4) 0x00C 1 4)

expire_lem_example : expire running ≡ finished
unfolding update_irq elements ◌+ℤ◌ ◌*ℤ◌
expire_lem_example = expire_lem running running-IsValid

error_until_reset_example :
    ((mmio_write 3 broken 0x00C 1 4).status ≡ 3)
    × ((mmio_write 3 broken 0x00C 1 4).dot_timer ≡ none)
error_until_reset_example =
    error_until_reset (write 3 broken 0x00C 1 4) refl refl (λ r. omega (arith, r))

late_reject-done_example :
    let t = mmio_write 50 running 0x024 12 4 in
    (t.status ≡ 3) × (t.dot_timer ≡ some 100) × Step t (expire t) × ((expire t).status ≡ 2)
late_reject-done_example =
    late_reject-done 50 100 running 12 running-IsValid refl refl refl (omega arith) (omega arith)

-- 1 * 2 + 2 * 2 + 3 * 2 + 4 * 2 - 1 * 2 + 5 - 128, under FAULT_IRQ_DROP.
operate-expires_example :
    let t =
      operate 3 4
        (0x0403_0201 ∷ 0xFF ∷ 1 ∷ 0x0100_0000 ∷ [])
        (0x0202_0202 ∷ 0x0202_0202 ∷ 5 ∷ 0x8000_0000 ∷ [])
        (with_fault 1) in
    (t.status ≡ 1)
    × (t.dot_timer ≡ some 103)
    × ((expire t).status ≡ 2)
    × ((expire t).irq_line ≡ false)
    × ((expire t).dot_timer ≡ none)
    × (to_i32 (u32 (mmio_read (expire t) 0x140 4).0) ≡ negsuc 104)
unfolding elements ◌+ℤ◌ ◌*ℤ◌
operate-expires_example =
    operate-expires 3 4 (0x0403_0201 ∷ 0xFF ∷ 1 ∷ 0x0100_0000 ∷ [])
      (0x0202_0202 ∷ 0x0202_0202 ∷ 5 ∷ 0x8000_0000 ∷ []) (with_fault 1) (ground arith)

irq_status_w1c_example :
    let t = mmio_write 0 finished 0x014 1 4 in
    ((bit0 t.irq_status) ≡ false)
    × ((bit1 t.irq_status) ≡ false)
    × (t ≡ record finished { irq_status = t.irq_status; irq_line = t.irq_line })
    × (t.irq_line ≡ pending t)
irq_status_w1c_example = irq_status_w1c 0 finished 1 (omega arith)

control-reset_example :
    mmio_write 0 running 0x00C 3 4 ≡ record running { dot_timer = none; status = 0 }
control-reset_example = control-reset 0 running 3 refl

control-start_example :
    mmio_write 7 running 0x00C 1 4
    ≡ record running { irq_status = 2; err_code = 2; irq_line = true }
control-start_example = control-start 7 running 1 (omega arith) refl refl

vector_length_lem_example :
    mmio_write 0 device_b 0x024 8 4
    ≡ record device_b { ops = record { revision = 2; capabilities = 0x7D; vec_len = 8 } }
vector_length_lem_example = vector_length_lem 0 device_b 8 device_b-IsValid

input-readback_example :
    let t = mmio_write 0 (mmio_write 0 device_b 0x108 0x1_0000_0007 4) 0x128 9 4 in
    ((mmio_read t 0x108 4).0 ≡ 7) × ((mmio_read t 0x128 4).0 ≡ 9)
input-readback_example = input-readback 0 device_b 2 0x1_0000_0007 9 (omega arith) device_b-IsValid
