-- ===== src/System/MockDevice.antt =====
-- The mock of the HAL against the device that it stands for.
use virtual_silicon_validati.Base.{ℕ, ◌≡◌, refl, inl, List, ◌&&◌, ◌==◌, if◌then◌else◌, All, arith}
use virtual_silicon_validati.Base.Int.{ℤ, pos}
use virtual_silicon_validati.Base.Word.{u32, to_i32}
use virtual_silicon_validati.Device.State.{VnpuState, status_idle}
use virtual_silicon_validati.Device.Mmio.{mmio_read}
use virtual_silicon_validati.Device.Timer.{expire}
use virtual_silicon_validati.Device.Product.{elements, dot}
use virtual_silicon_validati.Device.Invariant.{IsValid}
use virtual_silicon_validati.Device.Protocol.{operate, IsOperable, operate-expires}
use virtual_silicon_validati.Hal.Types.{
  FaultType, fault_bits, DotProductResult, Result, ok, throws, vnpu_error, device_error, IsI8,
}
use virtual_silicon_validati.Hal.Pack.{pack_int8_input}
use virtual_silicon_validati.Hal.PackLaws.{pack-elements}
use virtual_silicon_validati.Hal.Mock.{MockVnpuDevice, run_dot}
use virtual_silicon_validati.Hal.MockLaws.{IsArguments, run_dot_lem}

-- What a caller is told of a device that has ended an operation: the result, where it is DONE and
-- raises its interrupt, a forced error in ERROR, and a timeout where no interrupt comes.
abbrev pub told : VnpuState → Result DotProductResult
told s =
    if s.irq_line && s.status == 2
    then ok
        (record { result = to_i32 (u32 (mmio_read s 0x140 4).0); device_error = pos 0; status = 0 })
    else throws (vnpu_error device_error (if s.status == 3 then "force error" else "timeout") 0 0)

-- The mock answers as the device does. For eight signed bytes on each side, a timeout that the HAL
-- takes and each of the five faults, the mock with that fault answers with just what a device with
-- that fault ends in, when a guest runs the operation on the words that the HAL packs, and its timer
-- expires.
pub mock-agrees :
    (now : ℕ) (a b : List ℤ) (t : ℤ) (s : VnpuState) (mock : MockVnpuDevice) (f : FaultType)
    → IsArguments a b t
    → All IsI8 a
    → All IsI8 b
    → IsValid s
    → s.status ≡ status_idle
    → s.fault_control ≡ fault_bits f
    → mock.fault_mask ≡ fault_bits f
    → (run_dot a b t mock).0
      ≡ told (expire (operate now 2 (pack_int8_input a) (pack_int8_input b) s))
mock-agrees now a b t s mock f h p q v i e g =
    let (a_words, a_read, a_rest) = pack-elements a h.a_length p in
    let (b_words, b_read, b_rest) = pack-elements b h.b_length q in
    let same : dot (elements 2 0 (pack_int8_input a)) (elements 2 0 (pack_int8_input b)) ≡ dot a b =
      λ i. dot (a_read i) (b_read i) in
    let operable : IsOperable 2 (pack_int8_input a) (pack_int8_input b) s = record {
      words = inl refl;
      accepted = ground (arith, v.known_revision);
      a_words = a_words;
      b_words = b_words;
      valid = v;
      is_idle = i;
    } in
    let ends = operate-expires now 2 (pack_int8_input a) (pack_int8_input b) s operable in
    ground (arith, same, ends, run_dot_lem a b t mock f h p q g)
