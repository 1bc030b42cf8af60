-- ===== src/Examples/Hal.antt =====
-- Runs of the HAL.
use virtual_silicon_validati.Base.{ℕ, ◌≡◌, refl, List, [], ◌∷◌, arith}
use virtual_silicon_validati.Base.Int.{pos, negsuc, ◌+ℤ◌, ◌*ℤ◌}
use virtual_silicon_validati.Device.Product.{elements}
use virtual_silicon_validati.Device.Invariant.{IsWords}
use virtual_silicon_validati.Driver.Uapi.{VnpuDotRequest}
use virtual_silicon_validati.Driver.Requests.{IsRequest}
use virtual_silicon_validati.Hal.Types.{ok, corrupt_result, irq_drop}
use virtual_silicon_validati.Hal.Pack.{pack_int8_input, pack_words, pack_bytes}
use virtual_silicon_validati.Hal.PackLaws.{pack-elements}
use virtual_silicon_validati.Hal.Mock
use virtual_silicon_validati.Hal.MockLaws.{
  IsArguments, run_dot_lem, run, runs, resets, sets_fault, IsBalanced, fresh-IsBalanced,
}
use virtual_silicon_validati.Hal.Linux.{Reply, request}
use virtual_silicon_validati.Hal.LinuxLaws.{request-IsRequest}
use virtual_silicon_validati.System.Userspace.{Stack}
use virtual_silicon_validati.Examples.Data.{device_b, machine, driver_b, ones, extremes}

abbrev packed : List ℕ
packed = 0xFF00_807F ∷ 0xC040_F605 ∷ 0 ∷ 0 ∷ []

packed_run : pack_int8_input extremes ≡ packed
unfolding pack_int8_input pack_words pack_bytes
packed_run = refl

pack-elements_example :
    IsWords (pack_int8_input extremes)
    × (elements 2 0 (pack_int8_input extremes) ≡ extremes)
    × (elements 2 2 (pack_int8_input extremes) ≡ elements 2 2 (0 ∷ 0 ∷ 0 ∷ 0 ∷ []))
pack-elements_example = pack-elements extremes refl (ground arith)

ones-IsArguments : IsArguments ones extremes (pos 500)
ones-IsArguments = ground arith

-- The sum of the extremes is -7, and -8 with its lowest bit flipped.
run_dot_lem_example :
    Mock.run_dot ones extremes (pos 500) (Mock.set_fault corrupt_result Mock.fresh) ≡ (
      ok (record { result = negsuc 7; device_error = pos 0; status = 0 }),
      record {
        fault_mask = 4;
        stats = record {
          submitted = 1;
          completed = 1;
          timed_out = 0;
          device_error = 0;
          resets = 0;
        };
      },
    )
unfolding Mock.set_fault ◌+ℤ◌ ◌*ℤ◌
run_dot_lem_example =
    run_dot_lem ones extremes (pos 500) (Mock.set_fault corrupt_result Mock.fresh) corrupt_result
      ones-IsArguments (ground arith) (ground arith) refl

fresh-IsBalanced_example :
    IsBalanced
      (run Mock.fresh (sets_fault irq_drop ∷ runs ones extremes (pos 9) ∷ resets ∷ [])).stats
fresh-IsBalanced_example =
    fresh-IsBalanced (sets_fault irq_drop ∷ runs ones extremes (pos 9) ∷ resets ∷ [])

request-IsRequest_example :
    IsRequest 1 (request ones extremes (pos 500))
    × (elements 2 0 (request ones extremes (pos 500)).input_a ≡ ones)
    × (elements 2 0 (request ones extremes (pos 500)).input_b ≡ extremes)
request-IsRequest_example =
    request-IsRequest 1 ones extremes (pos 500) ones-IsArguments (ground arith) (ground arith)

abbrev stack : Stack
stack = record { drv = driver_b; hw = machine device_b; errno = 0 }

-- A failure with EINVAL and no driver status.
abbrev refused : Reply Stack VnpuDotRequest
refused = record {
  ret = negsuc 0;
  errno = 22;
  arg = request ones extremes (pos 500);
  state = stack;
}
