-- ===== src/Hal/LinuxLaws.antt =====
-- The request that `LinuxVnpuDevice` makes, and what it makes of the answer.
use virtual_silicon_validati.Base.{
  ℕ, ◌≤◌, ◌≡◌, List, Bool, true, false, ◌==◌, if◌then◌else◌, All, arith,
}
use virtual_silicon_validati.Base.Int.{ℤ, pos, negsuc}
use virtual_silicon_validati.Base.Word.{of_i32}
use virtual_silicon_validati.Device.Product.{elements}
use virtual_silicon_validati.Driver.Uapi.{VnpuDotRequest}
use virtual_silicon_validati.Driver.Requests.{IsRequest}
use virtual_silicon_validati.Hal.Types.{ok, IsI8}
use virtual_silicon_validati.Hal.PackLaws.{pack-elements}
use virtual_silicon_validati.Hal.MockLaws.{IsArguments}
use virtual_silicon_validati.Hal.Linux.{
  Syscalls, Reply, negative, request, run_dot_error, run_dot_answer, dot_result,
}

timeout_word : (t : ℤ) (a b : List ℤ) → IsArguments a b t → (1 ≤ of_i32 t) × (of_i32 t ≤ 1000)
timeout_word (pos n) a b h = (omega arith, omega arith)
timeout_word (negsuc n) a b h = absurd (omega arith)

-- For every vector and timeout that passes its own checks, the HAL builds a request that the driver
-- accepts on either revision, with both inputs packed so that the device unpacks exactly the
-- caller's elements.
pub request-IsRequest :
    (revision : ℕ) (a b : List ℤ) (t : ℤ)
    → IsArguments a b t
    → All IsI8 a
    → All IsI8 b
    → IsRequest revision (request a b t)
      × (elements 2 0 (request a b t).input_a ≡ a)
      × (elements 2 0 (request a b t).input_b ≡ b)
unfolding request
request-IsRequest revision a b t h p q =
    let w = timeout_word t a b h in
    (
      omega (arith, h.a_length, w),
      (pack-elements a h.a_length p).1,
      (pack-elements b h.b_length q).1,
    )

-- The error numbers and driver statuses for which `vnpu_run_dot` throws.
abbrev pub is_thrown : ℕ → ℕ → Bool
is_thrown errno status =
    if errno == 110
    then true
    else if errno == 14
    then true
    else if errno == 5
    then true
    else if errno == 22
    then (if status == 3 then true else if status == 4 then true else status == 5)
    else false

module _ (sys : Syscalls) where
  -- An `ioctl` that fails in any other way is reported as a result: no exception, and the status,
  -- the value and the device error that stand in the request.
  pub run_dot_answer_lem :
      (r : Reply sys.State VnpuDotRequest)
      → negative r.ret ≡ true
      → is_thrown r.errno r.arg.driver_status ≡ false
      → run_dot_answer sys r ≡ ok (dot_result r.arg)
  unfolding run_dot_answer run_dot_error
  run_dot_answer_lem r n h = ground arith
