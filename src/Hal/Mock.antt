-- ===== src/Hal/Mock.antt =====
-- `MockVnpuDevice` of vnpu-hal.cpp. A method returns what it returns or throws, and the device after.
use virtual_silicon_validati.Base.{ℕ, ◌+◌, List, ◌∷◌, none, some, ◌||◌, ◌==◌, if◌then◌else◌}
use virtual_silicon_validati.Base.Codes.{codes, same}
use virtual_silicon_validati.Base.Int.{ℤ, pos}
use virtual_silicon_validati.Base.Word.{u64}
use virtual_silicon_validati.Device.Dot.{mac}
use virtual_silicon_validati.Device.Timer.{corrupt}
use virtual_silicon_validati.Hal.Types.{
  DeviceInfo, DotProductResult, FaultType, no_fault, irq_drop, stuck_busy, corrupt_result,
  force_error, fault_bits, DeviceStats, device_error, validation_error, vnpu_error,
  std_runtime_error, Result, ok, throws, validate,
}

pub record MockVnpuDevice : Type 0 where
  pub fault_mask : ℕ
  pub stats : DeviceStats

-- A device that has just been constructed.
abbrev pub fresh : MockVnpuDevice
fresh = record {
  fault_mask = 0;
  stats = record { submitted = 0; completed = 0; timed_out = 0; device_error = 0; resets = 0 };
}

-- The constructor takes the one path, by `strcmp`.
unfoldable pub construct : List ℕ → Result MockVnpuDevice
construct path =
    if same path (codes "/dev/vnpu0")
    then ok fresh
    else throws (std_runtime_error (codes "open /dev/vnpu0"))

unfoldable pub get_info : MockVnpuDevice → DeviceInfo
get_info dev = record { abi_version = 1; device_id = 0x564E5055; revision = 0; capabilities = 0 }

-- The loop of `dot_product`; `run_dot` has checked that the lengths are the same.
unfoldable pub dot_from : List ℤ → List ℤ → ℤ → ℤ
dot_from (x ∷ xs) (y ∷ ys) result = dot_from xs ys (mac result x y)
dot_from _ _ result = result

unfoldable pub dot_product : List ℤ → List ℤ → ℤ
dot_product input_a input_b = dot_from input_a input_b (pos 0)

abbrev submitted : DeviceStats → DeviceStats
submitted s = record s { submitted = u64 (s.submitted + 1) }

abbrev completes : ℤ → MockVnpuDevice → Result DotProductResult × MockVnpuDevice
completes result dev =
    let s = submitted dev.stats in
    (
      ok (record { result = result; device_error = pos 0; status = 0 }),
      record dev { stats = record s { completed = u64 (s.completed + 1) } },
    )

-- `vnpu_run_dot` behind its checks, by the fault that is set.
unfoldable pub run_valid :
    List ℤ → List ℤ → MockVnpuDevice → Result DotProductResult × MockVnpuDevice
run_valid input_a input_b dev =
    let s = submitted dev.stats in
    if dev.fault_mask == fault_bits corrupt_result
    then completes (corrupt (dot_product input_a input_b)) dev
    else if dev.fault_mask == fault_bits stuck_busy || dev.fault_mask == fault_bits irq_drop
    then (
      throws (vnpu_error device_error "timeout" 0 0),
      record dev { stats = record s { timed_out = u64 (s.timed_out + 1) } },
    )
    else if dev.fault_mask == fault_bits force_error
    then (
      throws (vnpu_error device_error "force error" 0 0),
      record dev { stats = record s { device_error = u64 (s.device_error + 1) } },
    )
    else completes (dot_product input_a input_b) dev

unfoldable pub run_dot :
    List ℤ → List ℤ → ℤ → MockVnpuDevice → Result DotProductResult × MockVnpuDevice
run_dot input_a input_b timeout dev = elim (validate input_a input_b timeout) [
  | some message ↦ (throws (vnpu_error validation_error message 0 0), dev)
  | none ↦ run_valid input_a input_b dev
]

unfoldable pub reset : MockVnpuDevice → MockVnpuDevice
reset dev = record dev {
  stats = record dev.stats { resets = u64 (dev.stats.resets + 1) };
  fault_mask = fault_bits no_fault;
}

unfoldable pub set_fault : FaultType → MockVnpuDevice → MockVnpuDevice
set_fault type dev = record dev { fault_mask = fault_bits type }

unfoldable pub get_stats : MockVnpuDevice → DeviceStats
get_stats dev = dev.stats
