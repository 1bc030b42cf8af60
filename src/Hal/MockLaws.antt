-- ===== src/Hal/MockLaws.antt =====
-- What `MockVnpuDevice` keeps and computes.
use virtual_silicon_validati.Base.{
  ℕ, ◌+◌, ◌-◌, ◌*◌, ◌^◌, ◌≤◌, ◌≡◌, ◌↔◌, ◌∙◌, sym, refl, ap, List, [], ◌∷◌, none, length, All, arith,
}
use virtual_silicon_validati.Base.Int.{
  ℤ, pos, negsuc, ◌+ℤ◌, ◌*ℤ◌, ◌≤ℤ◌, Within, +ℤ_assoc, +ℤ-zero, zero-+ℤ,
}
use virtual_silicon_validati.Base.Word.{u64}
use virtual_silicon_validati.Device.Dot.{mac}
use virtual_silicon_validati.Device.Timer.{corrupt}
use virtual_silicon_validati.Device.Faults.{flipped, corrupt_lem}
use virtual_silicon_validati.Device.Product.{dot, mac_lem}
use virtual_silicon_validati.Hal.Types.{
  DotProductResult, FaultType, no_fault, irq_drop, stuck_busy, corrupt_result, force_error,
  fault_bits, DeviceStats, device_error, vnpu_error, Result, ok, throws, validate, IsI8,
}
use virtual_silicon_validati.Hal.Mock.{
  MockVnpuDevice, fresh, dot_from, dot_product, run_valid, run_dot, reset, set_fault,
}

-- The arguments that `vnpu_run_dot` takes.
pub record IsArguments (a b : List ℤ) (timeout : ℤ) : Type 0 where
  pub a_length : length a ≡ 8
  pub b_length : length b ≡ 8
  pub timeout_pos : pos 1 ≤ℤ timeout
  pub timeout_max : timeout ≤ℤ pos 1000

-- The checks let through eight elements on each side and a timeout from 1 to 1000 ms, and nothing
-- else.
pub validate-none_iff :
    (a b : List ℤ) (timeout : ℤ) → (validate a b timeout ≡ none) ↔ IsArguments a b timeout
unfolding validate
validate-none_iff a b timeout = (λ h. ground arith, λ h. ground arith)

IsI8-Within : (x : ℤ) → IsI8 x → Within 128 x
IsI8-Within (pos n) h = omega arith
IsI8-Within (negsuc n) h = omega arith

dot_from_lem :
    (xs ys : List ℤ) (n : ℕ) (r : ℤ)
    → n + length xs * 16384 ≤ 2 ^ 31 - 1
    → Within n r
    → All IsI8 xs
    → All IsI8 ys
    → (dot_from xs ys r ≡ r +ℤ dot xs ys) × Within (n + length xs * 16384) (dot_from xs ys r)
unfolding dot_from
dot_from_lem [] ys n r small h p q = (sym (+ℤ-zero r), omega arith)
dot_from_lem (x ∷ xs) [] n r small h p q = (sym (+ℤ-zero r), omega arith)
dot_from_lem (x ∷ xs) (y ∷ ys) n r small h p q =
    let (e, w) = mac_lem n r x y (omega arith) h (IsI8-Within x p.0) (IsI8-Within y q.0) in
    let (f, v) = dot_from_lem xs ys (n + 16384) (mac r x y) (omega arith) w p.1 q.1 in
    (f ∙ ap (λ t. t +ℤ dot xs ys) e ∙ +ℤ_assoc r (x *ℤ y) (dot xs ys), omega (arith, v))

-- The mock's `dot_product` is the exact dot product.
dot_product-dot :
    (a b : List ℤ)
    → length a ≡ 8
    → All IsI8 a
    → All IsI8 b
    → (dot_product a b ≡ dot a b) × Within (8 * 16384) (dot a b)
unfolding dot_product
dot_product-dot a b l p q =
    let (e, w) = dot_from_lem a b 0 (pos 0) (omega (arith, l)) (omega arith) p q in
    let f = e ∙ zero-+ℤ (dot a b) in (f, omega (arith, rw f at w, l))

corrupt-dot :
    (a b : List ℤ)
    → length a ≡ 8
    → All IsI8 a
    → All IsI8 b
    → corrupt (dot_product a b) ≡ flipped (dot a b)
corrupt-dot a b l p q =
    let (e, w) = dot_product-dot a b l p q in rw e (corrupt_lem (dot a b) (omega (arith, w)))

-- What a run does under each fault: the answer, and the counters one higher.
abbrev pub answer : FaultType → ℤ → Result DotProductResult
answer no_fault value = ok (record { result = value; device_error = pos 0; status = 0 })
answer corrupt_result value =
    ok (record { result = flipped value; device_error = pos 0; status = 0 })
answer irq_drop value = throws (vnpu_error device_error "timeout" 0 0)
answer stuck_busy value = throws (vnpu_error device_error "timeout" 0 0)
answer force_error value = throws (vnpu_error device_error "force error" 0 0)

abbrev pub counted : FaultType → DeviceStats → DeviceStats
counted no_fault s = record s {
  submitted = u64 (s.submitted + 1);
  completed = u64 (s.completed + 1);
}
counted corrupt_result s = record s {
  submitted = u64 (s.submitted + 1);
  completed = u64 (s.completed + 1);
}
counted force_error s = record s {
  submitted = u64 (s.submitted + 1);
  device_error = u64 (s.device_error + 1);
}
counted _ s = record s { submitted = u64 (s.submitted + 1); timed_out = u64 (s.timed_out + 1) }

-- On valid arguments the mock answers with the exact dot product, with its lowest bit flipped under
-- `corrupt_result`, and with a device error under the other faults; every run counts as submitted
-- and in exactly one of the three other counters. The fault stays set.
pub run_dot_lem :
    (a b : List ℤ) (timeout : ℤ) (dev : MockVnpuDevice) (f : FaultType)
    → IsArguments a b timeout
    → All IsI8 a
    → All IsI8 b
    → dev.fault_mask ≡ fault_bits f
    → run_dot a b timeout dev ≡ (answer f (dot a b), record dev { stats = counted f dev.stats })
unfolding run_dot run_valid
run_dot_lem a b timeout dev f args p q e = ground (
  arith,
  (validate-none_iff a b timeout).1 args,
  (dot_product-dot a b args.a_length p q).0,
  corrupt-dot a b args.a_length p q,
)

pub data Call : Type 0 where
  runs : List ℤ → List ℤ → ℤ → Call
  resets : Call
  sets_fault : FaultType → Call

abbrev pub step : MockVnpuDevice → Call → MockVnpuDevice
step dev (runs a b timeout) = (run_dot a b timeout dev).1
step dev resets = reset dev
step dev (sets_fault f) = set_fault f dev

abbrev pub run : MockVnpuDevice → List Call → MockVnpuDevice
run dev [] = dev
run dev (c ∷ cs) = run (step dev c) cs

-- Each submission has ended in one way, at the width of the counters.
abbrev pub IsBalanced : DeviceStats → Type 0
IsBalanced s = s.submitted ≡ u64 (s.completed + s.timed_out + s.device_error)

step-IsBalanced :
    (dev : MockVnpuDevice) (c : Call) → IsBalanced dev.stats → IsBalanced (step dev c).stats
unfolding run_dot run_valid reset set_fault
step-IsBalanced dev (runs a b timeout) h = ground arith
step-IsBalanced dev _ h = ground arith

run-IsBalanced :
    (cs : List Call) (dev : MockVnpuDevice) → IsBalanced dev.stats → IsBalanced (run dev cs).stats
run-IsBalanced [] dev h = h
run-IsBalanced (c ∷ cs) dev h = run-IsBalanced cs (step dev c) (step-IsBalanced dev c h)

-- After any sequence of runs, resets and fault settings on a new mock, the counter of submitted runs
-- is the sum of the completed, the timed-out and the failed ones, modulo 2 ^ 64.
pub fresh-IsBalanced : (cs : List Call) → IsBalanced (run fresh cs).stats
fresh-IsBalanced cs = run-IsBalanced cs fresh refl
