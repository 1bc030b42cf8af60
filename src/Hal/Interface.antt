-- ===== src/Hal/Interface.antt =====
-- `IVnpuDevice` of vnpu-hal.hpp and its two implementations, and what a caller of it sees.
use virtual_silicon_validati.Base.{◌≡◌, refl, List, [], ◌∷◌, Option, none, some}
use virtual_silicon_validati.Base.Int.{ℤ}
use virtual_silicon_validati.Hal.Types.{
  DeviceInfo, DotProductResult, FaultType, DeviceStats, Result, ok,
}
use virtual_silicon_validati.Hal.Linux.{
  Syscalls, vnpu_get_info, vnpu_run_dot, vnpu_reset, vnpu_set_fault, vnpu_get_stats,
}
use virtual_silicon_validati.Hal.Mock.{
  MockVnpuDevice, get_info, run_dot, reset, set_fault, get_stats,
}

-- A method may never return, and may throw.
abbrev pub Method : Type 0 → Type 0 → Type 0
Method State A = State → Option (Result A × State)

pub record IVnpuDevice : Type 1 where
  pub State : Type 0
  pub vnpu_get_info : Method State DeviceInfo
  pub vnpu_run_dot : List ℤ → List ℤ → ℤ → Method State DotProductResult
  pub vnpu_reset : Method State (Unit {0})
  pub vnpu_set_fault : FaultType → Method State (Unit {0})
  pub vnpu_get_stats : Method State DeviceStats

abbrev pub linux_device : Syscalls → IVnpuDevice
linux_device sys = record {
  State = sys.State;
  vnpu_get_info = vnpu_get_info sys;
  vnpu_run_dot = vnpu_run_dot sys;
  vnpu_reset = vnpu_reset sys;
  vnpu_set_fault = vnpu_set_fault sys;
  vnpu_get_stats = vnpu_get_stats sys;
}

abbrev pub mock_device : IVnpuDevice
mock_device = record {
  State = MockVnpuDevice;
  vnpu_get_info = λ dev. some (ok (get_info dev), dev);
  vnpu_run_dot = λ a b timeout dev. some (run_dot a b timeout dev);
  vnpu_reset = λ dev. some (ok tt, reset dev);
  vnpu_set_fault = λ type dev. some (ok tt, set_fault type dev);
  vnpu_get_stats = λ dev. some (ok (get_stats dev), dev);
}

-- A call of the interface, and its answer.
pub data Call : Type 0 where
  gets_info : Call
  runs_dot : List ℤ → List ℤ → ℤ → Call
  resets : Call
  sets_fault : FaultType → Call
  gets_stats : Call

pub data Answer : Type 0 where
  info : Result DeviceInfo → Answer
  dot : Result DotProductResult → Answer
  unit : Result (Unit {0}) → Answer
  stats : Result DeviceStats → Answer

abbrev as_answer :
    {A S : Type 0} → (Result A → Answer) → Option (Result A × S) → Option (Answer × S)
as_answer f none = none
as_answer f (some (r, s)) = some (f r, s)

module _ (dev : IVnpuDevice) where
  abbrev pub invoke : Call → dev.State → Option (Answer × dev.State)
  invoke gets_info s = as_answer info (dev.vnpu_get_info s)
  invoke (runs_dot a b timeout) s = as_answer dot (dev.vnpu_run_dot a b timeout s)
  invoke resets s = as_answer unit (dev.vnpu_reset s)
  invoke (sets_fault type) s = as_answer unit (dev.vnpu_set_fault type s)
  invoke gets_stats s = as_answer stats (dev.vnpu_get_stats s)

  -- The answers to a sequence of calls; `none` where one of them never returns.
  unfoldable pub invoke_all : List Call → dev.State → Option (List Answer × dev.State)
  invoke_all [] s = some ([], s)
  invoke_all (c ∷ cs) s = elim (invoke c s) [
    | none ↦ none
    | some (a, s') ↦ elim (invoke_all cs s') [ none ↦ none | some (as', s'') ↦ some (a ∷ as', s'') ]
  ]

  -- A first call that is answered, and the calls behind it.
  pub invoke_all-next :
      (c : Call) (cs : List Call) (s s' s'' : dev.State) (a : Answer) (answers : List Answer)
      → invoke c s ≡ some (a, s')
      → invoke_all cs s' ≡ some (answers, s'')
      → invoke_all (c ∷ cs) s ≡ some (a ∷ answers, s'')
  unfolding invoke_all
  invoke_all-next c cs s s' s'' a answers e f = rw (invoke_all, e, f) refl
