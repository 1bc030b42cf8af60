-- ===== src/System/Agreement.antt =====
-- The mock against the HAL on the driver and the device, call by call, as the driver is.
use Prim.Native.String.{String}
use virtual_silicon_validati.Base.{
  ℕ, ◌≡◌, ◌≢◌, ◌+◌, refl, sym, ap, false, List, [], ◌∷◌, Option, none, some, All,
}
use virtual_silicon_validati.Base.Int.{ℤ}
use virtual_silicon_validati.Base.Word.{u64}
use virtual_silicon_validati.Driver.State.{Kernel}
use virtual_silicon_validati.Hal.Types.{
  fault_bits, DeviceStats, ok, throws, vnpu_error, validation_error, validate,
}
use virtual_silicon_validati.Hal.Linux.{vnpu_run_dot}
use virtual_silicon_validati.Hal.Mock.{
  MockVnpuDevice, get_info, run_dot, reset, set_fault, get_stats,
}
use virtual_silicon_validati.Hal.MockLaws.{IsArguments, validate-none_iff}
use virtual_silicon_validati.Hal.Interface.{
  linux_device, mock_device, Call, gets_info, runs_dot, resets, sets_fault, gets_stats, Answer,
  info, dot, unit, stats, invoke, invoke_all, invoke_all-next,
}
use virtual_silicon_validati.System.Reset.{quiet}
use virtual_silicon_validati.System.Machine.{Machine}
use virtual_silicon_validati.System.Userspace.{Stack, syscalls}
use virtual_silicon_validati.System.Calls.{
  stats_of, get_info_lem, reset_lem, set_fault_lem, get_stats_lem,
}

-- The stack and the mock hold the same: the fault and the counters, and no call is under way.
pub record Corresponds (s : Stack) (mock : MockVnpuDevice) : Type 0 where
  pub free : s.drv.mutex ≡ false
  pub fault : s.hw.dev.fault_control ≡ mock.fault_mask
  pub counters : stats_of s.drv ≡ mock.stats

-- Every call but a dot product whose arguments the HAL takes.
abbrev pub Stays : Call → Type 0
Stays (runs_dot a b timeout) = ¬ IsArguments a b timeout
Stays _ = Unit

some_of : {A : Type 0} (o : Option A) → o ≢ none → (x : A) × (o ≡ some x)
some_of none h = absurd (h refl)
some_of (some x) h = (x, refl)

module _ (k : Kernel Machine) (node : List ℕ → Option ℕ) where
  abbrev Agrees : Call → Stack → MockVnpuDevice → Type 0
  Agrees c s m =
      (a : Answer) × (s' : Stack) × (m' : MockVnpuDevice) × (invoke (linux_device (syscalls k node))
          c s
        ≡ some (a, s'))
      × (invoke mock_device c m ≡ some (a, m'))
      × Corresponds s' m'

  refused_with :
      (a b : List ℤ) (t : ℤ) (message : String) (s : Stack) (m : MockVnpuDevice)
      → validate a b t ≡ some message
      → Corresponds s m
      → Agrees (runs_dot a b t) s m
  unfolding vnpu_run_dot run_dot
  refused_with a b t message s m e c = (
    dot (throws (vnpu_error validation_error message 0 0)),
    s,
    m,
    rw (vnpu_run_dot, e) refl,
    rw (run_dot, e) refl,
    c,
  )

  refused :
      (a b : List ℤ) (t : ℤ) (s : Stack) (m : MockVnpuDevice)
      → Corresponds s m
      → ¬ IsArguments a b t
      → Agrees (runs_dot a b t) s m
  refused a b t s m c h =
      let (message, e) = some_of (validate a b t) (λ e. h ((validate-none_iff a b t).0 e)) in
      refused_with a b t message s m e c

  step : (c : Call) (s : Stack) (m : MockVnpuDevice) → Corresponds s m → Stays c → Agrees c s m
  unfolding reset set_fault get_info get_stats
  step gets_info s m c h = (
    info (ok (record { abi_version = 1; device_id = 0x564E5055; revision = 0; capabilities = 0 })),
    s,
    m,
    rw (get_info_lem k node s) refl,
    refl,
    c,
  )
  step (runs_dot a b t) s m c h = refused a b t s m c h
  step resets s m c h = (
    unit (ok tt),
    record s {
      drv = record s.drv { irq_raised = 0; last_irq = 0; reset_num = u64 (s.drv.reset_num + 1) };
      hw = quiet s.hw;
    },
    reset m,
    rw (reset_lem k node s, c.free) refl,
    refl,
    record {
      free = c.free;
      fault = refl;
      counters =
          ap {A = DeviceStats} {B = DeviceStats} (λ t. record t { resets = u64 (t.resets + 1) })
            c.counters;
    },
  )
  step (sets_fault f) s m c h = (
    unit (ok tt),
    record s { hw = record s.hw { dev = record s.hw.dev { fault_control = fault_bits f } } },
    set_fault f m,
    rw (set_fault_lem k node f s c.free) refl,
    refl,
    record { free = c.free; fault = refl; counters = c.counters },
  )
  step gets_stats s m c h = (
    stats (ok (stats_of s.drv)),
    s,
    m,
    rw (get_stats_lem k node s) refl,
    ap (λ t. some (stats (ok t), m)) (sym c.counters),
    c,
  )

  -- From a driver whose mutex is free and a mock with the fault and the counters of the device and the
  -- driver, the HAL and the mock give the same answers, and both an answer to every call, for every
  -- sequence of calls without a dot product whose arguments pass the checks, and hold the same again
  -- at its end.
  pub linux-mock_agree :
      (cs : List Call) (s : Stack) (m : MockVnpuDevice)
      → Corresponds s m
      → All Stays cs
      → (answers : List Answer) × (s' : Stack) × (m' : MockVnpuDevice) × (invoke_all
            (linux_device (syscalls k node))
            cs
            s
          ≡ some (answers, s'))
        × (invoke_all mock_device cs m ≡ some (answers, m'))
        × Corresponds s' m'
  unfolding invoke_all
  linux-mock_agree [] s m c h = ([], s, m, refl, refl, c)
  linux-mock_agree (call ∷ cs) s m c h =
      let (a, s', m', e, f, c') = step call s m c h.0 in
      let (answers, s'', m'', g, i, c'') = linux-mock_agree cs s' m' c' h.1 in
      (
        a ∷ answers,
        s'',
        m'',
        invoke_all-next (linux_device (syscalls k node)) call cs s s' s'' a answers e g,
        invoke_all-next mock_device call cs m m' m'' a answers f i,
        c'',
      )
