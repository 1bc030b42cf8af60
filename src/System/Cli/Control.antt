-- ===== src/System/Cli/Control.antt =====
-- `vnpuctl` reset, inject-fault, info and stats on the whole stack.
use virtual_silicon_validati.Base.{
  ℕ, ◌+◌, ◌<◌, ◌≡◌, ◌≢◌, refl, false, List, [], Option, none, some, length, get_or, leb,
  if◌then◌else◌, arith,
}
use virtual_silicon_validati.Base.Codes.{codes}
use virtual_silicon_validati.Driver.State.{Kernel}
use virtual_silicon_validati.Driver.Traces.{World, Event, IsUnused, run, run-IsUnused}
use virtual_silicon_validati.Base.Word.{u64}
use virtual_silicon_validati.System.Reset.{quiet}
use virtual_silicon_validati.Hal.Types.{FaultType, no_fault, fault_bits}
use virtual_silicon_validati.Hal.Linux.{destruct}
use virtual_silicon_validati.Ctl.Faults.{fault_name, parse_fault_type_iff}
use virtual_silicon_validati.Ctl.Decimal.{show_nat, show_to}
use virtual_silicon_validati.Ctl.Output.{info_text, stats_text, fault_text, success_text}
use virtual_silicon_validati.Ctl.Main.{printed, answer, inject, inject_fault_command, leave, main}
use virtual_silicon_validati.System.Machine.{Machine, device_bus}
use virtual_silicon_validati.System.Userspace.{Stack, syscalls}
use virtual_silicon_validati.System.Calls.{
  stats_of, reset_lem, set_fault_lem, get_info_lem, get_stats_lem,
}
use virtual_silicon_validati.System.Cli.{
  IsCommand, device_path, main-dispatch, dispatch-inject, dispatch-reset, dispatch-info,
  dispatch-stats,
}

-- The answer of `info`: 1447972949 is 0x564E5055.
abbrev pub info_answer : List ℕ
info_answer =
    codes
      "{\n\t\"command\": \"info\",\n\t\"status\": \"success\",\n\t\"abi_version\":1,\n\t\"device_id\":1447972949,\n\t\"revision\":0,\n\t\"capabilities\":0\n}\n"

info_text-device :
    info_text
      (codes "info")
      (record { abi_version = 1; device_id = 0x564E5055; revision = 0; capabilities = 0 })
    ≡ info_answer
unfolding info_text show_nat show_to codes
info_text-device = refl

module _ (k : Kernel Machine) (node : List ℕ → Option ℕ) (read_file : List ℕ → Option (List ℕ))
    (strerror : ℕ → List ℕ) where
  -- Where its path opens the node of the driver, `vnpuctl reset` never ends while the driver's mutex is held. With the mutex free it exits with 0
  -- and prints a success, the driver counts the reset, and the device is idle with no interrupt, no
  -- error, no fault and no operation in flight.
  pub vnpuctl-reset :
      (args : List (List ℕ)) (i : ℕ) (s : Stack)
      → IsCommand args i (codes "reset")
      → node (device_path args) ≡ none
      → main (syscalls k node) read_file strerror args s ≡ (
          if s.drv.mutex
          then none
          else some (
            printed (success_text (codes "reset")),
            record s {
              drv = record s.drv {
                irq_raised = 0;
                last_irq = 0;
                reset_num = u64 (s.drv.reset_num + 1);
              };
              hw = quiet s.hw;
            },
          ))
  unfolding leave answer destruct
  vnpuctl-reset args i s c opens =
      rw
        (
          main-dispatch k node read_file strerror args i (codes "reset") s c opens,
          dispatch-reset k node read_file strerror args i s,
          reset_lem k node s,
        )
        (ground arith)

  -- Where its path opens the node of the driver, `vnpuctl inject-fault` with the name of a fault, on a driver whose mutex is free, exits with 0,
  -- prints a success, and changes nothing but the device's fault register, which holds that fault
  -- alone then.
  pub vnpuctl-inject_fault :
      (args : List (List ℕ)) (i : ℕ) (f : FaultType) (s : Stack)
      → IsCommand args i (codes "inject-fault")
      → node (device_path args) ≡ none
      → i < length args
      → get_or args i [] ≡ fault_name f
      → f ≢ no_fault
      → s.drv.mutex ≡ false
      → main (syscalls k node) read_file strerror args s
        ≡ some (
          printed (fault_text (codes "inject-fault") (fault_name f)),
          record s { hw = record s.hw { dev = record s.hw.dev { fault_control = fault_bits f } } },
        )
  unfolding leave answer destruct inject inject_fault_command
  vnpuctl-inject_fault args i f s c opens bound e named free =
      let there : leb (length args + 1) (i + 1) ≡ false = ground arith in
      let parsed = (parse_fault_type_iff (fault_name f) f).1 (refl, named) in
      rw
        (
          main-dispatch k node read_file strerror args i (codes "inject-fault") s c opens,
          dispatch-inject k node read_file strerror args i s,
          there,
          e,
          parsed,
          set_fault_lem k node f s free,
        )
        refl

  -- Where its path opens the node of the driver, `vnpuctl info` exits with 0 and changes nothing. It prints the ABI version and the identifier of
  -- the device, but the revision and the capabilities as 0, whatever the device is.
  pub vnpuctl-info :
      (args : List (List ℕ)) (i : ℕ) (s : Stack)
      → IsCommand args i (codes "info")
      → node (device_path args) ≡ none
      → main (syscalls k node) read_file strerror args s ≡ some (printed info_answer, s)
  unfolding leave answer destruct
  vnpuctl-info args i s c opens =
      rw
        (
          main-dispatch k node read_file strerror args i (codes "info") s c opens,
          dispatch-info k node read_file strerror args i s,
          get_info_lem k node s,
          info_text-device,
        )
        refl

  -- After any history of calls, interrupts and moves of the hardware, from a driver with no operation
  -- submitted, and where its path opens the node of the driver, `vnpuctl stats` exits with 0, changes nothing, and prints the driver's counters of
  -- device errors and resets, with 0 for the submitted, the completed and the timed-out operations.
  pub vnpuctl-stats :
      (args : List (List ℕ)) (i errno : ℕ) (w : World Machine) (es : List (Event Machine))
      → IsCommand args i (codes "stats")
      → node (device_path args) ≡ none
      → IsUnused w.drv
      → let v = run device_bus k w es in
        let s : Stack = record { drv = v.drv; hw = v.hw; errno = errno } in
        main (syscalls k node) read_file strerror args s
        ≡ some (
          printed (
              stats_text
                (codes "stats")
                (record (stats_of v.drv) { submitted = 0; completed = 0; timed_out = 0 })),
          s,
        )
  unfolding leave answer destruct
  vnpuctl-stats args i errno w es c opens u =
      let v = run device_bus k w es in
      let s : Stack = record { drv = v.drv; hw = v.hw; errno = errno } in
      let n = run-IsUnused device_bus k es w u in
      rw
        (
          main-dispatch k node read_file strerror args i (codes "stats") s c opens,
          dispatch-stats k node read_file strerror args i s,
          get_stats_lem k node s,
          n.submitted,
          n.completed,
          n.timed_out,
        )
        refl
