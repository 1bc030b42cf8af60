-- ===== src/System/Cli.antt =====
-- The command-line tool on the whole stack: which branch of `main` serves a command.
use virtual_silicon_validati.Base.{
  ◌++◌, ℕ, ◌+◌, ◌-◌, ◌^◌, ◌≤◌, ◌<◌, ◌≡◌, ◌≢◌, refl, ap, ◌∙◌, Bool, true, false, List, [], ◌∷◌,
  Option, none, some, length, get_or, leb, All, ◌==◌, if◌then◌else◌, arith,
}
use virtual_silicon_validati.Base.Codes.{codes, same}
use virtual_silicon_validati.Base.Int.{ℤ, pos, ◌≤ℤ◌}
use virtual_silicon_validati.Driver.State.{VnpuDevice, Kernel}
use virtual_silicon_validati.Driver.Traces.{World, Event, IsUnused, run, run-IsUnused}
use virtual_silicon_validati.Base.Word.{u64}
use virtual_silicon_validati.Device.Mmio.{
  mmio_read, read_register, mmio_write, decode, write_register, lowest_fault,
}
use virtual_silicon_validati.Driver.Ioctl.{
  clear_irqs, ioctl, ioctl_reset, ioctl_set_fault, ioctl_get_info, ioctl_get_stat,
}
use virtual_silicon_validati.Driver.Requests.{one_hot, ioctl_set_fault_lem}
use virtual_silicon_validati.Device.Faults.{lowest_bit, lowest_fault_lem}
use virtual_silicon_validati.System.Reset.{quiet, hw_reset_lem}
use virtual_silicon_validati.Hal.Types.{
  Result, throws, std_system_error, FaultType, no_fault, fault_bits, ok, IsI8, DotProductResult,
  DeviceStats,
}
use virtual_silicon_validati.Hal.Linux.{
  construct, destruct, vnpu_run_dot, vnpu_reset, vnpu_set_fault, vnpu_get_info, vnpu_get_stats,
}
use virtual_silicon_validati.Hal.MockLaws.{IsArguments}
use virtual_silicon_validati.Ctl.Args.{find_command_index, get_option, get_option_or, has_flag}
use virtual_silicon_validati.Ctl.Faults.{fault_name, parse_fault_type, parse_fault_type_iff}
use virtual_silicon_validati.Ctl.Json.{◌>>=◌, DotInput, parse_run_dot_input_json, parse_body}
use virtual_silicon_validati.Ctl.JsonLaws.{Gaps, IsGaps, render}
use virtual_silicon_validati.Ctl.RoundTrip.{parse_body-render}
use virtual_silicon_validati.Ctl.Decimal.{show, show_nat, show_to}
use virtual_silicon_validati.Ctl.Output.{
  error_schema, internal_error_schema, what, info_text, stats_text, dot_text, fault_text,
  success_text, driver_status_to_string,
}
use virtual_silicon_validati.Ctl.Main.{
  Exit, printed, answer, run_input, run_dot_command, inject, inject_fault_command, dispatch, leave,
  failure, main_at, main,
}
use virtual_silicon_validati.System.Machine.{Machine, device_bus}
use virtual_silicon_validati.System.Userspace.{Stack, mapped, syscalls, vnpu_run_dot-zero}
pub mod Dot
pub mod Control

-- The arguments give this command, at this index.
pub record IsCommand (args : List (List ℕ)) (i : ℕ) (command : List ℕ) : Type 0 where
  pub at : find_command_index args ≡ some i
  pub name : get_or args (i - 1) [] ≡ command

-- The path that is opened.
abbrev pub device_path : List (List ℕ) → List ℕ
device_path args = get_option_or args (codes "--device") (codes "/dev/vnpu0")

module _ (k : Kernel Machine) (node : List ℕ → Option ℕ) (read_file : List ℕ → Option (List ℕ))
    (strerror : ℕ → List ℕ) where
  construct-opens :
      (path : List ℕ) (s : Stack)
      → node path ≡ none
      → construct (syscalls k node) path s ≡ (ok tt, s)
  unfolding construct
  construct-opens path s e = rw e refl

  construct-fails :
      (path : List ℕ) (e : ℕ) (s : Stack)
      → node path ≡ some e
      → construct (syscalls k node) path s
        ≡ (throws (std_system_error e "open /dev/vnpu0"), record s { errno = e })
  unfolding construct
  construct-fails path e s h = rw h refl

  -- What `main` does behind the constructor.
  abbrev opened_by : List (List ℕ) → ℕ → Result (Unit {0}) × Stack → Option (Exit × Stack)
  opened_by args i opened = elim opened.0 [
    | throws e ↦ some (failure (syscalls k node) read_file strerror args e, opened.1)
    | ok t ↦
        leave (syscalls k node) read_file strerror args
          (dispatch (syscalls k node) read_file strerror (get_or args (i - 1) []) args i opened.1)
  ]

  -- A command runs on the device, where the path opens its node.
  main-dispatch :
      (args : List (List ℕ)) (i : ℕ) (command : List ℕ) (s : Stack)
      → IsCommand args i command
      → node (device_path args) ≡ none
      → main (syscalls k node) read_file strerror args s
        ≡ leave
            (syscalls k node)
            read_file
            strerror
            args
            (dispatch (syscalls k node) read_file strerror command args i s)
  unfolding main
  main-dispatch args i command s c opens =
      rw (c.at, main_at)
        (ap (opened_by args i) (construct-opens (device_path args) s opens)
          ∙ ap
              (λ t.
                leave (syscalls k node) read_file strerror args
                  (dispatch (syscalls k node) read_file strerror t args i s))
              c.name)

  dispatch-run_dot :
      (args : List (List ℕ)) (i : ℕ) (s : Stack)
      → dispatch (syscalls k node) read_file strerror (codes "run-dot") args i s
        ≡ run_dot_command (syscalls k node) read_file strerror (codes "run-dot") args s
  unfolding dispatch same codes
  dispatch-run_dot args i s = refl

  dispatch-inject :
      (args : List (List ℕ)) (i : ℕ) (s : Stack)
      → dispatch (syscalls k node) read_file strerror (codes "inject-fault") args i s
        ≡ inject_fault_command (syscalls k node) read_file strerror (codes "inject-fault") args i s
  unfolding dispatch same codes
  dispatch-inject args i s = refl

  dispatch-reset :
      (args : List (List ℕ)) (i : ℕ) (s : Stack)
      → dispatch (syscalls k node) read_file strerror (codes "reset") args i s
        ≡ answer
            (syscalls k node)
            read_file
            strerror
            (codes "reset")
            (λ t. success_text (codes "reset"))
            (vnpu_reset (syscalls k node) s)
  unfolding dispatch same codes
  dispatch-reset args i s = refl

  dispatch-info :
      (args : List (List ℕ)) (i : ℕ) (s : Stack)
      → dispatch (syscalls k node) read_file strerror (codes "info") args i s
        ≡ answer
            (syscalls k node)
            read_file
            strerror
            (codes "info")
            (info_text (codes "info"))
            (vnpu_get_info (syscalls k node) s)
  unfolding dispatch same codes
  dispatch-info args i s = refl

  dispatch-stats :
      (args : List (List ℕ)) (i : ℕ) (s : Stack)
      → dispatch (syscalls k node) read_file strerror (codes "stats") args i s
        ≡ answer
            (syscalls k node)
            read_file
            strerror
            (codes "stats")
            (stats_text (codes "stats"))
            (vnpu_get_stats (syscalls k node) s)
  unfolding dispatch same codes
  dispatch-stats args i s = refl

  -- Where the path of `--device`, or else /dev/vnpu0, cannot be opened, every command ends with exit
  -- code 1 and the text of the error, in the error schema with `--json`, and touches neither the
  -- driver nor the device.
  pub vnpuctl-open_fails :
      (args : List (List ℕ)) (i e : ℕ) (s : Stack)
      → find_command_index args ≡ some i
      → node (device_path args) ≡ some e
      → main (syscalls k node) read_file strerror args s
        ≡ some (
          if has_flag args (codes "--json")
              then record {
                code = 1;
                out =
                    error_schema
                      (codes "argument parse")
                      (codes "internal_error")
                      (codes "open /dev/vnpu0: " ++ strerror e)
                      0
                      0;
                err = [];
              }
              else record {
                code = 1;
                out = [];
                err = codes "error: open /dev/vnpu0: " ++ (strerror e ++ codes "\n");
              },
          record s { errno = e },
        )
  unfolding main failure internal_error_schema what codes
  vnpuctl-open_fails args i e s at fails =
      rw (at, main_at) (ap (opened_by args i) (construct-fails (device_path args) e s fails))
