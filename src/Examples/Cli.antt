-- ===== src/Examples/Cli.antt =====
-- Runs of the command-line tool on the driver and the device.
use virtual_silicon_validati.Base.{ℕ, ◌≡◌, refl, true, List, [], ◌∷◌, Option, none, some, arith}
use virtual_silicon_validati.Base.Int.{pos}
use virtual_silicon_validati.Base.Codes.{codes, same}
use virtual_silicon_validati.Driver.Uapi.{run_dot}
use virtual_silicon_validati.Driver.Ioctl.{clear_irqs}
use virtual_silicon_validati.Driver.Traces.{World, call, irq, run}
use virtual_silicon_validati.Hal.Types.{ok, stuck_busy}
use virtual_silicon_validati.Ctl.Args.{
  find_command_index, find_from, starts_with, get_option, get_option_or, has_flag, option_value,
}
use virtual_silicon_validati.Ctl.JsonLaws.{render}
use virtual_silicon_validati.Ctl.Output.{fault_text, success_text, stats_text}
use virtual_silicon_validati.Ctl.Main.{printed, main}
use virtual_silicon_validati.Ctl.MainLaws.{EndsBy, fails, main-EndsBy}
use virtual_silicon_validati.System.Machine.{Machine, device_bus}
use virtual_silicon_validati.System.Reset.{quiet}
use virtual_silicon_validati.System.Userspace.{Stack, mapped, syscalls}
use virtual_silicon_validati.System.Calls.{stats_of}
use virtual_silicon_validati.System.Cli.{IsCommand, device_path, vnpuctl-open_fails}
use virtual_silicon_validati.System.Cli.Dot.{vnpuctl-run_dot_zero, zero_text}
use virtual_silicon_validati.System.Cli.Control.{
  vnpuctl-reset, vnpuctl-inject_fault, vnpuctl-info, vnpuctl-stats, info_answer,
}
use virtual_silicon_validati.Examples.Data.{
  device_b, machine, sixteen, driver_b, ones, extremes, simulated, gaps, gaps-IsGaps, nodes,
}

abbrev stack : Stack
stack = record { drv = driver_b; hw = machine device_b; errno = 0 }

-- One file, and no texts of error numbers.
abbrev files : List ℕ → Option (List ℕ)
files path = some (render gaps ones extremes (pos 500))

abbrev strerror : ℕ → List ℕ
strerror n = []

abbrev dot_args : List (List ℕ)
dot_args = codes "run-dot" ∷ codes "--input" ∷ codes "in.json" ∷ codes "--json" ∷ []

abbrev fault_args : List (List ℕ)
fault_args = codes "--device" ∷ codes "/dev/vnpu0" ∷ codes "inject-fault" ∷ codes "stuck-busy" ∷ []

dot-IsCommand : IsCommand dot_args 1 (codes "run-dot")
unfolding find_command_index find_from starts_with same codes
dot-IsCommand = record { at = refl; name = refl }

fault-IsCommand : IsCommand fault_args 3 (codes "inject-fault")
unfolding find_command_index find_from starts_with same codes
fault-IsCommand = record { at = refl; name = refl }

reset-IsCommand : IsCommand (codes "reset" ∷ []) 1 (codes "reset")
unfolding find_command_index find_from starts_with same codes
reset-IsCommand = record { at = refl; name = refl }

info-IsCommand : IsCommand (codes "info" ∷ []) 1 (codes "info")
unfolding find_command_index find_from starts_with same codes
info-IsCommand = record { at = refl; name = refl }

stats-IsCommand : IsCommand (codes "stats" ∷ []) 1 (codes "stats")
unfolding find_command_index find_from starts_with same codes
stats-IsCommand = record { at = refl; name = refl }

dot_opens : nodes (device_path dot_args) ≡ none
unfolding get_option_or option_value same codes
dot_opens = refl

fault_opens : nodes (device_path fault_args) ≡ none
unfolding get_option_or option_value same codes
fault_opens = refl

reset_opens : nodes (device_path (codes "reset" ∷ [])) ≡ none
unfolding get_option_or option_value same codes
reset_opens = refl

info_opens : nodes (device_path (codes "info" ∷ [])) ≡ none
unfolding get_option_or option_value same codes
info_opens = refl

stats_opens : nodes (device_path (codes "stats" ∷ [])) ≡ none
unfolding get_option_or option_value same codes
stats_opens = refl

abbrev nowhere : List (List ℕ)
nowhere = codes "--device" ∷ codes "/nope" ∷ codes "info" ∷ []

nowhere_command : find_command_index nowhere ≡ some 3
unfolding find_command_index find_from starts_with same codes
nowhere_command = refl

nowhere_fails : nodes (device_path nowhere) ≡ some 2
unfolding get_option_or option_value same codes
nowhere_fails = refl

vnpuctl-open_fails_example :
    main (syscalls simulated nodes) files strerror nowhere stack
    ≡ some (
      record { code = 1; out = []; err = codes "error: open /dev/vnpu0: \n" },
      record stack { errno = 2 },
    )
unfolding has_flag same codes
vnpuctl-open_fails_example =
    vnpuctl-open_fails simulated nodes files strerror nowhere 3 2 stack nowhere_command
      nowhere_fails

input_run : get_option dot_args (codes "--input") ≡ ok (codes "in.json")
unfolding get_option option_value same codes
input_run = refl

vnpuctl-run_dot_zero_example :
    main (syscalls simulated nodes) files strerror dot_args stack
    ≡ some (
      printed zero_text,
      record {
        drv = record driver_b { mutex = true };
        hw = clear_irqs device_bus (machine device_b);
        errno = 22;
      },
    )
vnpuctl-run_dot_zero_example =
    vnpuctl-run_dot_zero simulated nodes files strerror dot_args 1 (codes "in.json") gaps ones
      extremes (pos 500) stack dot-IsCommand dot_opens input_run refl gaps-IsGaps (ground arith)
      (ground arith) (ground arith) refl

vnpuctl-inject_fault_example :
    main (syscalls simulated nodes) files strerror fault_args stack
    ≡ some (
      printed (fault_text (codes "inject-fault") (codes "stuck-busy")),
      record stack { hw = machine (record device_b { fault_control = 2 }) },
    )
vnpuctl-inject_fault_example =
    vnpuctl-inject_fault simulated nodes files strerror fault_args 3 stuck_busy stack
      fault-IsCommand fault_opens (ground arith) refl (λ e. ground arith) refl

vnpuctl-reset_example :
    main (syscalls simulated nodes) files strerror (codes "reset" ∷ []) stack
    ≡ some (
      printed (success_text (codes "reset")),
      record stack { drv = record driver_b { reset_num = 1 }; hw = quiet (machine device_b) },
    )
vnpuctl-reset_example =
    vnpuctl-reset simulated nodes files strerror (codes "reset" ∷ []) 1 stack reset-IsCommand
      reset_opens

vnpuctl-info_example :
    main (syscalls simulated nodes) files strerror (codes "info" ∷ []) stack
    ≡ some (printed info_answer, stack)
vnpuctl-info_example =
    vnpuctl-info simulated nodes files strerror (codes "info" ∷ []) 1 stack info-IsCommand
      info_opens

abbrev world : World Machine
world = record { drv = driver_b; hw = machine device_b }

-- A dot product, and an interrupt that nothing has raised.
abbrev later : World Machine
later = run device_bus simulated world (call mapped (run_dot sixteen) ∷ irq ∷ [])

vnpuctl-stats_example :
    main
      (syscalls simulated nodes)
      files
      strerror
      (codes "stats" ∷ [])
      (record { drv = later.drv; hw = later.hw; errno = 22 })
    ≡ some (
      printed (
          stats_text
            (codes "stats")
            (record (stats_of later.drv) { submitted = 0; completed = 0; timed_out = 0 })),
      record { drv = later.drv; hw = later.hw; errno = 22 },
    )
vnpuctl-stats_example =
    vnpuctl-stats simulated nodes files strerror (codes "stats" ∷ []) 1 22 world
      (call mapped (run_dot sixteen) ∷ irq ∷ []) stats-IsCommand stats_opens
      (record { submitted = refl; completed = refl; timed_out = refl })

-- An unknown command: exit code 0, and nothing printed.
main-EndsBy_example :
    EndsBy
      (syscalls simulated nodes)
      files
      strerror
      (fails
        (syscalls simulated nodes)
        files
        strerror
        (codes "launch" ∷ [])
        stack
        (find_command_index (codes "launch" ∷ [])))
      (main (syscalls simulated nodes) files strerror (codes "launch" ∷ []) stack)
main-EndsBy_example =
    main-EndsBy (syscalls simulated nodes) files strerror (codes "launch" ∷ []) stack
