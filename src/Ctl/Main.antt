-- ===== src/Ctl/Main.antt =====
-- `main` of vnpuctl.cpp over the system calls of the HAL, the files that it can open, and the C
-- library's texts of error numbers.
use virtual_silicon_validati.Base.{
  ℕ, ◌+◌, ◌-◌, List, [], ◌++◌, Option, none, some, leb, length, get_or, if◌then◌else◌,
}
use virtual_silicon_validati.Base.Codes.{codes, same}
use virtual_silicon_validati.Hal.Types.{
  FaultType, no_fault, Exception, Result, ok, throws, std_runtime_error,
}
use virtual_silicon_validati.Hal.Linux.{
  Syscalls, construct, destruct, vnpu_get_info, vnpu_run_dot, vnpu_reset, vnpu_set_fault,
  vnpu_get_stats,
}
use virtual_silicon_validati.Ctl.Args.{find_command_index, get_option, get_option_or, has_flag}
use virtual_silicon_validati.Ctl.Faults.{parse_fault_type}
use virtual_silicon_validati.Ctl.Json.{◌>>=◌, DotInput, parse_run_dot_input_json}
use virtual_silicon_validati.Ctl.Output.{
  success_text, info_text, dot_text, fault_text, stats_text, what, internal_error_schema,
  error_text,
}

-- The exit code, and what went to the standard output and to the standard error.
pub record Exit : Type 0 where
  pub code : ℕ
  pub out : List ℕ
  pub err : List ℕ

abbrev pub printed : List ℕ → Exit
printed text = record { code = 0; out = text; err = [] }

unfoldable pub usage : List ℕ
usage =
    codes
      "Usage:\n  vnpuctl info --json\n  vnpuctl run-dot --input input.json --json\n  vnpuctl inject-fault irq-drop|stuck-busy|corrupt-result|force-error\n  vnpuctl clear-faults\n  vnpuctl reset\n  vnpuctl stats --json\n"

module _ (sys : Syscalls) (read_file : List ℕ → Option (List ℕ)) (strerror : ℕ → List ℕ) where
  open sys use {State}

  -- A call of the device under the two inner handlers; a call may never return.
  unfoldable pub answer :
      {A : Type 0}
      → List ℕ
      → (A → List ℕ)
      → Option (Result A × State)
      → Option (Result Exit × State)
  answer command text none = none
  answer command text (some (ok a, s)) = some (ok (printed (text a)), s)
  answer command text (some (throws e, s)) = some (ok (printed (error_text strerror command e)), s)

  -- `run-dot` with what the reading of its input gives.
  unfoldable pub run_input : List ℕ → Result DotInput → State → Option (Result Exit × State)
  run_input command (throws e) s = some (throws e, s)
  run_input command (ok input) s =
      answer command (dot_text command)
        (vnpu_run_dot sys input.input_a input.input_b input.timeout s)

  unfoldable pub run_dot_command : List ℕ → List (List ℕ) → State → Option (Result Exit × State)
  unfolding answer run_input
  run_dot_command command args s =
      run_input command
        (get_option args (codes "--input") >>= λ path. parse_run_dot_input_json read_file path) s

  -- The `try` of `inject-fault`, which reads the name too.
  unfoldable pub inject : List ℕ → List ℕ → Result FaultType → State → Option (Result Exit × State)
  inject command name (throws e) s = some (ok (printed (error_text strerror command e)), s)
  inject command name (ok type) s =
      answer command (λ t. fault_text command name) (vnpu_set_fault sys type s)

  -- `command_index` counts from `argv[0]`, and `args` starts with `argv[1]`.
  unfoldable pub inject_fault_command :
      List ℕ → List (List ℕ) → ℕ → State → Option (Result Exit × State)
  unfolding answer inject
  inject_fault_command command args command_index s =
      let name = get_or args command_index [] in
      if leb (length args + 1) (command_index + 1)
      then some (throws (std_runtime_error (codes "missing fault type")), s)
      else inject command name (parse_fault_type name) s

  -- The ladder of commands. At its end `main` returns 0 with nothing printed.
  unfoldable pub dispatch : List ℕ → List (List ℕ) → ℕ → State → Option (Result Exit × State)
  unfolding answer run_dot_command inject_fault_command
  dispatch command args command_index s =
      if same command (codes "info")
      then answer command (info_text command) (vnpu_get_info sys s)
      else if same command (codes "run-dot")
      then run_dot_command command args s
      else if same command (codes "inject-fault")
      then inject_fault_command command args command_index s
      else if same command (codes "clear-faults")
      then answer command (λ t. success_text command) (vnpu_set_fault sys no_fault s)
      else if same command (codes "reset")
      then answer command (λ t. success_text command) (vnpu_reset sys s)
      else if same command (codes "stats")
      then answer command (stats_text command) (vnpu_get_stats sys s)
      else some (ok (printed []), s)

  -- The outer handler.
  unfoldable pub failure : List (List ℕ) → Exception → Exit
  failure args e =
      if has_flag args (codes "--json")
      then record {
        code = 1;
        out = internal_error_schema strerror (codes "argument parse") e;
        err = [];
      }
      else record { code = 1; out = []; err = codes "error: " ++ (what strerror e ++ codes "\n") }

  -- The end of the scope of `dev`, which closes the file, and the outer handler.
  unfoldable pub leave : List (List ℕ) → Option (Result Exit × State) → Option (Exit × State)
  unfolding failure
  leave args none = none
  leave args (some (ok exit, s)) = some (exit, destruct sys s)
  leave args (some (throws e, s)) = some (failure args e, destruct sys s)

  -- `main` with the index of the command.
  unfoldable pub main_at : List (List ℕ) → State → Option ℕ → Option (Exit × State)
  unfolding failure leave
  main_at args s none = some (record { code = 1; out = []; err = usage }, s)
  main_at args s (some command_index) =
      let device = get_option_or args (codes "--device") (codes "/dev/vnpu0") in
      let (opened, s0) = construct sys device s in
      elim opened [
        | throws e ↦ some (failure args e, s0)
        | ok t ↦ leave args (dispatch (get_or args (command_index - 1) []) args command_index s0)
      ]

  unfoldable pub main : List (List ℕ) → State → Option (Exit × State)
  unfolding main_at
  main args s = main_at args s (find_command_index args)
