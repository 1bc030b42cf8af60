-- ===== src/Ctl/MainLaws.antt =====
-- The exit codes of vnpuctl.
use virtual_silicon_validati.Base.{
  ℕ, ◌+◌, ◌-◌, ◌≡◌, refl, Bool, true, false, List, [], Option, none, some, leb, length, get_or,
  if◌then◌else◌, arith,
}
use virtual_silicon_validati.Base.Codes.{codes, same}
use virtual_silicon_validati.Hal.Types.{
  FaultType, no_fault, Exception, std_runtime_error, Result, ok, throws,
}
use virtual_silicon_validati.Hal.Linux.{
  Syscalls, construct, vnpu_run_dot, vnpu_set_fault, vnpu_get_info, vnpu_reset, vnpu_get_stats,
}
use virtual_silicon_validati.Ctl.Args.{find_command_index, get_option, get_option_or}
use virtual_silicon_validati.Ctl.Faults.{parse_fault_type}
use virtual_silicon_validati.Ctl.Json.{◌>>=◌, DotInput, parse_run_dot_input_json}
use virtual_silicon_validati.Ctl.Output.{dot_text, info_text, fault_text, success_text, stats_text}
use virtual_silicon_validati.Ctl.Main.{
  Exit, answer, run_input, inject, main_at, run_dot_command, inject_fault_command, dispatch,
  failure, leave, main,
}

abbrev pub is_thrown : {A : Type 0} → Result A → Bool
is_thrown (ok a) = false
is_thrown (throws e) = true

module _ (sys : Syscalls) (read_file : List ℕ → Option (List ℕ)) (strerror : ℕ → List ℕ) where
  open sys use {State}

  -- What makes a command end in the outer handler: `run-dot` without an input that can be read, and
  -- `inject-fault` without an argument.
  abbrev pub refuses : List ℕ → List (List ℕ) → ℕ → Bool
  refuses command args command_index =
      if same command (codes "info")
      then false
      else if same command (codes "run-dot")
      then is_thrown
          (get_option args (codes "--input") >>= λ path. parse_run_dot_input_json read_file path)
      else if same command (codes "inject-fault")
      then leb (length args + 1) (command_index + 1)
      else false

  abbrev pub fails : List (List ℕ) → State → Option ℕ → Bool
  fails args s none = true
  fails args s (some i) =
      if is_thrown (construct sys (get_option_or args (codes "--device") (codes "/dev/vnpu0")) s).0
      then true
      else refuses (get_or args (i - 1) []) args i

  -- A run that never returns, or ends with exit code 1 if the test holds and with 0 if not.
  abbrev pub EndsBy : Bool → Option (Exit × State) → Type 0
  EndsBy test none = Unit
  EndsBy test (some (exit, s)) = exit.code ≡ (if test then 1 else 0)

  answer-EndsBy :
      {A : Type 0} (args : List (List ℕ)) (command : List ℕ) (text : A → List ℕ)
      (r : Option (Result A × State))
      → EndsBy false
          (leave sys read_file strerror args (answer sys read_file strerror command text r))
  unfolding leave answer
  answer-EndsBy args command text none = tt
  answer-EndsBy args command text (some (ok a, s)) = refl
  answer-EndsBy args command text (some (throws e, s)) = refl

  -- A branch of the ladder.
  branch :
      (test p q : Bool) (args : List (List ℕ)) (x y : Option (Result Exit × State))
      → EndsBy p (leave sys read_file strerror args x)
      → EndsBy q (leave sys read_file strerror args y)
      → EndsBy (if test then p else q) (leave sys read_file strerror args (if test then x else y))
  branch true p q args x y h k = h
  branch false p q args x y h k = k

  -- A branch that alone decides, and a branch with nothing that fails.
  last_branch :
      (test : Bool) (args : List (List ℕ)) (x y : Option (Result Exit × State))
      → EndsBy true (leave sys read_file strerror args x)
      → EndsBy false (leave sys read_file strerror args y)
      → EndsBy test (leave sys read_file strerror args (if test then x else y))
  last_branch true args x y h k = h
  last_branch false args x y h k = k

  safe_branch :
      (test : Bool) (args : List (List ℕ)) (x y : Option (Result Exit × State))
      → EndsBy false (leave sys read_file strerror args x)
      → EndsBy false (leave sys read_file strerror args y)
      → EndsBy false (leave sys read_file strerror args (if test then x else y))
  safe_branch true args x y h k = h
  safe_branch false args x y h k = k

  run_input-EndsBy :
      (command : List ℕ) (args : List (List ℕ)) (r : Result DotInput) (s : State)
      → EndsBy
          (is_thrown r)
          (leave sys read_file strerror args (run_input sys read_file strerror command r s))
  unfolding run_input leave failure
  run_input-EndsBy command args (throws e) s = ground arith
  run_input-EndsBy command args (ok input) s =
      answer-EndsBy args command (dot_text command)
        (vnpu_run_dot sys input.input_a input.input_b input.timeout s)

  inject-EndsBy :
      (command name : List ℕ) (args : List (List ℕ)) (r : Result FaultType) (s : State)
      → EndsBy false
          (leave sys read_file strerror args (inject sys read_file strerror command name r s))
  unfolding inject leave
  inject-EndsBy command name args (throws e) s = refl
  inject-EndsBy command name args (ok type) s =
      answer-EndsBy args command (λ t. fault_text command name) (vnpu_set_fault sys type s)

  missing-EndsBy :
      (args : List (List ℕ)) (e : Exception) (s : State)
      → EndsBy true (leave sys read_file strerror args (some (throws e, s)))
  unfolding leave failure
  missing-EndsBy args e s = ground arith

  dispatch-EndsBy :
      (command : List ℕ) (args : List (List ℕ)) (i : ℕ) (s : State)
      → EndsBy
          (refuses command args i)
          (leave sys read_file strerror args (dispatch sys read_file strerror command args i s))
  unfolding dispatch inject_fault_command run_dot_command leave
  dispatch-EndsBy command args i s =
      let name = get_or args i [] in
      let input =
        get_option args (codes "--input") >>= λ path. parse_run_dot_input_json read_file path in
      branch (same command (codes "info")) false _ args _ _
        (answer-EndsBy args command (info_text command) (vnpu_get_info sys s))
        (branch (same command (codes "run-dot")) (is_thrown input) _ args _ _
          (run_input-EndsBy command args input s)
          (branch (same command (codes "inject-fault")) _ false args _ _
            (last_branch (leb (length args + 1) (i + 1)) args _ _
              (missing-EndsBy args (std_runtime_error (codes "missing fault type")) s)
              (inject-EndsBy command name args (parse_fault_type name) s))
            (safe_branch (same command (codes "clear-faults")) args _ _
              (answer-EndsBy args command (λ t. success_text command)
                (vnpu_set_fault sys no_fault s))
              (safe_branch (same command (codes "reset")) args _ _
                (answer-EndsBy args command (λ t. success_text command) (vnpu_reset sys s))
                (safe_branch (same command (codes "stats")) args _ _
                  (answer-EndsBy args command (stats_text command) (vnpu_get_stats sys s)) refl)))))

  opened-EndsBy :
      (args : List (List ℕ)) (i : ℕ) (opened : Result (Unit {0})) (s : State)
      → EndsBy
          (if is_thrown opened then true else refuses (get_or args (i - 1) []) args i)
          (elim opened [
            | throws e ↦ some (failure sys read_file strerror args e, s)
            | ok t ↦
                leave sys read_file strerror args
                  (dispatch sys read_file strerror (get_or args (i - 1) []) args i s)
          ])
  unfolding failure
  opened-EndsBy args i (throws e) s = ground arith
  opened-EndsBy args i (ok t) s = dispatch-EndsBy (get_or args (i - 1) []) args i s

  found-EndsBy :
      (args : List (List ℕ)) (s : State) (found : Option ℕ)
      → EndsBy (fails args s found) (main_at sys read_file strerror args s found)
  unfolding main_at
  found-EndsBy args s none = refl
  found-EndsBy args s (some i) =
      let r = construct sys (get_option_or args (codes "--device") (codes "/dev/vnpu0")) s in
      opened-EndsBy args i r.0 r.1

  -- A run of vnpuctl that ends exits with 1 if there is no command, the device cannot be opened,
  -- `run-dot` has no input that can be read or `inject-fault` no argument, and with 0 in every other
  -- case: also for an unknown command, an unknown fault, and whatever the driver answers.
  pub main-EndsBy :
      (args : List (List ℕ)) (s : State)
      → EndsBy (fails args s (find_command_index args)) (main sys read_file strerror args s)
  unfolding main
  main-EndsBy args s = found-EndsBy args s (find_command_index args)
