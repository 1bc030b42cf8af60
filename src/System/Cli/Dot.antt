-- ===== src/System/Cli/Dot.antt =====
-- `vnpuctl run-dot` on the whole stack.
use virtual_silicon_validati.Base.{
  none, ℕ, ◌≡◌, refl, ap, ◌∙◌, true, false, List, Option, some, All, arith,
}
use virtual_silicon_validati.Base.Codes.{codes}
use virtual_silicon_validati.Base.Int.{ℤ, pos}
use virtual_silicon_validati.Driver.State.{Kernel}
use virtual_silicon_validati.Driver.Ioctl.{clear_irqs}
use virtual_silicon_validati.Hal.Types.{ok, IsI8, DotProductResult}
use virtual_silicon_validati.Hal.Linux.{destruct}
use virtual_silicon_validati.Hal.MockLaws.{IsArguments}
use virtual_silicon_validati.Ctl.Args.{get_option}
use virtual_silicon_validati.Ctl.Json.{◌>>=◌, DotInput, parse_run_dot_input_json}
use virtual_silicon_validati.Ctl.JsonLaws.{Gaps, IsGaps, render}
use virtual_silicon_validati.Ctl.RoundTrip.{parse_body-render}
use virtual_silicon_validati.Ctl.Decimal.{show, show_nat, show_to}
use virtual_silicon_validati.Ctl.Output.{dot_text, driver_status_to_string}
use virtual_silicon_validati.Ctl.Main.{printed, answer, run_input, run_dot_command, leave, main}
use virtual_silicon_validati.System.Machine.{Machine, device_bus}
use virtual_silicon_validati.System.Userspace.{Stack, syscalls, vnpu_run_dot-zero}
use virtual_silicon_validati.System.Cli.{IsCommand, device_path, main-dispatch, dispatch-run_dot}

-- The answer of `run-dot` with a result of 0.
abbrev pub zero_text : List ℕ
zero_text =
    codes
      "{\n\t\"command\": \"run-dot\",\n\t\"status\": \"success\",\n\t\"result\":0,\n\t\"driver_status\": \"ok\",\n\t\"device_error\":0\n}\n"

abbrev dot_input : List ℤ → List ℤ → ℤ → DotInput
dot_input a b t = record { input_a = a; input_b = b; timeout = t }

abbrev zero_dot : DotProductResult
zero_dot = record { result = pos 0; device_error = pos 0; status = 0 }

dot_text-zero : dot_text (codes "run-dot") zero_dot ≡ zero_text
unfolding dot_text driver_status_to_string show show_nat show_to codes
dot_text-zero = refl

module _ (k : Kernel Machine) (node : List ℕ → Option ℕ) (read_file : List ℕ → Option (List ℕ))
    (strerror : ℕ → List ℕ) where
  -- Where its path opens the node of the driver, `vnpuctl run-dot` on an input file in the documented form, with two lists of eight signed bytes
  -- and a timeout from 1 to 1000, exits with 0 and prints a success with the result 0, whatever the
  -- two lists are, and leaves the driver's mutex held.
  pub vnpuctl-run_dot_zero :
      (args : List (List ℕ)) (i : ℕ) (path : List ℕ) (g : Gaps) (a b : List ℤ) (t : ℤ) (s : Stack)
      → IsCommand args i (codes "run-dot")
      → node (device_path args) ≡ none
      → get_option args (codes "--input") ≡ ok path
      → read_file path ≡ some (render g a b t)
      → IsGaps g
      → IsArguments a b t
      → All IsI8 a
      → All IsI8 b
      → s.drv.mutex ≡ false
      → main (syscalls k node) read_file strerror args s
        ≡ some (
          printed zero_text,
          record {
            drv = record s.drv { mutex = true; irq_raised = 0 };
            hw = clear_irqs device_bus s.hw;
            errno = 22;
          },
        )
  unfolding leave answer run_dot_command run_input parse_run_dot_input_json destruct
  vnpuctl-run_dot_zero args i path g a b t s c opens opt file gaps h p q free =
      let parsed : parse_run_dot_input_json read_file path ≡ ok (dot_input a b t) =
        rw (parse_run_dot_input_json, file)
          (parse_body-render g gaps a b t h.a_length h.b_length p q h.timeout_pos
            (ground (arith, h.timeout_max))) in
      let input : (get_option args (codes "--input") >>= λ path.
      parse_run_dot_input_json read_file path)
          ≡ ok (dot_input a b t) =
        ap (λ r. r >>= λ path. parse_run_dot_input_json read_file path) opt ∙ parsed in
      let ran = vnpu_run_dot-zero k node a b t s h p q free in
      rw
        (
          main-dispatch k node read_file strerror args i (codes "run-dot") s c opens,
          dispatch-run_dot k node read_file strerror args i s,
          input,
          ran,
          dot_text-zero,
        )
        refl
