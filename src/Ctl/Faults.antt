-- ===== src/Ctl/Faults.antt =====
-- `parse_fault_type` of vnpuctl.cpp.
use virtual_silicon_validati.Base.{◌≡◌, ◌≢◌, ◌↔◌, ◌∙◌, refl, ap, List, [], ℕ, if◌then◌else◌, arith}
use virtual_silicon_validati.Base.Codes.{codes, same, same_eq}
use virtual_silicon_validati.Hal.Types.{
  FaultType, no_fault, irq_drop, stuck_busy, corrupt_result, force_error, Result, ok, throws,
  std_runtime_error,
}

unfoldable pub parse_fault_type : List ℕ → Result FaultType
parse_fault_type value =
    if same value (codes "irq-drop")
    then ok irq_drop
    else if same value (codes "stuck-busy")
    then ok stuck_busy
    else if same value (codes "corrupt-result")
    then ok corrupt_result
    else if same value (codes "force-error")
    then ok force_error
    else throws (std_runtime_error (codes "unknown fault type"))

-- The name of a fault on the command line; there is none for no fault.
abbrev pub fault_name : FaultType → List ℕ
fault_name no_fault = []
fault_name irq_drop = codes "irq-drop"
fault_name stuck_busy = codes "stuck-busy"
fault_name corrupt_result = codes "corrupt-result"
fault_name force_error = codes "force-error"

parse-fault_name : (f : FaultType) → f ≢ no_fault → parse_fault_type (fault_name f) ≡ ok f
unfolding parse_fault_type codes same
parse-fault_name no_fault h = absurd (h refl)
parse-fault_name irq_drop h = refl
parse-fault_name stuck_busy h = refl
parse-fault_name corrupt_result h = refl
parse-fault_name force_error h = refl

-- A text is read as a fault exactly if it is the fault's name, and no text is read as no fault.
pub parse_fault_type_iff :
    (value : List ℕ) (f : FaultType)
    → (parse_fault_type value ≡ ok f) ↔ ((value ≡ fault_name f) × (f ≢ no_fault))
unfolding parse_fault_type
parse_fault_type_iff value f =
    (λ h. grind (arith, same_eq), λ h. ap parse_fault_type h.0 ∙ parse-fault_name f h.1)
