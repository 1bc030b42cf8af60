-- ===== src/Device/Invariant.antt =====
-- What holds of the device in every state that it can reach.
use virtual_silicon_validati.Base.{
  ℕ, Bool-cases, ap, ◌^◌, ◌≤◌, ◌<◌, ◌≡◌, ◌⊎◌, List, none, arith, length, All, All-set, length-set,
  set, inl, inr, ◌==◌,
}
use virtual_silicon_validati.Base.Int.{ℤ}
use virtual_silicon_validati.Base.Bits.{bit_and-three, bit_and_two_digits, bit_or-two}
use virtual_silicon_validati.Base.Word.{u32, not64, IsI32}
use virtual_silicon_validati.Device.State.{
  VnpuState, pending, update_irq, irq_completion, status_busy, status_done, status_error,
  revision_a, revision_b,
}
use virtual_silicon_validati.Device.Mmio.{
  Register, control, irq_status, irq_enable, job_id, vector_length, result, fault_control, input_a,
  input_b, decode, read_register, write_register, mmio_read, mmio_write,
}
use virtual_silicon_validati.Device.Timer.{expire, corrupt}
use virtual_silicon_validati.Device.Lifecycle.{realize, register_init, clear_registers}
use virtual_silicon_validati.Device.Product.{dot_product_lem, exact}
use virtual_silicon_validati.Device.Faults.{
  IsFault, lowest_fault-IsFault, faulted, corrupt_lem, flipped-IsI32, apply_fault_lem,
}
use virtual_silicon_validati.Device.Steps.{Step, read, write, fire, Reach, here, next}

-- `input_a` and `input_b`: four words of 32 bits.
pub record IsWords (ws : List ℕ) : Type 0 where
  pub four : length ws ≡ 4
  pub words : All (λ w. w < 2 ^ 32) ws

pub record IsValid (s : VnpuState) : Type 0 where
  pub status_range : s.status ≤ 3
  pub err_range : s.err_code ≤ 3
  pub irq_range : s.irq_status < 4
  pub enable_range : s.irq_enable < 4
  pub job_range : s.job_ib < 2 ^ 32
  pub one_fault : IsFault s.fault_control
  pub a_words : IsWords s.input_a
  pub b_words : IsWords s.input_b
  pub result_range : IsI32 s.result
  pub known_revision : (s.ops.revision ≡ revision_a) ⊎ (s.ops.revision ≡ revision_b)
  pub known_length : (s.ops.vec_len ≡ 8) ⊎ (s.ops.vec_len ≡ 16)
  -- Revision A has the one length.
  pub length_a : s.ops.revision ≡ revision_a → s.ops.vec_len ≡ 8
  -- The interrupt pin follows the registers.
  pub line_exact : s.irq_line ≡ pending s
  -- An operation in flight shows as BUSY, or as the ERROR of a length refused meanwhile.
  pub armed : (s.dot_timer ≡ none) ⊎ ((s.status ≡ status_busy) ⊎ (s.status ≡ status_error))
  pub error_explained : s.status ≡ status_error → 0 < s.err_code

pub IsWords-set : (ws : List ℕ) (i v : ℕ) → IsWords ws → IsWords (set ws i (u32 v))
IsWords-set ws i v h = record {
  four = omega (arith, length-set {0} ws i (u32 v), h.four);
  words = All-set (λ w. w < 2 ^ 32) ws i (u32 v) h.words (omega arith);
}

read-IsValid : (r : Register) (s : VnpuState) → IsValid s → IsValid (read_register r s).1
unfolding read_register
read-IsValid result s v = ground arith
read-IsValid _ s v = v

write-IsValid :
    (now : ℕ) (r : Register) (val : ℕ) (s : VnpuState)
    → IsValid s
    → IsValid (write_register now r val s)
unfolding write_register update_irq
write-IsValid now control val s v = ground (arith, bit_or-two s.irq_status)
write-IsValid now irq_status val s v = ground (arith, bit_and_two_digits s.irq_status (not64 val))
write-IsValid now irq_enable val s v = ground (arith, bit_and-three val)
write-IsValid now job_id val s v = ground arith
write-IsValid now vector_length val s v = ground arith
write-IsValid now (input_a i) val s v = ground (arith, IsWords-set s.input_a i val)
write-IsValid now (input_b i) val s v = ground (arith, IsWords-set s.input_b i val)
write-IsValid now fault_control val s v = ground (arith, lowest_fault-IsFault val)
write-IsValid now _ val s v = v

-- The operation that completes: the exact result, DONE, and a completion interrupt.
abbrev pub completed : VnpuState → VnpuState
completed s = record s {
  dot_timer = none;
  status = status_done;
  irq_status = irq_completion;
  result = exact s;
}

-- When the timer of a valid device expires, the operation ends with the exact dot product, DONE and
-- a completion interrupt, except as the fault that is set has it: irq_drop leaves no interrupt,
-- stuck_busy leaves BUSY and no interrupt, corrupt_result flips the result's lowest bit, force_error
-- leaves ERROR with its code and the error interrupt. The interrupt pin follows.
pub expire_lem :
    (s : VnpuState) → IsValid s → expire s ≡ update_irq (faulted s.fault_control (completed s))
unfolding expire
expire_lem s v =
    let (p, w) = dot_product_lem (record s { dot_timer = none }) v.known_length in
    rw p (ap update_irq (apply_fault_lem (completed s) v.one_fault))

pub exact-IsI32 : (s : VnpuState) → IsValid s → IsI32 (exact s)
exact-IsI32 s v = omega (arith, (dot_product_lem s v.known_length).1, v.known_length)

corrupt-IsI32 : (r : ℤ) → IsI32 r → IsI32 (corrupt r)
corrupt-IsI32 r h = rw (corrupt_lem r h) (flipped-IsI32 r h)

faulted-IsValid :
    (s : VnpuState) → IsValid s → IsValid (update_irq (faulted s.fault_control (completed s)))
unfolding update_irq
faulted-IsValid s v = let i = exact-IsI32 s v in let c = corrupt-IsI32 (exact s) i in ground arith

pub expire-IsValid : (s : VnpuState) → IsValid s → IsValid (expire s)
expire-IsValid s v = rw (expire_lem s v) (faulted-IsValid s v)

pub Step-IsValid : {s t : VnpuState} → Step s t → IsValid s → IsValid t
unfolding mmio_read mmio_write
Step-IsValid (read s addr size) v = elim (Bool-cases (size == 4)) [
  | inl e ↦ rw e (read-IsValid (decode addr) s v)
  | inr e ↦ rw e v
]
Step-IsValid (write now s addr val size) v = elim (Bool-cases (size == 4)) [
  | inl e ↦ rw e (write-IsValid now (decode addr) val s v)
  | inr e ↦ rw e v
]
Step-IsValid (fire now d s e h) v = expire-IsValid s v

pub realize-IsValid : IsValid realize
unfolding realize register_init clear_registers
realize-IsValid = ground arith

-- Every state that the device reaches is well-formed: the registers are in range, at most one
-- fault is set, the interrupt pin shows `irq_status & irq_enable`, the timer runs only while BUSY
-- or in ERROR, and ERROR comes with an error code.
pub Reach-IsValid : {s : VnpuState} → Reach s → IsValid s
Reach-IsValid here = realize-IsValid
Reach-IsValid (next r st) = Step-IsValid st (Reach-IsValid r)
