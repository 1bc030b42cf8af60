-- ===== src/Device/Machine.antt =====
-- The state machine of the device. It is that of docs/register_map.md but for a length that is refused
-- while an operation is in flight, which the code lets run on from ERROR.
use virtual_silicon_validati.Base.{
  ◌&&◌, not, ℕ, ◌/◌, ◌%◌, ◌≢◌, ◌≡◌, Bool, true, false, Option, none, some, arith, ◌==◌,
  if◌then◌else◌,
}
use virtual_silicon_validati.Base.Bits.{bit_and-one, bit_and-two}
use virtual_silicon_validati.Device.State.{
  VnpuState, update_irq, status_busy, status_done, status_error,
}
use virtual_silicon_validati.Device.Mmio.{
  decode, read_register, write_register, mmio_read, mmio_write, do_reset, do_start, reject_length,
  write_vector_length, set_vec_len,
}
use virtual_silicon_validati.Device.Timer.{expire}
use virtual_silicon_validati.Device.Invariant.{IsValid, expire_lem, Step-IsValid, Reach-IsValid}
use virtual_silicon_validati.Device.Registers.{is_length, vector_length_lem}
use virtual_silicon_validati.Device.Steps.{Step, read, write, fire, Reach, Expiry, expires}
use virtual_silicon_validati.Device.Lifecycle.{uninit}

pub data Phase : Type 0 where
  idle busy done error : Phase

abbrev pub phase : ℕ → Phase
phase n = if n == 0 then idle else if n == 1 then busy else if n == 2 then done else error

-- Whether the dot-product timer is pending.
abbrev pub is_armed : Option ℕ → Bool
is_armed none = false
is_armed (some d) = true

-- A phase with the timer beside it.
abbrev pub view : VnpuState → Phase × Bool
view s = (phase s.status, is_armed s.dot_timer)

-- What a step means to the machine. An operation ends under the fault that is set.
pub data Label : Type 0 where
  quiet resets starts takes refuses : Label
  ends : ℕ → Label

-- A write of four bytes to CONTROL resets or starts, and one to VECTOR_LENGTH may be refused; a read
-- of four bytes of RESULT takes the result.
abbrev pub label : {s t : VnpuState} → Step s t → Label
label (read s addr size) = if size == 4 && addr == 0x140 then takes else quiet
label (write now s addr val size) =
    if not (size == 4)
    then quiet
    else if addr == 0x00C
    then (if val / 2 % 2 == 1 then resets else if val % 2 == 1 then starts else quiet)
    else if addr == 0x024
    then (if is_length s.ops.revision val then quiet else refuses)
    else quiet
label (fire now d s e h) = ends s.fault_control

-- The machine: START counts in IDLE alone, the result is taken in DONE alone, a refused length leaves
-- an operation in flight, and an operation that ends leaves DONE, or BUSY for good under
-- FAULT_STUCK_BUSY, or ERROR under FAULT_FORCE_ERROR.
abbrev pub follow : Label → Phase × Bool → Phase × Bool
follow quiet v = v
follow resets v = (idle, false)
follow starts (idle, armed) = (busy, true)
follow starts v = v
follow takes (done, armed) = (idle, armed)
follow takes v = v
follow refuses (p, armed) = (error, armed)
follow (ends f) v = (if f == 2 then busy else if f == 8 then error else done, false)

-- Every access by the guest and every expiry of the timer, in every reachable state, takes the device
-- where the machine goes by the label of the step, and nowhere else.
pub view-follow :
    {s t : VnpuState} (r : Reach s) (st : Step s t) → view t ≡ follow (label st) (view s)
unfolding mmio_read mmio_write read_register write_register update_irq do_reset do_start
    write_vector_length set_vec_len reject_length decode
view-follow r (read s addr size) = ground arith
view-follow r (write now s addr val size) =
    let v = Reach-IsValid r in ground (arith, bit_and-one val, bit_and-two val)
view-follow r (fire now d s e h) = let v = Reach-IsValid r in ground (arith, expire_lem s v)

-- A step that is a write to CONTROL with the reset bit.
abbrev pub IsReset : {s t : VnpuState} → Step s t → Type 0
IsReset (read s addr size) = ⊥
IsReset (write now s addr val size) = (addr ≡ 0x00C) × (size ≡ 4) × (val / 2 % 2 ≡ 1)
IsReset (fire now d s e h) = ⊥

-- Once no operation is in flight, ERROR is left by CONTROL_RESET and by nothing else.
pub error_until_reset :
    {s t : VnpuState} (st : Step s t)
    → s.status ≡ status_error
    → s.dot_timer ≡ none
    → ¬ (IsReset st)
    → (t.status ≡ status_error) × (t.dot_timer ≡ none)
unfolding mmio_read mmio_write read_register write_register update_irq do_reset do_start
    write_vector_length set_vec_len reject_length decode
error_until_reset (read s addr size) e n r = ground arith
error_until_reset (write now s addr val size) e n r = grind (arith, bit_and-two val, r)
error_until_reset (fire now d s a h) e n r = cc

-- A length that is refused while an operation is in flight does not stop it: the device reports ERROR
-- at once and its timer stays pending, and unless a fault is set the expiry of that timer then takes
-- it to DONE, with no reset.
pub late_reject-done :
    (now deadline : ℕ) (s : VnpuState) (val : ℕ)
    → IsValid s
    → s.status ≡ status_busy
    → s.dot_timer ≡ some deadline
    → s.fault_control ≡ 0
    → val ≢ 8
    → val ≢ 16
    → let t = mmio_write now s 0x024 val 4 in
      (t.status ≡ status_error)
      × (t.dot_timer ≡ some deadline)
      × Step t (expire t)
      × ((expire t).status ≡ status_done)
unfolding update_irq
late_reject-done now deadline s val v b armed f p q =
    let t = mmio_write now s 0x024 val 4 in
    let valid : IsValid t = Step-IsValid (write now s 0x024 val 4) v in
    let pending : t.dot_timer ≡ some deadline = ground (arith, vector_length_lem now s val v) in
    (
      ground (arith, vector_length_lem now s val v),
      pending,
      fire deadline deadline t pending (omega arith),
      ground (arith, vector_length_lem now s val v, expire_lem t valid),
    )

-- After the removal of a device, whatever its state, the callback of its timer never runs, so nothing
-- reads the `ops` that are freed.
uninit-silent : (s t : VnpuState) → ¬ Expiry (uninit s) t
unfolding uninit
uninit-silent s t (expires now deadline _ armed due) = cc
