-- ===== src/Device/Protocol.antt =====
-- One operation of the device, as a guest runs it by the registers: clear and enable the interrupts,
-- write the inputs and the length, start, and let the timer expire.
use virtual_silicon_validati.Base.{
  ℕ, zero, suc, ◌+◌, ◌*◌, ◌/◌, ◌^◌, ◌<◌, ◌≡◌, ◌⊎◌, inl, inr, Bool-cases, sym, subst, true, false,
  not, ◌||◌, List, [], ◌∷◌, some, none, ◌==◌, if◌then◌else◌, arith, get_or, set, length,
}
use virtual_silicon_validati.Base.Int.{ℤ}
use virtual_silicon_validati.Base.Bits.{bit_and_two_digits}
use virtual_silicon_validati.Base.Word.{
  u32, not64, to_i32, of_i64, IsI32, u32-of_i64, to_i32-of_i32,
}
use virtual_silicon_validati.Device.State.{VnpuState, update_irq, status_idle, status_busy}
use virtual_silicon_validati.Device.Mmio.{
  mmio_read, mmio_write, decode, read_register, write_register, do_start, write_vector_length,
  set_vec_len, reject_length,
}
use virtual_silicon_validati.Device.Timer.{expire}
use virtual_silicon_validati.Device.Product.{elements, exact, dot}
use virtual_silicon_validati.Device.Faults.{flipped, flipped-IsI32, corrupt_lem}
use virtual_silicon_validati.Device.Invariant.{
  IsValid, IsWords, IsWords-set, expire_lem, exact-IsI32,
}
use virtual_silicon_validati.Device.Registers.{is_length}

-- The two inputs, word by word from index `i` on.
unfoldable pub load : ℕ → ℕ → List ℕ → List ℕ → ℕ → VnpuState → VnpuState
load zero i a b now s = s
load (suc left) i a b now s = load left (i + 1) a b now (
    mmio_write now (mmio_write now s (0x100 + i * 4) (get_or a i 0) 4) (0x120 + i * 4)
      (get_or b i 0) 4)

-- The operation of `n` words, four elements each, up to its start.
unfoldable pub operate : ℕ → ℕ → List ℕ → List ℕ → VnpuState → VnpuState
unfolding load
operate now n a b s =
    let enabled = mmio_write now (mmio_write now s 0x014 3 4) 0x018 3 4 in
    mmio_write now (mmio_write now (load n 0 a b now enabled) 0x024 (n * 4) 4) 0x00C 1 4

-- The device is idle, and takes a length of `n` words.
pub record IsOperable (n : ℕ) (a b : List ℕ) (s : VnpuState) : Type 0 where
  pub words : (n ≡ 2) ⊎ (n ≡ 4)
  pub accepted : is_length s.ops.revision (n * 4) ≡ true
  pub a_words : IsWords a
  pub b_words : IsWords b
  pub valid : IsValid s
  pub is_idle : s.status ≡ status_idle

-- The first `n` of four words, written over the others.
abbrev loaded : ℕ → List ℕ → List ℕ → List ℕ
loaded n new old =
    if n == 2
    then set (set old 0 (u32 (get_or new 0 0))) 1 (u32 (get_or new 1 0))
    else set
        (set (set (set old 0 (u32 (get_or new 0 0))) 1 (u32 (get_or new 1 0))) 2
          (u32 (get_or new 2 0)))
        3 (u32 (get_or new 3 0))

-- The device with the operation started.
abbrev started : ℕ → ℕ → List ℕ → List ℕ → VnpuState → VnpuState
started now n a b s = record s {
  irq_status = 0;
  irq_enable = 3;
  irq_line = false;
  input_a = loaded n a s.input_a;
  input_b = loaded n b s.input_b;
  ops = record s.ops { vec_len = n * 4 };
  status = status_busy;
  err_code = 0;
  dot_timer = some (now + 100);
}

u32_of_lt : (x : ℕ) → x < 2 ^ 32 → u32 x ≡ x
u32_of_lt x h = omega arith

loaded_two :
    (new old : List ℕ)
    → IsWords new
    → length old ≡ 4
    → elements 2 0 (loaded 2 new old) ≡ elements 2 0 new
unfolding elements
loaded_two (x ∷ y ∷ z ∷ w ∷ []) (a ∷ b ∷ c ∷ d ∷ []) h l =
    rw (u32_of_lt x h.words.0, u32_of_lt y h.words.1.0)
loaded_two _ _ h l = ground arith

loaded_four :
    (new old : List ℕ)
    → IsWords new
    → length old ≡ 4
    → elements 4 0 (loaded 4 new old) ≡ elements 4 0 new
unfolding elements
loaded_four (x ∷ y ∷ z ∷ w ∷ []) (a ∷ b ∷ c ∷ d ∷ []) h l = rw (
  u32_of_lt x h.words.0,
  u32_of_lt y h.words.1.0,
  u32_of_lt z h.words.1.1.0,
  u32_of_lt w h.words.1.1.1.0,
)
loaded_four _ _ h l = ground arith

put : ℕ → List ℕ → List ℕ → List ℕ
put i new old = set old i (u32 (get_or new i 0))

put-IsWords : (i : ℕ) (new old : List ℕ) → IsWords old → IsWords (put i new old)
unfolding put
put-IsWords i new old w = IsWords-set old i (get_or new i 0) w

loaded-IsWords : (n : ℕ) (new old : List ℕ) → IsWords old → IsWords (loaded n new old)
unfolding put
loaded-IsWords n new old w =
    let two = put-IsWords 1 new (put 0 new old) (put-IsWords 0 new old w) in
    let three = put-IsWords 2 new (put 1 new (put 0 new old)) two in
    let four = put-IsWords 3 new (put 2 new (put 1 new (put 0 new old))) three in
    elim (Bool-cases (n == 2)) [ inl e ↦ rw e two | inr e ↦ rw e four ]

loaded_lem :
    (n : ℕ) (new old : List ℕ)
    → (n ≡ 2) ⊎ (n ≡ 4)
    → IsWords new
    → length old ≡ 4
    → elements n 0 (loaded n new old) ≡ elements n 0 new
loaded_lem n new old (inl p) h l =
    subst (λ k. elements k 0 (loaded k new old) ≡ elements k 0 new) (sym p) (loaded_two new old h l)
loaded_lem n new old (inr p) h l =
    subst (λ k. elements k 0 (loaded k new old) ≡ elements k 0 new) (sym p)
      (loaded_four new old h l)

operate_two :
    (now : ℕ) (a b : List ℕ) (s : VnpuState)
    → IsOperable 2 a b s
    → operate now 2 a b s ≡ started now 2 a b s
unfolding operate load mmio_write decode write_register update_irq do_start write_vector_length
    set_vec_len reject_length
operate_two now a b s h =
    let v = h.valid in
    let i = h.is_idle in
    let l = h.accepted in ground (arith, bit_and_two_digits s.irq_status (not64 3))

operate_four :
    (now : ℕ) (a b : List ℕ) (s : VnpuState)
    → IsOperable 4 a b s
    → operate now 4 a b s ≡ started now 4 a b s
unfolding operate load mmio_write decode write_register update_irq do_start write_vector_length
    set_vec_len reject_length
operate_four now a b s h =
    let v = h.valid in
    let i = h.is_idle in
    let l = h.accepted in ground (arith, bit_and_two_digits s.irq_status (not64 3))

operate_lem :
    (now n : ℕ) (a b : List ℕ) (s : VnpuState)
    → IsOperable n a b s
    → operate now n a b s ≡ started now n a b s
operate_lem now n a b s h = elim h.words [
  | inl e ↦
      subst (λ k. IsOperable k a b s → operate now k a b s ≡ started now k a b s) (sym e)
        (operate_two now a b s) h
  | inr e ↦
      subst (λ k. IsOperable k a b s → operate now k a b s ≡ started now k a b s) (sym e)
        (operate_four now a b s) h
]

started-IsValid :
    (now n : ℕ) (a b : List ℕ) (s : VnpuState) → IsOperable n a b s → IsValid (started now n a b s)
started-IsValid now n a b s h =
    let v = h.valid in
    let x = loaded-IsWords n a s.input_a v.a_words in
    let y = loaded-IsWords n b s.input_b v.b_words in
    let w = h.words in let l = h.accepted in ground arith

exact-started :
    (now n : ℕ) (a b : List ℕ) (s : VnpuState)
    → IsOperable n a b s
    → exact (started now n a b s) ≡ dot (elements n 0 a) (elements n 0 b)
exact-started now n a b s h =
    let count : n * 4 / 4 ≡ n = omega arith in
    rw (
      count,
      loaded_lem n a s.input_a h.words h.a_words h.valid.a_words.four,
      loaded_lem n b s.input_b h.words h.b_words h.valid.b_words.four,
    )

delivered : (r : ℤ) → IsI32 r → to_i32 (u32 (of_i64 r)) ≡ r
delivered r h = rw (u32-of_i64 r) (to_i32-of_i32 r h)

-- A guest that runs an operation on an idle device of either revision, with eight elements or, on
-- revision B, sixteen, finds it BUSY with its timer 100 ms ahead. When that timer expires, the device
-- is DONE, raises its interrupt, and RESULT reads as the exact dot product of the signed bytes of the
-- words. The one fault that is set changes just this: FAULT_IRQ_DROP keeps the interrupt low,
-- FAULT_STUCK_BUSY does and leaves BUSY, FAULT_CORRUPT_RESULT flips the lowest bit of the result, and
-- FAULT_FORCE_ERROR leaves ERROR.
pub operate-expires :
    (now n : ℕ) (a b : List ℕ) (s : VnpuState)
    → IsOperable n a b s
    → let t = operate now n a b s in
      let value = dot (elements n 0 a) (elements n 0 b) in
      let f = s.fault_control in
      (t.status ≡ 1)
      × (t.dot_timer ≡ some (now + 100))
      × ((expire t).status ≡ (if f == 2 then 1 else if f == 8 then 3 else 2))
      × ((expire t).irq_line ≡ not (f == 1 || f == 2))
      × ((expire t).dot_timer ≡ none)
      × (to_i32 (u32 (mmio_read (expire t) 0x140 4).0) ≡ (if f == 4 then flipped value else value))
unfolding mmio_read decode read_register update_irq
operate-expires now n a b s h =
    let t = started now n a b s in
    let valid = started-IsValid now n a b s h in
    let ends = expire_lem t valid in
    let value = exact-started now n a b s h in
    let small : IsI32 (dot (elements n 0 a) (elements n 0 b)) =
      subst IsI32 value (exact-IsI32 t valid) in
    let one = h.valid.one_fault in
    ground (
      arith,
      operate_lem now n a b s h,
      ends,
      value,
      corrupt_lem (dot (elements n 0 a) (elements n 0 b)),
      delivered (dot (elements n 0 a) (elements n 0 b)),
      delivered (flipped (dot (elements n 0 a) (elements n 0 b))),
      flipped-IsI32 (dot (elements n 0 a) (elements n 0 b)),
    )
