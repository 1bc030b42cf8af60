-- ===== src/Device/Product.antt =====
-- What `vnpu_dot_product` computes: the dot product of signed bytes, with no overflow on the way.
use virtual_silicon_validati.Base.{
  ℕ, zero, suc, ◌+◌, ◌-◌, ◌*◌, ◌/◌, ◌%◌, ◌^◌, ◌≤◌, ◌<◌, List, [], ◌∷◌, ◌++◌, ◌≡◌, refl, sym, ◌∙◌,
  ltb, arith, if◌then◌else◌, get_or, bit_and, ◌⊎◌, inl, inr,
}
use virtual_silicon_validati.Base.Int.{
  ℤ, pos, negsuc, ◌+ℤ◌, ◌*ℤ◌, Within, +ℤ_assoc, +ℤ-zero, zero-+ℤ, +ℤ-Within, *ℤ-Within,
}
use virtual_silicon_validati.Base.Bits.{bit_and_byte, bit_and_top}
use virtual_silicon_validati.Base.Word.{wrap_i32, wrap_i32_of_IsI32}
use virtual_silicon_validati.Device.State.{VnpuState, status_done, irq_completion}
use virtual_silicon_validati.Device.Dot.{unpack_i8, mac, dot_word, dot_loop, dot_product}

-- The integer that a byte stands for.
abbrev pub signed_byte : ℕ → ℤ
signed_byte b = if ltb b 128 then pos b else negsuc (255 - b)

abbrev pub byte_of : ℕ → ℕ → ℕ
byte_of w k = w / 2 ^ (k * 8) % 256

-- The four elements of a word, and those of `n` words from index `i` on.
abbrev pub word_elements : ℕ → List ℤ
word_elements w =
    signed_byte (byte_of w 0)
    ∷ signed_byte (byte_of w 1)
    ∷ signed_byte (byte_of w 2)
    ∷ signed_byte (byte_of w 3)
    ∷ []

unfoldable pub elements : ℕ → ℕ → List ℕ → List ℤ
elements zero i ws = []
elements (suc n) i ws = word_elements (get_or ws i 0) ++ elements n (i + 1) ws

-- sum(input_a[i] * input_b[i])
abbrev pub dot : List ℤ → List ℤ → ℤ
dot (x ∷ xs) (y ∷ ys) = x *ℤ y +ℤ dot xs ys
dot _ _ = pos 0

-- `unpack_i8` reads byte `shift` of the word as a signed number.
pub unpack_i8_lem : (w k : ℕ) → unpack_i8 w k ≡ signed_byte (byte_of w k)
unfolding unpack_i8
unpack_i8_lem w k =
    ground (arith, bit_and_byte (w / 2 ^ (k * 8)), bit_and_top (bit_and (w / 2 ^ (k * 8)) 0xFF))

pub signed_byte-Within : (b : ℕ) → b < 256 → Within 128 (signed_byte b)
signed_byte-Within b h = ground arith

unpack-Within : (w k : ℕ) → Within 128 (unpack_i8 w k)
unpack-Within w k = rw (unpack_i8_lem w k) (signed_byte-Within (byte_of w k) (omega arith))

-- The product of two bytes is at most 128 * 128, so neither it nor the sum wraps.
pub mac_lem :
    (n : ℕ) (r x y : ℤ)
    → n ≤ 2 ^ 31 - 1 - 16384
    → Within n r
    → Within 128 x
    → Within 128 y
    → (mac r x y ≡ r +ℤ x *ℤ y) × Within (n + 16384) (mac r x y)
unfolding mac
mac_lem n r x y small hr hx hy =
    let p = *ℤ-Within 128 128 x y hx hy in
    let exact : wrap_i32 (x *ℤ y) ≡ x *ℤ y = wrap_i32_of_IsI32 (x *ℤ y) (omega arith) in
    let q = +ℤ-Within n 16384 r (x *ℤ y) hr p in
    let total : mac r x y ≡ r +ℤ x *ℤ y =
      rw exact (wrap_i32_of_IsI32 (r +ℤ x *ℤ y) (omega arith)) in
    (total, rw total q)

module _ (n : ℕ) (a b : ℕ) (r : ℤ) (small : n ≤ 2 ^ 31 - 1 - 65536) (hr : Within n r) where
  -- One round adds the four products of its two words.
  dot_word_lem :
      (xs ys : List ℤ)
      → (dot_word a b r +ℤ dot xs ys ≡ r +ℤ dot (word_elements a ++ xs) (word_elements b ++ ys))
        × Within (n + 65536) (dot_word a b r)
  unfolding dot_word
  dot_word_lem xs ys =
      let (e0, w0) =
        mac_lem n r (unpack_i8 a 0) (unpack_i8 b 0) (omega arith) hr (unpack-Within a 0)
          (unpack-Within b 0) in
      let r0 = mac r (unpack_i8 a 0) (unpack_i8 b 0) in
      let (e1, w1) =
        mac_lem (n + 16384) r0 (unpack_i8 a 1) (unpack_i8 b 1) (omega arith) w0 (unpack-Within a 1)
          (unpack-Within b 1) in
      let r1 = mac r0 (unpack_i8 a 1) (unpack_i8 b 1) in
      let (e2, w2) =
        mac_lem (n + 16384 + 16384) r1 (unpack_i8 a 2) (unpack_i8 b 2) (omega arith) w1
          (unpack-Within a 2) (unpack-Within b 2) in
      let r2 = mac r1 (unpack_i8 a 2) (unpack_i8 b 2) in
      let (e3, w3) =
        mac_lem (n + 16384 + 16384 + 16384) r2 (unpack_i8 a 3) (unpack_i8 b 3) (omega arith) w2
          (unpack-Within a 3) (unpack-Within b 3) in
      (rw (e3, e2, e1, e0) (simp (+ℤ_assoc, unpack_i8_lem)), omega (arith, w3))

-- The loop adds the products of the words that it visits, and ends in DONE.
dot_loop_lem :
    (left i k : ℕ) (s : VnpuState) (r : ℤ)
    → k + left * 65536 ≤ 2 ^ 31 - 1
    → Within k r
    → ((dot_loop left i s r).0 ≡ r +ℤ dot (elements left i s.input_a) (elements left i s.input_b))
      × Within (k + left * 65536) (dot_loop left i s r).0
unfolding dot_loop elements
dot_loop_lem zero i k s r small h = (sym (+ℤ-zero r), omega arith)
dot_loop_lem (suc left) i k s r small h =
    let a = get_or s.input_a i 0 in
    let b = get_or s.input_b i 0 in
    let (e, w) =
      dot_word_lem k a b r (omega arith) h (elements left (i + 1) s.input_a)
        (elements left (i + 1) s.input_b) in
    let s' = record s { status = status_done; irq_status = irq_completion } in
    let (e', w') = dot_loop_lem left (i + 1) (k + 65536) s' (dot_word a b r) (omega arith) w in
    (e' ∙ e, omega (arith, w'))

dot_loop-state :
    (left i : ℕ) (s : VnpuState) (r : ℤ)
    → (dot_loop (suc left) i s r).1 ≡ record s { status = status_done; irq_status = irq_completion }
unfolding dot_loop
dot_loop-state zero i s r = refl
dot_loop-state (suc left) i s r =
    dot_loop-state left (i + 1) (record s { status = status_done; irq_status = irq_completion })
      (dot_word (get_or s.input_a i 0) (get_or s.input_b i 0) r)

-- The exact dot product of the first `vec_len` elements of the input registers.
abbrev pub exact : VnpuState → ℤ
exact s = dot (elements (s.ops.vec_len / 4) 0 s.input_a) (elements (s.ops.vec_len / 4) 0 s.input_b)

loop_from_zero :
    (left : ℕ) (s : VnpuState)
    → left < 4
    → s.ops.vec_len ≡ suc left * 4
    → ((dot_loop (suc left) 0 s (pos 0)).0 ≡ exact s) × Within (s.ops.vec_len * 16384) (exact s)
loop_from_zero left s small e =
    let words : s.ops.vec_len / 4 ≡ suc left = omega arith in
    let (p, w) = dot_loop_lem (suc left) 0 0 s (pos 0) (omega arith) (omega arith) in
    let q : (dot_loop (suc left) 0 s (pos 0)).0 ≡ exact s = rw words (p ∙ zero-+ℤ _) in
    (q, omega (arith, rw q at w))

-- For both supported lengths the device computes the exact dot product of the packed signed
-- bytes, reports DONE with a completion interrupt, and the sum is at most 128 * 128 per element,
-- so no `int32_t` operation overflows.
pub dot_product_lem :
    (s : VnpuState)
    → (s.ops.vec_len ≡ 8) ⊎ (s.ops.vec_len ≡ 16)
    → (dot_product s ≡ (exact s, record s { status = status_done; irq_status = irq_completion }))
      × Within (s.ops.vec_len * 16384) (exact s)
unfolding dot_product
dot_product_lem s (inl e) =
    let (p, w) = loop_from_zero 1 s (omega arith) (omega arith) in
    (ground (arith, p, dot_loop-state 1 0 s (pos 0)), w)
dot_product_lem s (inr e) =
    let (p, w) = loop_from_zero 3 s (omega arith) (omega arith) in
    (ground (arith, p, dot_loop-state 3 0 s (pos 0)), w)
