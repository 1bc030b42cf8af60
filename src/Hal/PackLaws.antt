-- ===== src/Hal/PackLaws.antt =====
-- What `pack_int8_input` gives: the words from which the device unpacks the same elements.
use virtual_silicon_validati.Base.{
  ℕ, ◌+◌, ◌*◌, ◌^◌, ◌<◌, ◌≡◌, refl, List, [], ◌∷◌, ◌++◌, bit_or, length, All, arith,
}
use virtual_silicon_validati.Base.Int.{ℤ, pos, negsuc}
use virtual_silicon_validati.Base.Bits.{bit_or_high}
use virtual_silicon_validati.Base.Digits.{zero-bit_or}
use virtual_silicon_validati.Base.Word.{u32}
use virtual_silicon_validati.Device.Product.{signed_byte, byte_of, word_elements, elements}
use virtual_silicon_validati.Device.Invariant.{IsWords}
use virtual_silicon_validati.Hal.Types.{IsI8}
use virtual_silicon_validati.Hal.Pack.{to_u8, pack_bytes, pack_words, pack_int8_input}

signed_byte-to_u8 : (x : ℤ) → IsI8 x → signed_byte (to_u8 x) ≡ x
signed_byte-to_u8 (pos n) h = ground arith
signed_byte-to_u8 (negsuc n) h = ground arith

to_u8-lt : (x : ℤ) → to_u8 x < 256
to_u8-lt (pos n) = omega arith
to_u8-lt (negsuc n) = omega arith

-- Four bytes joined by `|=`, lowest first.
abbrev joined : ℕ → ℕ → ℕ → ℕ → ℕ
joined a b c d =
    bit_or (bit_or (bit_or (bit_or 0 (u32 (a * 2 ^ 0))) (u32 (b * 2 ^ 8))) (u32 (c * 2 ^ 16)))
      (u32 (d * 2 ^ 24))

joined_lem :
    (a b c d : ℕ)
    → a < 256
    → b < 256
    → c < 256
    → d < 256
    → joined a b c d ≡ a + b * 2 ^ 8 + c * 2 ^ 16 + d * 2 ^ 24
joined_lem a b c d p q r s =
    let ea : u32 (a * 2 ^ 0) ≡ a = omega arith in
    let eb : u32 (b * 2 ^ 8) ≡ b * 2 ^ 8 = omega arith in
    let ec : u32 (c * 2 ^ 16) ≡ c * 2 ^ 16 = omega arith in
    let ed : u32 (d * 2 ^ 24) ≡ d * 2 ^ 24 = omega arith in
    rw (
      ea,
      eb,
      ec,
      ed,
      zero-bit_or a,
      bit_or_high 8 a b p,
      bit_or_high 16 (a + b * 2 ^ 8) c (omega arith),
      bit_or_high 24 (a + b * 2 ^ 8 + c * 2 ^ 16) d (omega arith),
    )

-- The word of four elements holds them.
word_elements-joined :
    (x y z w : ℤ)
    → IsI8 x
    → IsI8 y
    → IsI8 z
    → IsI8 w
    → (word_elements (joined (to_u8 x) (to_u8 y) (to_u8 z) (to_u8 w)) ≡ x ∷ y ∷ z ∷ w ∷ [])
      × (joined (to_u8 x) (to_u8 y) (to_u8 z) (to_u8 w) < 2 ^ 32)
word_elements-joined x y z w hx hy hz hw =
    let a = to_u8 x in
    let b = to_u8 y in
    let c = to_u8 z in
    let d = to_u8 w in
    let p = to_u8-lt x in
    let q = to_u8-lt y in
    let r = to_u8-lt z in
    let s = to_u8-lt w in
    let e = joined_lem a b c d p q r s in
    let b0 : byte_of (a + b * 2 ^ 8 + c * 2 ^ 16 + d * 2 ^ 24) 0 ≡ a = omega arith in
    let b1 : byte_of (a + b * 2 ^ 8 + c * 2 ^ 16 + d * 2 ^ 24) 1 ≡ b = omega arith in
    let b2 : byte_of (a + b * 2 ^ 8 + c * 2 ^ 16 + d * 2 ^ 24) 2 ≡ c = omega arith in
    let b3 : byte_of (a + b * 2 ^ 8 + c * 2 ^ 16 + d * 2 ^ 24) 3 ≡ d = omega arith in
    (
      rw (
        e,
        b0,
        b1,
        b2,
        b3,
        signed_byte-to_u8 x hx,
        signed_byte-to_u8 y hy,
        signed_byte-to_u8 z hz,
        signed_byte-to_u8 w hw,
      ),
      rw e (omega arith),
    )

-- Eight signed bytes are packed into the two lower words, from which the device unpacks exactly
-- them, and the two upper words are 0.
pub pack-elements :
    (xs : List ℤ)
    → length xs ≡ 8
    → All IsI8 xs
    → IsWords (pack_int8_input xs)
      × (elements 2 0 (pack_int8_input xs) ≡ xs)
      × (elements 2 2 (pack_int8_input xs) ≡ elements 2 2 (0 ∷ 0 ∷ 0 ∷ 0 ∷ []))
unfolding pack_int8_input pack_words pack_bytes elements
pack-elements (x0 ∷ x1 ∷ x2 ∷ x3 ∷ x4 ∷ x5 ∷ x6 ∷ x7 ∷ []) l h =
    let t = h.1.1.1.1 in
    let (e, p) = word_elements-joined x0 x1 x2 x3 h.0 h.1.0 h.1.1.0 h.1.1.1.0 in
    let (f, q) = word_elements-joined x4 x5 x6 x7 t.0 t.1.0 t.1.1.0 t.1.1.1.0 in
    (record { four = refl; words = (p, (q, omega arith)) }, λ i. e i ++ (f i ++ []), refl)
pack-elements _ l h = absurd (omega (arith, l))
