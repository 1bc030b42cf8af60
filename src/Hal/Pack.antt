-- ===== src/Hal/Pack.antt =====
-- `LinuxVnpuDevice::pack_int8_input`.
use virtual_silicon_validati.Base.{
  ℕ, zero, suc, ◌+◌, ◌-◌, ◌*◌, ◌/◌, ◌%◌, ◌^◌, List, [], ◌∷◌, bit_or, ltb, if◌then◌else◌, get_or,
  set, length,
}
use virtual_silicon_validati.Base.Int.{ℤ, pos, negsuc}
use virtual_silicon_validati.Base.Word.{u32}

-- `static_cast<std::uint8_t>`.
abbrev pub to_u8 : ℤ → ℕ
to_u8 (pos n) = n % 256
to_u8 (negsuc n) = 255 - n % 256

-- The inner loop from index `byte`, with at most `left` rounds to go of the four.
unfoldable pub pack_bytes : ℕ → ℕ → List ℤ → ℕ → ℕ → ℕ
pack_bytes zero byte input at word = word
pack_bytes (suc left) byte input at word =
    let rest =
      pack_bytes left (byte + 1) input at
        (bit_or word (u32 (to_u8 (get_or input (at + byte) (pos 0)) * 2 ^ (byte * 8)))) in
    if ltb (at + byte) (length input) then rest else word

-- The outer loop from index `out`; a write outside of the array would be undefined.
unfoldable pub pack_words : ℕ → ℕ → List ℤ → List ℕ → List ℕ
pack_words zero out input packed = packed
pack_words (suc left) out input packed =
    pack_words left (out + 1) input (set packed out (pack_bytes 4 0 input (out * 4) 0))

unfoldable pub pack_int8_input : List ℤ → List ℕ
pack_int8_input input = pack_words ((length input + 3) / 4) 0 input (0 ∷ 0 ∷ 0 ∷ 0 ∷ [])
