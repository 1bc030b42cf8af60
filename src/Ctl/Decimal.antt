-- ===== src/Ctl/Decimal.antt =====
-- `operator<<` on integers, and that `std::from_chars` reads what it writes.
use mathlib.Core.List.{append_assoc}
use virtual_silicon_validati.Base.{
  ℕ, zero, suc, ◌+◌, ◌-◌, ◌*◌, ◌/◌, ◌%◌, ◌<◌, ◌≡◌, ◌∙◌, refl, ap, inl, inr, Bool, Bool-cases, true,
  false, ◌||◌, List, [], ◌∷◌, ◌++◌, some, ◌==◌, ltb, if◌then◌else◌, length, length-append, All,
  All-append, All-mono, arith,
}
use virtual_silicon_validati.Base.Int.{ℤ, pos, negsuc}
use virtual_silicon_validati.Base.Word.{IsI32}
use virtual_silicon_validati.Ctl.Text.{
  is_digit, starts_with_digit, digits, has_minus, without_minus, from_chars,
}

-- The decimal digits of a number, with at most the rounds given.
unfoldable pub show_to : ℕ → ℕ → List ℕ
show_to zero n = []
show_to (suc rounds) n =
    let front = show_to rounds (n / 10) in
    if ltb n 10 then (b'0' + n) ∷ [] else front ++ ((b'0' + n % 10) ∷ [])

-- A round for each unit is more than enough.
unfoldable pub show_nat : ℕ → List ℕ
show_nat n = show_to (suc n) n

unfoldable pub show : ℤ → List ℕ
unfolding show_nat
show (pos n) = show_nat n
show (negsuc n) = b'-' ∷ show_nat (suc n)

digits_step :
    (v d : ℕ) (rest : List ℕ) → d < 10 → digits v ((b'0' + d) ∷ rest) ≡ digits (v * 10 + d) rest
unfolding digits
digits_step v d rest h = let e : b'0' + d - b'0' ≡ d = omega arith in ground (arith, e)

digits-show_to :
    (rounds n : ℕ) (rest : List ℕ)
    → n < rounds
    → digits 0 (show_to rounds n ++ rest) ≡ digits n rest
unfolding show_to
digits-show_to zero n rest h = absurd (omega arith)
digits-show_to (suc rounds) n rest h = elim (Bool-cases (ltb n 10)) [
  | inl small ↦
      let value : 0 * 10 + n ≡ n = omega arith in
      rw small (digits_step 0 n rest (ground arith) ∙ ap (λ t. digits t rest) value)
  | inr large ↦
      let value : n / 10 * 10 + n % 10 ≡ n = omega arith in
      let less : n / 10 < rounds = ground arith in
      rw (large, append_assoc)
        (digits-show_to rounds (n / 10) ((b'0' + n % 10) ∷ rest) less
          ∙ digits_step (n / 10) (n % 10) rest (omega arith)
          ∙ ap (λ t. digits t rest) value)
]

show_to-digits : (rounds n : ℕ) → All (λ c. is_digit c ≡ true) (show_to rounds n)
unfolding show_to
show_to-digits zero n = tt
show_to-digits (suc rounds) n = elim (Bool-cases (ltb n 10)) [
  | inl small ↦ rw small (ground arith, tt)
  | inr large ↦ rw large (
      All-append (λ c. is_digit c ≡ true) (show_to rounds (n / 10)) ((b'0' + n % 10) ∷ [])
        (show_to-digits rounds (n / 10)) (ground arith, tt))
]

-- What is written starts with a digit, or with a minus and then a digit.
digit_front :
    (t rest : List ℕ)
    → All (λ c. is_digit c ≡ true) t
    → 0 < length t
    → (starts_with_digit (t ++ rest) ≡ true)
      × (has_minus (t ++ rest) ≡ false)
      × (without_minus (t ++ rest) ≡ t ++ rest)
digit_front [] rest h p = absurd (omega arith)
digit_front (c ∷ cs) rest h p = let d = h.0 in (d, ground arith, ground arith)

length-show_to : (rounds n : ℕ) → 0 < length (show_to (suc rounds) n)
unfolding show_to
length-show_to rounds n = elim (Bool-cases (ltb n 10)) [
  | inl small ↦ rw small (omega arith)
  | inr large ↦
      rw large (omega (arith, length-append (show_to rounds (n / 10)) ((b'0' + n % 10) ∷ [])))
]

digits_end : (n : ℕ) (rest : List ℕ) → starts_with_digit rest ≡ false → digits n rest ≡ (n, rest)
unfolding digits
digits_end n [] h = refl
digits_end n (c ∷ cs) h = rw h refl

-- `std::from_chars` reads back every `int` that is written, up to what follows it, which must not
-- start with a digit.
pub from_chars-show :
    (x : ℤ) (rest : List ℕ)
    → IsI32 x
    → starts_with_digit rest ≡ false
    → from_chars (show x ++ rest) ≡ some (x, rest)
unfolding from_chars show
from_chars-show (pos n) rest i h =
    let (d, m, w) =
      digit_front (show_to (suc n) n) rest (show_to-digits (suc n) n) (length-show_to n n) in
    let value = digits-show_to (suc n) n rest (omega arith) ∙ digits_end n rest h in
    rw (w, d, m, value) (ground arith)
from_chars-show (negsuc n) rest i h =
    let (d, m, w) =
      digit_front (show_to (suc (suc n)) (suc n)) rest (show_to-digits (suc (suc n)) (suc n))
        (length-show_to (suc n) (suc n)) in
    let value =
      digits-show_to (suc (suc n)) (suc n) rest (omega arith) ∙ digits_end (suc n) rest h in
    rw (d, value) (ground arith)

-- The bytes that a number is written with.
abbrev pub is_number_byte : ℕ → Bool
is_number_byte c = c == b'-' || is_digit c

pub show-bytes : (x : ℤ) → All (λ c. is_number_byte c ≡ true) (show x)
unfolding show
show-bytes (pos n) =
    All-mono (λ c. is_digit c ≡ true) (λ c. is_number_byte c ≡ true) (show_to (suc n) n)
      (λ c h. ground arith) (show_to-digits (suc n) n)
show-bytes (negsuc n) = (
  refl,
  All-mono (λ c. is_digit c ≡ true) (λ c. is_number_byte c ≡ true) (show_to (suc (suc n)) (suc n))
      (λ c h. ground arith) (show_to-digits (suc (suc n)) (suc n)),
)

pub length-show : (x : ℤ) → 0 < length (show x)
unfolding show
length-show (pos n) = length-show_to n n
length-show (negsuc n) = omega arith
