-- ===== src/Ctl/Text.antt =====
-- `trim` of vnpuctl.cpp, and what the file uses of `std::string_view` and `std::from_chars`. A text
-- is the list of its bytes.
use virtual_silicon_validati.Base.{
  ℕ, zero, suc, ◌+◌, ◌-◌, ◌*◌, ◌^◌, Bool, true, false, not, ◌&&◌, ◌||◌, List, [], ◌∷◌, Option, none,
  some, ◌==◌, ltb, leb, if◌then◌else◌,
}
use virtual_silicon_validati.Base.Int.{ℤ, pos, negsuc}

abbrev pub is_blank : ℕ → Bool
is_blank c = c == b' ' || (c == b'\n' || c == b'\t')

abbrev pub is_empty : List ℕ → Bool
is_empty [] = true
is_empty (c ∷ cs) = false

-- The two loops of `trim`.
unfoldable pub trim_front : List ℕ → List ℕ
trim_front [] = []
trim_front (c ∷ cs) = let rest = trim_front cs in if is_blank c then rest else c ∷ cs

unfoldable pub trim_back : List ℕ → List ℕ
trim_back [] = []
trim_back (c ∷ cs) = let rest = trim_back cs in if is_blank c && is_empty rest then [] else c ∷ rest

unfoldable pub trim : List ℕ → List ℕ
trim text = trim_back (trim_front text)

-- `find(',')` with `substr` and `remove_prefix`: what stands before the first comma, and what stands
-- behind it, where there is one.
unfoldable pub cut : List ℕ → List ℕ × Option (List ℕ)
cut [] = ([], none)
cut (c ∷ cs) = let (token, rest) = cut cs in if c == b',' then ([], some cs) else (c ∷ token, rest)

-- What stands before the first byte that passes the test, and what stands from it on, which is
-- empty where `find` gives `npos`.
unfoldable pub break_at : (ℕ → Bool) → List ℕ → List ℕ × List ℕ
break_at test [] = ([], [])
break_at test (c ∷ cs) =
    let (before, rest) = break_at test cs in if test c then ([], c ∷ cs) else (c ∷ before, rest)

abbrev pub is_digit : ℕ → Bool
is_digit c = leb b'0' c && leb c b'9'

abbrev pub starts_with_digit : List ℕ → Bool
starts_with_digit [] = false
starts_with_digit (c ∷ cs) = is_digit c

-- The value of the leading digits, from the value of those before them, and the rest.
unfoldable pub digits : ℕ → List ℕ → ℕ × List ℕ
digits value [] = (value, [])
digits value (c ∷ cs) =
    let after = digits (value * 10 + (c - b'0')) cs in if is_digit c then after else (value, c ∷ cs)

abbrev pub negated : ℕ → ℤ
negated zero = pos 0
negated (suc n) = negsuc n

-- The minus sign that a number may start with.
abbrev pub has_minus : List ℕ → Bool
has_minus [] = false
has_minus (c ∷ cs) = c == b'-'

abbrev pub without_minus : List ℕ → List ℕ
without_minus [] = []
without_minus (c ∷ cs) = if c == b'-' then cs else c ∷ cs

-- `std::from_chars` at `int`: the value and the text at `ptr`, or `none` for an error.
unfoldable pub from_chars : List ℕ → Option (ℤ × List ℕ)
from_chars text =
    let (value, rest) = digits 0 (without_minus text) in
    if not (starts_with_digit (without_minus text))
    then none
    else if has_minus text
    then (if leb value (2 ^ 31) then some (negated value, rest) else none)
    else if ltb value (2 ^ 31)
    then some (pos value, rest)
    else none
