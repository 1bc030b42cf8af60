-- ===== src/Ctl/Inputs.antt =====
-- Which inputs `run-dot` hands to the HAL.
use virtual_silicon_validati.Base.{ℕ, ◌-◌, ◌^◌, ◌≡◌, refl, List, length, All, some, arith}
use virtual_silicon_validati.Base.Int.{ℤ, pos, ◌≤ℤ◌}
use virtual_silicon_validati.Hal.Types.{Result, ok, throws, IsI8}
use virtual_silicon_validati.Ctl.Text.{from_chars}
use virtual_silicon_validati.Ctl.Parse.{parse_int8_list}
use virtual_silicon_validati.Ctl.ParseLaws.{parse_int8_list-IsI8}
use virtual_silicon_validati.Ctl.Json.{
  ◌>>=◌, DotInput, find_field, array_text, whole_int, parse_json_int8_array, parse_json_int,
  parse_body,
}

-- Two lists of eight signed bytes and a positive `int`.
pub record IsInput (input : DotInput) : Type 0 where
  pub a_length : length input.input_a ≡ 8
  pub b_length : length input.input_b ≡ 8
  pub a_bytes : All IsI8 input.input_a
  pub b_bytes : All IsI8 input.input_b
  pub positive : pos 1 ≤ℤ input.timeout
  pub small : input.timeout ≤ℤ pos (2 ^ 31 - 1)

-- What comes before a step that has succeeded has succeeded.
bind_ok :
    {A B : Type 0} (m : Result A) (f : A → Result B) (b : B)
    → (m >>= f) ≡ ok b
    → (a : A) × (m ≡ ok a) × (f a ≡ ok b)
bind_ok (ok a) f b h = (a, refl, h)
bind_ok (throws e) f b h = cc

array-IsI8 :
    (body field : List ℕ) (xs : List ℤ)
    → parse_json_int8_array body field ≡ ok xs
    → (length xs ≡ 8) × All IsI8 xs
unfolding parse_json_int8_array
array-IsI8 body field xs h =
    let (at, found, h') =
      bind_ok (find_field body field) (λ at. array_text at field >>= λ text. parse_int8_list text)
        xs h in
    let (text, inside, parsed) =
      bind_ok (array_text at field) (λ text. parse_int8_list text) xs h' in
    parse_int8_list-IsI8 text xs parsed

from_chars-small :
    (text rest : List ℕ) (x : ℤ) → from_chars text ≡ some (x, rest) → x ≤ℤ pos (2 ^ 31 - 1)
unfolding from_chars
from_chars-small text rest x h = ground arith

parse_json_int-small :
    (body field : List ℕ) (x : ℤ) → parse_json_int body field ≡ ok x → x ≤ℤ pos (2 ^ 31 - 1)
unfolding parse_json_int whole_int
parse_json_int-small body field x h = grind (arith, from_chars-small)

-- Whatever the file holds, an input that is read has two lists of eight signed bytes and a timeout
-- from 1 to 2 ^ 31 - 1.
pub parse_body-IsInput :
    (body : List ℕ) (input : DotInput) → parse_body body ≡ ok input → IsInput input
unfolding parse_body
parse_body-IsInput body input h = grind (arith, array-IsI8, parse_json_int-small)
