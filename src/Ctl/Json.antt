-- ===== src/Ctl/Json.antt =====
-- The input file of `run-dot`: `parse_json_int8_array`, `parse_json_int` and
-- `parse_run_dot_input_json` of vnpuctl.cpp. A position in a text is the rest of the text from there.
use virtual_silicon_validati.Base.{
  ℕ, Bool, true, false, not, ◌||◌, List, [], ◌∷◌, ◌++◌, Option, none, some, ◌==◌, if◌then◌else◌,
  length,
}
use virtual_silicon_validati.Base.Codes.{codes}
use virtual_silicon_validati.Base.Int.{ℤ, pos, ltb_ℤ}
use virtual_silicon_validati.Hal.Types.{Result, ok, throws, std_runtime_error}
use virtual_silicon_validati.Ctl.Text.{is_empty, break_at, trim_front, from_chars}
use virtual_silicon_validati.Ctl.Args.{starts_with}
use virtual_silicon_validati.Ctl.Parse.{parse_int8_list}

pub record DotInput : Type 0 where
  pub input_a : List ℤ
  pub input_b : List ℤ
  pub timeout : ℤ

-- An exception ends the function.
infixl 5 ◌>>=◌ ◌>>◌
abbrev pub ◌>>=◌ : {A B : Type 0} → Result A → (A → Result B) → Result B
ok a >>= f = f a
throws e >>= f = throws e

abbrev pub ◌>>◌ : {B : Type 0} → Result (Unit {0}) → Result B → Result B
m >> k = m >>= λ _. k

abbrev pub throw_if : Bool → List ℕ → Result (Unit {0})
throw_if true message = throws (std_runtime_error message)
throw_if false message = ok tt

-- `body.find(key)`.
unfoldable pub find : List ℕ → List ℕ → Option (List ℕ)
find key [] = if starts_with [] key then some [] else none
find key (c ∷ cs) =
    let later = find key cs in if starts_with (c ∷ cs) key then some (c ∷ cs) else later

-- "\"" + std::string(field) + "\"".
abbrev pub key_of : List ℕ → List ℕ
key_of field = b'"' ∷ (field ++ (b'"' ∷ []))

unfoldable pub find_field : List ℕ → List ℕ → Result (List ℕ)
find_field body field = elim (find (key_of field) body) [
  | none ↦ throws (std_runtime_error (codes "missing field: " ++ field))
  | some at ↦ ok at
]

-- What stands between the first '[' and the next ']'.
unfoldable pub array_text : List ℕ → List ℕ → Result (List ℕ)
array_text at field =
    let (before, from_begin) = break_at (λ c. c == b'[') at in
    let (inside, from_end) = break_at (λ c. c == b']') from_begin in
    elim inside [
      | [] ↦ throws (std_runtime_error (codes "invalid array field: " ++ field))
      | bracket ∷ text ↦
          if is_empty from_end
          then throws (std_runtime_error (codes "invalid array field: " ++ field))
          else ok text
    ]

unfoldable pub parse_json_int8_array : List ℕ → List ℕ → Result (List ℤ)
unfolding find_field array_text
parse_json_int8_array body field = do
  at ← find_field body field
  text ← array_text at field
  parse_int8_list text

-- `find_first_of(",}\n\t ")`.
abbrev pub ends_number : ℕ → Bool
ends_number c = c == b',' || (c == b'}' || (c == b'\n' || (c == b'\t' || c == b' ')))

-- What stands behind the first ':', without the blanks in front, up to the end of the number.
unfoldable pub int_text : List ℕ → List ℕ → Result (List ℕ)
int_text at field =
    let (before, from_colon) = break_at (λ c. c == b':') at in
    elim from_colon [
      | [] ↦ throws (std_runtime_error (codes "invalid integer field: " ++ field))
      | colon ∷ behind ↦
          let begin = trim_front behind in
          if is_empty begin
          then throws (std_runtime_error (codes "invalid integer field: " ++ field))
          else ok (break_at ends_number begin).0
    ]

-- `from_chars` on the whole of a number's text.
unfoldable pub whole_int : List ℕ → List ℕ → Result ℤ
whole_int text field = elim (from_chars text) [
  | none ↦ throws (std_runtime_error (codes "invalid integer field: " ++ field))
  | some (value, rest) ↦
      if is_empty rest
      then ok value
      else throws (std_runtime_error (codes "invalid integer field: " ++ field))
]

unfoldable pub parse_json_int : List ℕ → List ℕ → Result ℤ
unfolding find_field int_text whole_int
parse_json_int body field = do
  at ← find_field body field
  text ← int_text at field
  whole_int text field

-- `parse_run_dot_input_json` from the body of the file on.
unfoldable pub parse_body : List ℕ → Result DotInput
parse_body body = do
  input_a ← parse_json_int8_array body (codes "input_a")
  input_b ← parse_json_int8_array body (codes "input_b")
  throw_if (not (length input_a == length input_b)) (codes "input_a and input_b length mismatch")
  timeout ← parse_json_int body (codes "timeout_ms")
  throw_if (not (ltb_ℤ (pos 0) timeout)) (codes "timeout_ms must be positive")
  ok (record { input_a = input_a; input_b = input_b; timeout = timeout })

-- `read_file` gives the bytes of the file at a path, where it can be opened.
unfoldable pub parse_run_dot_input_json : (List ℕ → Option (List ℕ)) → List ℕ → Result DotInput
parse_run_dot_input_json read_file path = elim (read_file path) [
  | none ↦ throws (std_runtime_error (codes "failed to open: " ++ path))
  | some body ↦ parse_body body
]
