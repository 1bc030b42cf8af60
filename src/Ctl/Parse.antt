-- ===== src/Ctl/Parse.antt =====
-- `parse_int8_list` of vnpuctl.cpp.
use virtual_silicon_validati.Base.{
  ℕ, zero, suc, ◌||◌, not, List, [], ◌∷◌, Option, none, some, ◌==◌, if◌then◌else◌, length,
}
use virtual_silicon_validati.Base.Int.{ℤ, pos, negsuc, ltb_ℤ}
use virtual_silicon_validati.Base.Codes.{codes}
use virtual_silicon_validati.Hal.Types.{Result, ok, throws, std_runtime_error}
use virtual_silicon_validati.Ctl.Text.{is_empty, trim, cut, from_chars}

-- The body of the loop up to `push_back`: one element from what stands before a comma.
unfoldable pub parse_int8 : List ℕ → Result ℤ
parse_int8 text = elim (from_chars (trim text)) [
  | none ↦ throws (std_runtime_error (codes "invalid int8 list"))
  | some (value, rest) ↦
      if not (is_empty rest)
      then throws (std_runtime_error (codes "invalid int8 list"))
      else if ltb_ℤ value (negsuc 127) || ltb_ℤ (pos 127) value
      then throws (std_runtime_error (codes "int8 list value out of range"))
      else ok value
]

-- `push_back` of an element before those of the later rounds.
unfoldable pub push_item : Result ℤ → Result (List ℤ) → Result (List ℤ)
push_item (throws e) others = throws e
push_item (ok value) (throws e) = throws e
push_item (ok value) (ok out) = ok (value ∷ out)

-- The rounds after this one, on what stands behind the comma; with no comma the loop ends.
unfoldable pub parse_rest : (List ℕ → Result (List ℤ)) → Option (List ℕ) → Result (List ℤ)
parse_rest rounds none = ok []
parse_rest rounds (some rest) = rounds rest

-- The loop: the elements that it pushes, in order, with at most the rounds given.
unfoldable pub parse_items : ℕ → List ℕ → Result (List ℤ)
unfolding push_item parse_rest
parse_items zero text = ok []
parse_items (suc rounds) text =
    let (token, rest) = cut text in
    let others = parse_rest (parse_items rounds) rest in
    if is_empty text then ok [] else push_item (parse_int8 token) others

unfoldable pub parse_int8_list : List ℕ → Result (List ℤ)
parse_int8_list text = elim (parse_items (length text) text) [
  | throws e ↦ throws e
  | ok out ↦
      if not (length out == 8)
      then throws (std_runtime_error (codes "Revision A requires exactly 8 elements"))
      else ok out
]
