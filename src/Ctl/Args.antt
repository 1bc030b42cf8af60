-- ===== src/Ctl/Args.antt =====
-- How vnpuctl.cpp finds its command and its options. The arguments are those from `argv[1]` on.
use virtual_silicon_validati.Base.{
  ℕ, ◌+◌, Bool, true, false, ◌&&◌, ◌||◌, List, [], ◌∷◌, ◌++◌, Option, none, some, ◌==◌,
  if◌then◌else◌,
}
use virtual_silicon_validati.Base.Codes.{codes, same}
use virtual_silicon_validati.Hal.Types.{Result, ok, throws, std_runtime_error}

-- `starts_with` of `std::string_view`.
unfoldable pub starts_with : List ℕ → List ℕ → Bool
starts_with text [] = true
starts_with (c ∷ cs) (d ∷ ds) = c == d && starts_with cs ds
starts_with [] (d ∷ ds) = false

-- The loop of `find_command_index` from index `i`; `none` is -1.
unfoldable pub find_from : ℕ → List (List ℕ) → Option ℕ
find_from i [] = none
find_from i (arg ∷ []) =
    if same arg (codes "--device")
    then none
    else if starts_with arg (codes "--")
    then none
    else some i
find_from i (arg ∷ next ∷ args) =
    let others = find_from (i + 1) (next ∷ args) in
    let behind_value = find_from (i + 2) args in
    if same arg (codes "--device")
    then behind_value
    else if starts_with arg (codes "--")
    then others
    else some i

unfoldable pub find_command_index : List (List ℕ) → Option ℕ
find_command_index args = find_from 1 args

-- The loop that `get_option` and `get_option_or` share: the argument behind the first one that is
-- the option, which may not be the last argument.
unfoldable pub option_value : List (List ℕ) → List ℕ → Option (List ℕ)
option_value [] option = none
option_value (arg ∷ []) option = none
option_value (arg ∷ next ∷ args) option =
    let others = option_value (next ∷ args) option in if same arg option then some next else others

unfoldable pub get_option : List (List ℕ) → List ℕ → Result (List ℕ)
get_option args option = elim (option_value args option) [
  | some value ↦ ok value
  | none ↦ throws (std_runtime_error (codes "missing option: " ++ option))
]

unfoldable pub get_option_or : List (List ℕ) → List ℕ → List ℕ → List ℕ
get_option_or args option fallback = elim (option_value args option) [
  | some value ↦ value
  | none ↦ fallback
]

unfoldable pub has_flag : List (List ℕ) → List ℕ → Bool
has_flag [] flag = false
has_flag (arg ∷ args) flag = same arg flag || has_flag args flag
