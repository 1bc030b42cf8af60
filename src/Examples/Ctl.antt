-- ===== src/Examples/Ctl.antt =====
-- Runs of the command-line tool's readers.
use virtual_silicon_validati.Base.{ℕ, ◌≡◌, refl, List, [], ◌∷◌, some, arith}
use virtual_silicon_validati.Base.Int.{ℤ, pos, negsuc}
use virtual_silicon_validati.Base.Codes.{codes, same}
use virtual_silicon_validati.Hal.Types.{DeviceStats, ok, throws, std_runtime_error}
use virtual_silicon_validati.Ctl.Text.{
  cut, break_at, trim, trim_front, trim_back, from_chars, digits,
}
use virtual_silicon_validati.Ctl.Args.{
  starts_with, find_from, find_command_index, option_value, get_option, get_option_or,
}
use virtual_silicon_validati.Ctl.Parse.{
  parse_int8, push_item, parse_rest, parse_items, parse_int8_list,
}
use virtual_silicon_validati.Ctl.ParseLaws.{parse_items_rounds}
use virtual_silicon_validati.Ctl.Spelling.{join}
use virtual_silicon_validati.Ctl.Decimal.{show, show_nat, show_to}
use virtual_silicon_validati.Ctl.Json.{
  DotInput, find, find_field, array_text, int_text, whole_int, parse_json_int8_array,
  parse_json_int, parse_body,
}
use virtual_silicon_validati.Ctl.JsonLaws.{render}
use virtual_silicon_validati.Ctl.RoundTrip.{parse_body-render}
use virtual_silicon_validati.Ctl.Inputs.{IsInput, parse_body-IsInput}
use virtual_silicon_validati.Ctl.Output.{stats_text}
use virtual_silicon_validati.Ctl.Answers.{Reads, stats_text-Reads}
use virtual_silicon_validati.Examples.Data.{ones, extremes, gaps, gaps-IsGaps}

-- "1", " -128" and "127\n".
abbrev one : List ℕ
one = 49 ∷ []

abbrev lowest : List ℕ
lowest = 32 ∷ 45 ∷ 49 ∷ 50 ∷ 56 ∷ []

abbrev highest : List ℕ
highest = 49 ∷ 50 ∷ 55 ∷ 10 ∷ []

abbrev texts : List (List ℕ)
texts = one ∷ lowest ∷ highest ∷ one ∷ one ∷ one ∷ one ∷ one ∷ []

abbrev elements : List ℤ
elements = pos 1 ∷ negsuc 127 ∷ pos 127 ∷ pos 1 ∷ pos 1 ∷ pos 1 ∷ pos 1 ∷ pos 1 ∷ []

texts_run : parse_int8_list (join texts) ≡ ok elements
unfolding parse_int8_list parse_items push_item parse_rest parse_int8 cut trim trim_front trim_back
    from_chars digits
texts_run = refl

parse_items_rounds_example : parse_items 1 one ≡ parse_items 9 one
parse_items_rounds_example = parse_items_rounds 1 9 one (omega arith) (omega arith)

-- A comma behind the last element is not refused.
trailing_comma_run : parse_items 8 (49 ∷ 44 ∷ 50 ∷ 44 ∷ []) ≡ ok (pos 1 ∷ pos 2 ∷ [])
unfolding parse_items push_item parse_rest parse_int8 cut trim trim_front trim_back from_chars
    digits
trailing_comma_run = refl

too_large_run :
    parse_int8 (49 ∷ 50 ∷ 56 ∷ [])
    ≡ throws (std_runtime_error (codes "int8 list value out of range"))
unfolding parse_int8 trim trim_front trim_back from_chars digits
too_large_run = refl

abbrev args : List (List ℕ)
args = codes "--device" ∷ codes "d" ∷ codes "run" ∷ codes "--" ∷ []

find_run : find_command_index args ≡ some 3
unfolding find_command_index find_from same starts_with codes
find_run = refl

device_run : get_option_or args (codes "--device") [] ≡ codes "d"
unfolding get_option_or option_value same codes
device_run = refl

missing_run :
    get_option args (codes "--input") ≡ throws (std_runtime_error (codes "missing option: --input"))
unfolding get_option option_value same codes
missing_run = refl

-- An input file.
abbrev file : List ℕ
file =
    codes
      "{ \"input_a\": [1,2,3,4,5,6,7,8], \"timeout_ms\": 9, \"input_b\": [ 1,-1,1,-1,1,-1,127,-128 ] }"

abbrev input : DotInput
input = record {
  input_a = pos 1 ∷ pos 2 ∷ pos 3 ∷ pos 4 ∷ pos 5 ∷ pos 6 ∷ pos 7 ∷ pos 8 ∷ [];
  input_b = pos 1 ∷ negsuc 0 ∷ pos 1 ∷ negsuc 0 ∷ pos 1 ∷ negsuc 0 ∷ pos 127 ∷ negsuc 127 ∷ [];
  timeout = pos 9;
}

file_run : parse_body file ≡ ok input
unfolding parse_body parse_json_int8_array parse_json_int find_field array_text int_text whole_int
    find starts_with break_at parse_int8_list parse_items push_item parse_rest parse_int8 cut trim
    trim_front trim_back from_chars digits codes
file_run = refl

parse_body-IsInput_example : IsInput input
parse_body-IsInput_example = parse_body-IsInput file input file_run

parse_body-render_example :
    parse_body (render gaps ones extremes (pos 500))
    ≡ ok (record { input_a = ones; input_b = extremes; timeout = pos 500 })
parse_body-render_example =
    parse_body-render gaps gaps-IsGaps ones extremes (pos 500) refl refl (ground arith)
      (ground arith) (omega arith) (omega arith)

show_run : show (negsuc 127) ≡ codes "-128"
unfolding show show_nat show_to codes
show_run = refl

-- A field that is missing, and a number that is followed by what does not end one.
missing_field_run :
    parse_json_int (codes "{}") (codes "timeout_ms")
    ≡ throws (std_runtime_error (codes "missing field: timeout_ms"))
unfolding parse_json_int find_field find starts_with codes
missing_field_run = refl

bad_number_run :
    parse_json_int (codes "\"timeout_ms\": 9x,") (codes "timeout_ms")
    ≡ throws (std_runtime_error (codes "invalid integer field: timeout_ms"))
unfolding parse_json_int find_field int_text whole_int find starts_with break_at trim_front
    from_chars digits codes
bad_number_run = refl

abbrev counters : DeviceStats
counters = record { submitted = 12; completed = 10; timed_out = 2; device_error = 0; resets = 305 }

stats_text-Reads_example :
    Reads (stats_text (codes "stats") counters) (codes "submitted") 12
    × Reads (stats_text (codes "stats") counters) (codes "completed") 10
    × Reads (stats_text (codes "stats") counters) (codes "timed_out") 2
    × Reads (stats_text (codes "stats") counters) (codes "device_error") 0
    × Reads (stats_text (codes "stats") counters) (codes "resets") 305
stats_text-Reads_example = stats_text-Reads counters (ground arith)
