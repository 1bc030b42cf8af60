-- ===== src/Ctl/Answers.antt =====
-- That the numbers in the answers of vnpuctl can be read back.
use mathlib.Core.List.{append-nil}
use virtual_silicon_validati.Base.{
  ℕ, ◌^◌, ◌<◌, ◌≡◌, ◌∙◌, refl, ap, sym, true, false, List, [], ◌∷◌, ◌++◌, some, ◌==◌, length-append,
  All-mono, arith,
}
use virtual_silicon_validati.Base.Codes.{codes}
use virtual_silicon_validati.Base.Int.{ℤ, pos}
use virtual_silicon_validati.Base.Word.{IsI32}
use virtual_silicon_validati.Hal.Types.{ok, DotProductResult, DeviceStats}
use virtual_silicon_validati.Ctl.Text.{break_at, from_chars}
use virtual_silicon_validati.Ctl.Args.{starts_with}
use virtual_silicon_validati.Ctl.Decimal.{
  show, show_nat, show-bytes, length-show, is_number_byte, from_chars-show,
}
use virtual_silicon_validati.Ctl.Json.{
  find, key_of, find_field, ends_number, whole_int, parse_json_int,
}
use virtual_silicon_validati.Ctl.JsonLaws.{Lacks, quote, find_past, break_at_past}
use virtual_silicon_validati.Ctl.RoundTrip.{trim_front-show, int_text_of}
use virtual_silicon_validati.Ctl.Output.{stats_text, dot_text, driver_status_to_string}

-- A number right behind its colon, up to a byte that ends it.
read_number :
    (body field : List ℕ) (x : ℤ) (c : ℕ) (rest : List ℕ)
    → find (key_of field) body ≡ some (key_of field ++ (b':' ∷ (show x ++ (c ∷ rest))))
    → (break_at (λ c. c == b':') (key_of field ++ (b':' ∷ (show x ++ (c ∷ rest))))).1
      ≡ b':' ∷ (show x ++ (c ∷ rest))
    → ends_number c ≡ true
    → IsI32 x
    → parse_json_int body field ≡ ok x
unfolding parse_json_int find_field whole_int break_at
read_number body field x c rest found colon ends i =
    let at = key_of field ++ (b':' ∷ (show x ++ (c ∷ rest))) in
    let plain : Lacks ends_number (show x) =
      All-mono (λ c. is_number_byte c ≡ true) (λ c. ends_number c ≡ false) (show x)
        (λ c h. ground arith) (show-bytes x) in
    let stop : (break_at ends_number (c ∷ rest)).0 ≡ [] = rw ends refl in
    let number : (break_at ends_number (show x ++ (c ∷ rest))).0 ≡ show x =
      (break_at_past ends_number (show x) (c ∷ rest) plain).0
      ∙ ap (λ t. show x ++ t) stop
      ∙ append-nil (show x) in
    let text =
      int_text_of at field (show x ++ (c ∷ rest)) (show x ++ (c ∷ rest)) (show x) colon
        (trim_front-show x (c ∷ rest))
        (omega (arith, length-append (show x) (c ∷ rest), length-show x)) number in
    let whole = ap from_chars (sym (append-nil (show x))) ∙ from_chars-show x [] i refl in
    ground (arith, found, text, whole)

-- A search goes past a number.
pass :
    (key : List ℕ) (n : ℕ) (rest : List ℕ)
    → find (b'"' ∷ key) (show_nat n ++ rest) ≡ find (b'"' ∷ key) rest
unfolding show
pass key n rest = find_past key (show_nat n) rest (
    All-mono (λ c. is_number_byte c ≡ true) (λ c. quote c ≡ false) (show_nat n)
      (λ c h. ground arith) (show-bytes (pos n)))

-- What stands behind the colon of each counter.
module _ (s : DeviceStats) where
  abbrev from_resets : List ℕ
  from_resets = show_nat s.resets ++ codes "\n}\n"

  abbrev from_error : List ℕ
  from_error = show_nat s.device_error ++ (codes ",\n\t\"resets\":" ++ from_resets)

  abbrev from_timed_out : List ℕ
  from_timed_out = show_nat s.timed_out ++ (codes ",\n\t\"device_error\":" ++ from_error)

  abbrev from_completed : List ℕ
  from_completed = show_nat s.completed ++ (codes ",\n\t\"timed_out\":" ++ from_timed_out)

  abbrev from_submitted : List ℕ
  from_submitted = show_nat s.submitted ++ (codes ",\n\t\"completed\":" ++ from_completed)

  find_submitted :
      find (key_of (codes "submitted")) (stats_text (codes "stats") s)
      ≡ some (key_of (codes "submitted") ++ (b':' ∷ from_submitted))
  unfolding find starts_with codes stats_text
  find_submitted = refl

  find_completed :
      find (key_of (codes "completed")) (stats_text (codes "stats") s)
      ≡ some (key_of (codes "completed") ++ (b':' ∷ from_completed))
  unfolding find starts_with codes stats_text
  find_completed =
      pass (codes "completed" ++ (b'"' ∷ [])) s.submitted
        (codes ",\n\t\"completed\":" ++ from_completed)

  find_timed_out :
      find (key_of (codes "timed_out")) (stats_text (codes "stats") s)
      ≡ some (key_of (codes "timed_out") ++ (b':' ∷ from_timed_out))
  unfolding find starts_with codes stats_text
  find_timed_out =
      let key = codes "timed_out" ++ (b'"' ∷ []) in
      pass key s.submitted (codes ",\n\t\"completed\":" ++ from_completed)
      ∙ pass key s.completed (codes ",\n\t\"timed_out\":" ++ from_timed_out)

  find_device_error :
      find (key_of (codes "device_error")) (stats_text (codes "stats") s)
      ≡ some (key_of (codes "device_error") ++ (b':' ∷ from_error))
  unfolding find starts_with codes stats_text
  find_device_error =
      let key = codes "device_error" ++ (b'"' ∷ []) in
      pass key s.submitted (codes ",\n\t\"completed\":" ++ from_completed)
      ∙ pass key s.completed (codes ",\n\t\"timed_out\":" ++ from_timed_out)
      ∙ pass key s.timed_out (codes ",\n\t\"device_error\":" ++ from_error)

  find_resets :
      find (key_of (codes "resets")) (stats_text (codes "stats") s)
      ≡ some (key_of (codes "resets") ++ (b':' ∷ from_resets))
  unfolding find starts_with codes stats_text
  find_resets =
      let key = codes "resets" ++ (b'"' ∷ []) in
      pass key s.submitted (codes ",\n\t\"completed\":" ++ from_completed)
      ∙ pass key s.completed (codes ",\n\t\"timed_out\":" ++ from_timed_out)
      ∙ pass key s.timed_out (codes ",\n\t\"device_error\":" ++ from_error)
      ∙ pass key s.device_error (codes ",\n\t\"resets\":" ++ from_resets)

-- A field of a text is read as this number.
abbrev pub Reads : List ℕ → List ℕ → ℕ → Type 0
Reads text name n = parse_json_int text name ≡ ok (pos n)

-- The counters fit an `int`.
pub record IsSmall (s : DeviceStats) : Type 0 where
  pub submitted : s.submitted < 2 ^ 31
  pub completed : s.completed < 2 ^ 31
  pub timed_out : s.timed_out < 2 ^ 31
  pub device_error : s.device_error < 2 ^ 31
  pub resets : s.resets < 2 ^ 31

word : (n : ℕ) → n < 2 ^ 31 → IsI32 (pos n)
word n h = omega arith

-- Each of the five counters in the answer of `stats`, as long as it is below 2 ^ 31, is read back by
-- the tool's own reader of integers under the name that it is printed with.
pub stats_text-Reads :
    (s : DeviceStats)
    → IsSmall s
    → let text = stats_text (codes "stats") s in
      Reads text (codes "submitted") s.submitted
      × Reads text (codes "completed") s.completed
      × Reads text (codes "timed_out") s.timed_out
      × Reads text (codes "device_error") s.device_error
      × Reads text (codes "resets") s.resets
unfolding codes show break_at
stats_text-Reads s small =
    let text = stats_text (codes "stats") s in
    (
      read_number text (codes "submitted") (pos s.submitted) b','
          (codes "\n\t\"completed\":" ++ from_completed s) (find_submitted s) refl refl
          (word s.submitted small.submitted),
      read_number text (codes "completed") (pos s.completed) b','
          (codes "\n\t\"timed_out\":" ++ from_timed_out s) (find_completed s) refl refl
          (word s.completed small.completed),
      read_number text (codes "timed_out") (pos s.timed_out) b','
          (codes "\n\t\"device_error\":" ++ from_error s) (find_timed_out s) refl refl
          (word s.timed_out small.timed_out),
      read_number text (codes "device_error") (pos s.device_error) b','
          (codes "\n\t\"resets\":" ++ from_resets s) (find_device_error s) refl refl
          (word s.device_error small.device_error),
      read_number text (codes "resets") (pos s.resets) b'\n' (codes "}\n") (find_resets s) refl refl
          (word s.resets small.resets),
    )

-- The result in the answer of `run-dot` is read back likewise.
parse_json_int-dot_text :
    (d : DotProductResult)
    → IsI32 d.result
    → parse_json_int (dot_text (codes "run-dot") d) (codes "result") ≡ ok d.result
unfolding codes find starts_with break_at dot_text
parse_json_int-dot_text d i =
    read_number (dot_text (codes "run-dot") d) (codes "result") d.result b','
      (codes "\n\t\"driver_status\": \""
        ++ (driver_status_to_string d.status
            ++ (codes "\",\n\t\"device_error\":" ++ (show d.device_error ++ codes "\n}\n"))))
      refl refl refl i
