-- ===== src/Ctl/JsonLaws.antt =====
-- Input files as docs/vnpu_hal.md has them, and that `run-dot` reads them.
use mathlib.Core.List.{append-nil, append_assoc}
use virtual_silicon_validati.Base.{
  ℕ, ◌≡◌, ◌∙◌, refl, ap, sym, Bool, true, false, List, [], ◌∷◌, ◌++◌, some, ◌==◌, length, All,
  All-append, All-mono, arith,
}
use virtual_silicon_validati.Base.Codes.{codes}
use virtual_silicon_validati.Base.Int.{ℤ}
use virtual_silicon_validati.Hal.Types.{ok, IsI8}
use virtual_silicon_validati.Ctl.Text.{is_blank, break_at}
use virtual_silicon_validati.Ctl.Args.{starts_with}
use virtual_silicon_validati.Ctl.Decimal.{show}
use virtual_silicon_validati.Ctl.Format.{
  IsGap, show_items, show_items-bytes, is_list_byte, parse_int8_list-show_items,
}
use virtual_silicon_validati.Ctl.Json.{find, key_of, find_field, array_text, parse_json_int8_array}

-- The bytes of a text that a test rejects.
abbrev pub Lacks : (ℕ → Bool) → List ℕ → Type 0
Lacks test t = All (λ c. test c ≡ false) t

abbrev pub quote : ℕ → Bool
quote c = c == b'"'

-- A search goes past what has no quote, and stops at what it looks for.
pub find_past :
    (key t rest : List ℕ) → Lacks quote t → find (b'"' ∷ key) (t ++ rest) ≡ find (b'"' ∷ key) rest
unfolding find starts_with
find_past key [] rest h = refl
find_past key (c ∷ cs) rest h = rw h.0 (find_past key cs rest h.1)

starts_with-append : (key rest : List ℕ) → starts_with (key ++ rest) key ≡ true
unfolding starts_with
starts_with-append [] [] = refl
starts_with-append [] (c ∷ cs) = refl
starts_with-append (c ∷ cs) rest = ground (arith, starts_with-append cs rest)

pub find_here :
    (key rest : List ℕ) → find (b'"' ∷ key) (b'"' ∷ (key ++ rest)) ≡ some (b'"' ∷ (key ++ rest))
unfolding find starts_with
find_here key rest = ground (arith, starts_with-append key rest)

pub break_at_past :
    (test : ℕ → Bool) (t rest : List ℕ)
    → Lacks test t
    → ((break_at test (t ++ rest)).0 ≡ t ++ (break_at test rest).0)
      × ((break_at test (t ++ rest)).1 ≡ (break_at test rest).1)
unfolding break_at
break_at_past test [] rest h = (refl, refl)
break_at_past test (c ∷ cs) rest h =
    let (before, behind) = break_at_past test cs rest h.1 in
    (rw h.0 (ap (λ t. c ∷ t) before), rw h.0 behind)

pub Lacks-gap :
    (test : ℕ → Bool) (gap : List ℕ)
    → IsGap gap
    → ((c : ℕ) → is_blank c ≡ true → test c ≡ false)
    → Lacks test gap
Lacks-gap test gap g f = All-mono (λ c. is_blank c ≡ true) (λ c. test c ≡ false) gap f g

Lacks-items :
    (test : ℕ → Bool) (gap : List ℕ) (xs : List ℤ)
    → IsGap gap
    → ((c : ℕ) → is_list_byte c ≡ true → test c ≡ false)
    → Lacks test (show_items gap xs)
Lacks-items test gap xs g f =
    All-mono (λ c. is_list_byte c ≡ true) (λ c. test c ≡ false) (show_items gap xs) f
      (show_items-bytes gap xs g)

-- The gaps of a file: before names, behind colons, in lists, and before the closing brace.
pub record Gaps : Type 0 where
  pub name : List ℕ
  pub colon : List ℕ
  pub comma : List ℕ
  pub close : List ℕ

pub record IsGaps (g : Gaps) : Type 0 where
  pub name_gap : IsGap g.name
  pub colon_gap : IsGap g.colon
  pub comma_gap : IsGap g.comma
  pub close_gap : IsGap g.close

-- An array behind its colon, and what follows it.
abbrev pub array_then : Gaps → List ℤ → List ℕ → List ℕ
array_then g xs rest = g.colon ++ (b'[' ∷ (show_items g.comma xs ++ (b']' ∷ rest)))

abbrev pub field_then : Gaps → List ℕ → List ℕ → List ℕ
field_then g field rest = g.name ++ (key_of field ++ (b':' ∷ rest))

abbrev pub from_timeout : Gaps → ℤ → List ℕ
from_timeout g t = g.colon ++ (show t ++ (g.close ++ (b'}' ∷ [])))

-- The file.
abbrev pub render : Gaps → List ℤ → List ℤ → ℤ → List ℕ
render g a b t =
    b'{'
    ∷ field_then g (codes "input_a") (
        array_then g a (
          b','
          ∷ field_then g (codes "input_b")
              (array_then g b (b',' ∷ field_then g (codes "timeout_ms") (from_timeout g t)))))

-- The text of an array whose brackets stand where they should.
array_text_of :
    (at field text rest : List ℕ)
    → (break_at (λ c. c == b'[') at).1 ≡ b'[' ∷ (text ++ (b']' ∷ rest))
    → Lacks (λ c. c == b']') text
    → array_text at field ≡ ok text
unfolding array_text break_at
array_text_of at field text rest e h =
    let (before, behind) = break_at_past (λ c. c == b']') (b'[' ∷ text) (b']' ∷ rest) (refl, h) in
    let inside : (break_at (λ c. c == b']') (break_at (λ c. c == b'[') at).1).0
        ≡ b'[' ∷ (text ++ []) =
      ap (λ t. (break_at (λ c. c == b']') t).0) e ∙ before in
    let end : (break_at (λ c. c == b']') (break_at (λ c. c == b'[') at).1).1 ≡ b']' ∷ rest =
      ap (λ t. (break_at (λ c. c == b']') t).1) e ∙ behind in
    ground (arith, inside, end, append-nil text)

module _ (g : Gaps) (ok_gaps : IsGaps g) where
  pub find_past_array :
      (key rest : List ℕ) (xs : List ℤ)
      → find (b'"' ∷ key) (array_then g xs rest) ≡ find (b'"' ∷ key) rest
  find_past_array key rest xs =
      find_past key g.colon (b'[' ∷ (show_items g.comma xs ++ (b']' ∷ rest)))
        (Lacks-gap quote g.colon ok_gaps.colon_gap (λ c h. ground arith))
      ∙ find_past key (b'[' ∷ []) (show_items g.comma xs ++ (b']' ∷ rest)) (refl, tt)
      ∙ find_past key (show_items g.comma xs) (b']' ∷ rest)
          (Lacks-items quote g.comma xs ok_gaps.comma_gap (λ c h. ground arith))
      ∙ find_past key (b']' ∷ []) rest (refl, tt)

  pub find_name : (key rest : List ℕ) → find (b'"' ∷ key) (g.name ++ rest) ≡ find (b'"' ∷ key) rest
  find_name key rest =
      find_past key g.name rest (Lacks-gap quote g.name ok_gaps.name_gap (λ c h. ground arith))

  array_text-lem :
      (key rest field : List ℕ) (xs : List ℤ)
      → Lacks (λ c. c == b'[') key
      → array_text (key ++ array_then g xs rest) field ≡ ok (show_items g.comma xs)
  unfolding break_at
  array_text-lem key rest field xs k =
      let items = show_items g.comma xs ++ (b']' ∷ rest) in
      array_text_of (key ++ array_then g xs rest) field (show_items g.comma xs) rest
        ((break_at_past (λ c. c == b'[') key (array_then g xs rest) k).1
          ∙ (break_at_past (λ c. c == b'[') g.colon (b'[' ∷ items)
              (Lacks-gap (λ c. c == b'[') g.colon ok_gaps.colon_gap (λ c h. ground arith))).1)
        (Lacks-items (λ c. c == b']') g.comma xs ok_gaps.comma_gap (λ c h. ground arith))

  pub array_read :
      (body field rest : List ℕ) (xs : List ℤ)
      → find (key_of field) body ≡ some (key_of field ++ (b':' ∷ array_then g xs rest))
      → Lacks (λ c. c == b'[') (key_of field)
      → length xs ≡ 8
      → All IsI8 xs
      → parse_json_int8_array body field ≡ ok xs
  unfolding parse_json_int8_array find_field
  array_read body field rest xs found k l h =
      let key = key_of field ++ (b':' ∷ []) in
      let plain = All-append (λ c. (c == b'[') ≡ false) (key_of field) (b':' ∷ []) k (refl, tt) in
      let text : array_text (key_of field ++ (b':' ∷ array_then g xs rest)) field
          ≡ ok (show_items g.comma xs) =
        ap (λ t. array_text t field)
          (sym (append_assoc (key_of field) (b':' ∷ []) (array_then g xs rest)))
        ∙ array_text-lem key rest field xs plain in
      let list = parse_int8_list-show_items g.comma xs ok_gaps.comma_gap l h in
      ground (arith, found, text, list)
