-- ===== src/Ctl/Format.antt =====
-- Lists of numbers as a JSON file has them, and that `parse_int8_list` reads them back.
use mathlib.Core.List.{append-nil}
use virtual_silicon_validati.Base.{
  ℕ, ◌≡◌, ◌∙◌, refl, ap, sym, Bool, true, false, ◌||◌, List, [], ◌∷◌, ◌++◌, map, some, ◌==◌, length,
  All, All-append, All-mono, arith,
}
use virtual_silicon_validati.Base.Int.{ℤ, pos, negsuc}
use virtual_silicon_validati.Base.Word.{IsI32}
use virtual_silicon_validati.Hal.Types.{ok, IsI8}
use virtual_silicon_validati.Ctl.Text.{is_blank, trim, trim_front, trim_back, from_chars}
use virtual_silicon_validati.Ctl.Parse.{parse_int8, parse_int8_list}
use virtual_silicon_validati.Ctl.Spelling.{join, has_comma, Spells, parse_int8_list-join}
use virtual_silicon_validati.Ctl.Decimal.{show, is_number_byte, show-bytes, from_chars-show}

-- Blanks between the tokens of a file.
abbrev pub IsGap : List ℕ → Type 0
IsGap gap = All (λ c. is_blank c ≡ true) gap

-- Numbers with a comma and a gap between each two.
abbrev pub show_texts : List ℕ → List ℤ → List (List ℕ)
show_texts gap [] = []
show_texts gap (x ∷ xs) = show x ∷ map (λ y. gap ++ show y) xs

abbrev pub show_items : List ℕ → List ℤ → List ℕ
show_items gap xs = join (show_texts gap xs)

pub trim_front-gap : (gap t : List ℕ) → IsGap gap → trim_front (gap ++ t) ≡ trim_front t
unfolding trim_front
trim_front-gap [] t h = refl
trim_front-gap (c ∷ cs) t h = rw h.0 (trim_front-gap cs t h.1)

trim_front_tight : (t : List ℕ) → All (λ c. is_blank c ≡ false) t → trim_front t ≡ t
unfolding trim_front
trim_front_tight [] h = refl
trim_front_tight (c ∷ cs) h = rw h.0 refl

trim_back_tight : (t : List ℕ) → All (λ c. is_blank c ≡ false) t → trim_back t ≡ t
unfolding trim_back
trim_back_tight [] h = refl
trim_back_tight (c ∷ cs) h = rw h.0 (ap (λ t. c ∷ t) (trim_back_tight cs h.1))

IsI8-IsI32 : (x : ℤ) → IsI8 x → IsI32 x
IsI8-IsI32 (pos n) h = omega arith
IsI8-IsI32 (negsuc n) h = omega arith

read_whole :
    (t : List ℕ) (x : ℤ) → from_chars (trim t) ≡ some (x, []) → IsI8 x → parse_int8 t ≡ ok x
unfolding parse_int8
read_whole t (pos n) e i = ground arith
read_whole t (negsuc n) e i = ground arith

-- A number behind a gap is read as it is.
parse_int8-show : (gap : List ℕ) (x : ℤ) → IsGap gap → IsI8 x → parse_int8 (gap ++ show x) ≡ ok x
unfolding trim
parse_int8-show gap x g i =
    let tight =
      All-mono (λ c. is_number_byte c ≡ true) (λ c. is_blank c ≡ false) (show x)
        (λ c h. ground arith) (show-bytes x) in
    let trimmed =
      ap trim_back (trim_front-gap gap (show x) g ∙ trim_front_tight (show x) tight)
      ∙ trim_back_tight (show x) tight in
    let read =
      ap from_chars (sym (append-nil (show x))) ∙ from_chars-show x [] (IsI8-IsI32 x i) refl in
    read_whole (gap ++ show x) x (ap from_chars trimmed ∙ read) i

has_comma_none : (t : List ℕ) → All (λ c. (c == b',') ≡ false) t → has_comma t ≡ false
has_comma_none [] h = refl
has_comma_none (c ∷ cs) h = ground (arith, has_comma_none cs)

-- The bytes of an element behind a gap, and those of a written list.
abbrev is_item_byte : ℕ → Bool
is_item_byte c = is_number_byte c || is_blank c

abbrev pub is_list_byte : ℕ → Bool
is_list_byte c = is_number_byte c || (c == b',' || is_blank c)

item-bytes : (gap : List ℕ) (x : ℤ) → IsGap gap → All (λ c. is_item_byte c ≡ true) (gap ++ show x)
item-bytes gap x g =
    All-append (λ c. is_item_byte c ≡ true) gap (show x)
      (All-mono (λ c. is_blank c ≡ true) (λ c. is_item_byte c ≡ true) gap (λ c h. ground arith) g)
      (All-mono (λ c. is_number_byte c ≡ true) (λ c. is_item_byte c ≡ true) (show x)
        (λ c h. ground arith) (show-bytes x))

item_plain : (gap : List ℕ) (x : ℤ) → IsGap gap → has_comma (gap ++ show x) ≡ false
item_plain gap x g = has_comma_none (gap ++ show x) (
    All-mono (λ c. is_item_byte c ≡ true) (λ c. (c == b',') ≡ false) (gap ++ show x)
      (λ c h. ground arith) (item-bytes gap x g))

items-Spells :
    (gap : List ℕ) (xs : List ℤ) → IsGap gap → All IsI8 xs → Spells (map (λ y. gap ++ show y) xs) xs
items-Spells gap [] g h = tt
items-Spells gap (x ∷ xs) g h =
    (item_plain gap x g, parse_int8-show gap x g h.0, items-Spells gap xs g h.1)

-- Every list of eight signed bytes is read back as it was written, with any blanks behind the
-- commas.
pub parse_int8_list-show_items :
    (gap : List ℕ) (xs : List ℤ)
    → IsGap gap
    → length xs ≡ 8
    → All IsI8 xs
    → parse_int8_list (show_items gap xs) ≡ ok xs
parse_int8_list-show_items gap [] g l h = absurd (omega (arith, l))
parse_int8_list-show_items gap (x ∷ xs) g l h =
    parse_int8_list-join (show_texts gap (x ∷ xs)) (x ∷ xs)
      (item_plain [] x tt, parse_int8-show [] x tt h.0, items-Spells gap xs g h.1) l

join-bytes :
    (ts : List (List ℕ))
    → All (λ t. All (λ c. is_item_byte c ≡ true) t) ts
    → All (λ c. is_list_byte c ≡ true) (join ts)
join-bytes [] h = tt
join-bytes (t ∷ []) h =
    All-mono (λ c. is_item_byte c ≡ true) (λ c. is_list_byte c ≡ true) t (λ c p. ground arith) h.0
join-bytes (t ∷ u ∷ us) h =
    All-append (λ c. is_list_byte c ≡ true) t (b',' ∷ join (u ∷ us))
      (All-mono (λ c. is_item_byte c ≡ true) (λ c. is_list_byte c ≡ true) t (λ c p. ground arith)
        h.0)
      (refl, join-bytes (u ∷ us) h.1)

map-bytes :
    (gap : List ℕ) (xs : List ℤ)
    → IsGap gap
    → All (λ t. All (λ c. is_item_byte c ≡ true) t) (map (λ y. gap ++ show y) xs)
map-bytes gap [] g = tt
map-bytes gap (x ∷ xs) g = (item-bytes gap x g, map-bytes gap xs g)

pub show_items-bytes :
    (gap : List ℕ) (xs : List ℤ) → IsGap gap → All (λ c. is_list_byte c ≡ true) (show_items gap xs)
show_items-bytes gap [] g = tt
show_items-bytes gap (x ∷ xs) g =
    join-bytes (show_texts gap (x ∷ xs)) (item-bytes [] x tt, map-bytes gap xs g)
