-- ===== src/Ctl/Spelling.antt =====
-- That `parse_int8_list` reads what is written: eight numbers between commas.
use virtual_silicon_validati.Base.{
  ℕ, zero, suc, ◌+◌, ◌≤◌, ◌<◌, ◌≡◌, Bool, false, ◌||◌, refl, List, [], ◌∷◌, ◌++◌, none, some, ◌==◌,
  length, arith,
}
use virtual_silicon_validati.Base.Int.{ℤ}
use virtual_silicon_validati.Hal.Types.{ok}
use virtual_silicon_validati.Ctl.Text.{cut, trim, trim_front, trim_back, from_chars, digits}
use virtual_silicon_validati.Ctl.Parse.{
  parse_int8, push_item, parse_rest, parse_items, parse_int8_list,
}

-- Texts with a comma between each two.
abbrev pub join : List (List ℕ) → List ℕ
join [] = []
join (t ∷ []) = t
join (t ∷ u ∷ us) = t ++ (44 ∷ join (u ∷ us))

abbrev pub has_comma : List ℕ → Bool
has_comma [] = false
has_comma (c ∷ cs) = c == 44 || has_comma cs

-- Each text has no comma and is read as the element beside it.
abbrev pub Spells : List (List ℕ) → List ℤ → Type 0
Spells [] [] = Unit
Spells (t ∷ ts) (x ∷ xs) = (has_comma t ≡ false) × (parse_int8 t ≡ ok x) × Spells ts xs
Spells _ _ = ⊥

cut_plain : (t : List ℕ) → has_comma t ≡ false → cut t ≡ (t, none)
unfolding cut
cut_plain [] h = refl
cut_plain (c ∷ cs) h = ground (arith, cut_plain cs)

cut_comma : (t rest : List ℕ) → has_comma t ≡ false → cut (t ++ (44 ∷ rest)) ≡ (t, some rest)
unfolding cut
cut_comma [] rest h = refl
cut_comma (c ∷ cs) rest h = ground (arith, cut_comma cs rest)

-- An empty text spells nothing.
parse_int8-pos : (t : List ℕ) (x : ℤ) → parse_int8 t ≡ ok x → 0 < length t
unfolding parse_int8 trim trim_front trim_back from_chars digits
parse_int8-pos [] x h = cc
parse_int8-pos (c ∷ cs) x h = omega arith

length-join : (t rest : List ℕ) → length (t ++ (44 ∷ rest)) ≡ length t + suc (length rest)
length-join [] rest = omega arith
length-join (c ∷ cs) rest = omega (arith, length-join cs rest)

-- A round that meets a comma, and the last round.
comma_round :
    (n : ℕ) (t rest : List ℕ) (x : ℤ) (xs : List ℤ)
    → has_comma t ≡ false
    → parse_int8 t ≡ ok x
    → parse_items n rest ≡ ok xs
    → parse_items (suc n) (t ++ (44 ∷ rest)) ≡ ok (x ∷ xs)
unfolding parse_items push_item parse_rest
comma_round n [] rest x xs h p q = absurd (omega (arith, parse_int8-pos [] x p))
comma_round n (c ∷ cs) rest x xs h p q = rw (cut_comma (c ∷ cs) rest h, p, q) refl

last_round :
    (n : ℕ) (t : List ℕ) (x : ℤ)
    → has_comma t ≡ false
    → parse_int8 t ≡ ok x
    → parse_items (suc n) t ≡ ok (x ∷ [])
unfolding parse_items push_item parse_rest
last_round n [] x h p = absurd (omega (arith, parse_int8-pos [] x p))
last_round n (c ∷ cs) x h p = rw (cut_plain (c ∷ cs) h, p) refl

parse_items-join :
    (ts : List (List ℕ)) (xs : List ℤ) (n : ℕ)
    → Spells ts xs
    → length (join ts) ≤ n
    → parse_items n (join ts) ≡ ok xs
parse_items-join [] [] zero s h = unfold parse_items in refl
parse_items-join [] [] (suc n) s h = unfold parse_items in refl
parse_items-join (t ∷ []) (x ∷ []) zero s h = absurd (omega (arith, parse_int8-pos t x s.1))
parse_items-join (t ∷ []) (x ∷ []) (suc n) s h = last_round n t x s.0 s.1
parse_items-join (t ∷ u ∷ us) (x ∷ xs) zero s h =
    absurd (omega (arith, length-join t (join (u ∷ us))))
parse_items-join (t ∷ u ∷ us) (x ∷ xs) (suc n) s h =
    comma_round n t (join (u ∷ us)) x xs s.0 s.1
      (parse_items-join (u ∷ us) xs n s.2 (omega (arith, length-join t (join (u ∷ us)))))
parse_items-join [] (x ∷ xs) n s h = absurd s
parse_items-join (t ∷ ts) [] n s h = absurd s
parse_items-join (t ∷ []) (x ∷ y ∷ ys) n s h = absurd s.2

-- Eight texts without commas, each of which is read as an element, are read as the list of the
-- elements where commas stand between them.
pub parse_int8_list-join :
    (ts : List (List ℕ)) (xs : List ℤ)
    → Spells ts xs
    → length xs ≡ 8
    → parse_int8_list (join ts) ≡ ok xs
unfolding parse_int8_list
parse_int8_list-join ts xs s l =
    ground (arith, parse_items-join ts xs (length (join ts)) s (omega arith), l)
