-- ===== src/Ctl/ParseLaws.antt =====
-- Which lists `parse_int8_list` gives, and that it gives those that are written.
use virtual_silicon_validati.Base.{
  ℕ, zero, suc, ◌≤◌, ◌<◌, ◌≡◌, refl, subst, ap, List, [], ◌∷◌, Option, none, some, length, All,
  arith,
}
use virtual_silicon_validati.Base.Int.{ℤ}
use virtual_silicon_validati.Hal.Types.{Result, ok, throws, IsI8}
use virtual_silicon_validati.Ctl.Text.{cut}
use virtual_silicon_validati.Ctl.Parse.{
  parse_int8, push_item, parse_rest, parse_items, parse_int8_list,
}

parse_int8-IsI8 : (text : List ℕ) (x : ℤ) → parse_int8 text ≡ ok x → IsI8 x
unfolding parse_int8
parse_int8-IsI8 text x h = ground arith

-- What a comma leaves is shorter than the text.
cut-shorter : (text rest : List ℕ) → (cut text).1 ≡ some rest → length rest < length text
unfolding cut
cut-shorter [] rest h = ground arith
cut-shorter (c ∷ cs) rest h = ground (arith, cut-shorter cs rest)

items_of : Result (List ℤ) → List ℤ
items_of (ok xs) = xs
items_of (throws e) = []

push_item-IsI8 :
    (r : Result ℤ) (others : Result (List ℤ)) (xs : List ℤ)
    → ((x : ℤ) → r ≡ ok x → IsI8 x)
    → ((ys : List ℤ) → others ≡ ok ys → All IsI8 ys)
    → push_item r others ≡ ok xs
    → All IsI8 xs
unfolding push_item items_of
push_item-IsI8 (ok x) (ok ys) xs p q h = subst (All IsI8) (ap items_of h) (p x refl, q ys refl)
push_item-IsI8 (ok x) (throws e) xs p q h = cc
push_item-IsI8 (throws e) others xs p q h = cc

parse_rest-IsI8 :
    (rounds : List ℕ → Result (List ℤ)) (rest : Option (List ℕ)) (xs : List ℤ)
    → ((left : List ℕ) → rounds left ≡ ok xs → All IsI8 xs)
    → parse_rest rounds rest ≡ ok xs
    → All IsI8 xs
unfolding parse_rest items_of
parse_rest-IsI8 rounds none xs p h = subst (All IsI8) (ap items_of h) tt
parse_rest-IsI8 rounds (some left) xs p h = p left h

parse_items-IsI8 :
    (rounds : ℕ) (text : List ℕ) (xs : List ℤ) → parse_items rounds text ≡ ok xs → All IsI8 xs
unfolding parse_items items_of
parse_items-IsI8 zero text xs h = subst (All IsI8) (ap items_of h) tt
parse_items-IsI8 (suc rounds) [] xs h = subst (All IsI8) (ap items_of h) tt
parse_items-IsI8 (suc rounds) (c ∷ cs) xs h =
    push_item-IsI8 (parse_int8 (cut (c ∷ cs)).0) (parse_rest (parse_items rounds) (cut (c ∷ cs)).1)
      xs (parse_int8-IsI8 (cut (c ∷ cs)).0)
      (λ ys.
        parse_rest-IsI8 (parse_items rounds) (cut (c ∷ cs)).1 ys
          (λ left. parse_items-IsI8 rounds left ys))
      h

parse_rest_cong :
    (p q : List ℕ → Result (List ℤ)) (rest : Option (List ℕ))
    → ((left : List ℕ) → rest ≡ some left → p left ≡ q left)
    → parse_rest p rest ≡ parse_rest q rest
unfolding parse_rest
parse_rest_cong p q none h = refl
parse_rest_cong p q (some left) h = h left refl

-- The loop ends by itself: with a round for each byte of the text, more rounds change nothing.
pub parse_items_rounds :
    (n m : ℕ) (text : List ℕ)
    → length text ≤ n
    → length text ≤ m
    → parse_items n text ≡ parse_items m text
unfolding parse_items
parse_items_rounds zero zero text p q = refl
parse_items_rounds zero (suc m) [] p q = refl
parse_items_rounds (suc n) zero [] p q = refl
parse_items_rounds zero (suc m) (c ∷ cs) p q = absurd (omega arith)
parse_items_rounds (suc n) zero (c ∷ cs) p q = absurd (omega arith)
parse_items_rounds (suc n) (suc m) text p q = rw (
    parse_rest_cong (parse_items n) (parse_items m) (cut text).1 (λ left e.
      let shorter = cut-shorter text left e in
      parse_items_rounds n m left (omega arith) (omega arith)))

-- What `parse_int8_list` gives has eight elements, and each is an `int8_t`.
pub parse_int8_list-IsI8 :
    (text : List ℕ) (xs : List ℤ) → parse_int8_list text ≡ ok xs → (length xs ≡ 8) × All IsI8 xs
unfolding parse_int8_list
parse_int8_list-IsI8 text xs h = ground (arith, parse_items-IsI8 (length text) text xs)
