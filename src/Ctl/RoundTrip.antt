-- ===== src/Ctl/RoundTrip.antt =====
-- That `run-dot` reads an input file as it was written.
use mathlib.Core.List.{append-nil}
use virtual_silicon_validati.Base.{
  ℕ, ◌-◌, ◌^◌, ◌<◌, ◌≡◌, ◌∙◌, refl, ap, sym, true, false, List, [], ◌∷◌, ◌++◌, some, ◌==◌, length,
  length-append, All, All-mono, arith,
}
use virtual_silicon_validati.Base.Codes.{codes}
use virtual_silicon_validati.Base.Int.{ℤ, pos, negsuc, ◌≤ℤ◌}
use virtual_silicon_validati.Base.Word.{IsI32}
use virtual_silicon_validati.Hal.Types.{ok, IsI8}
use virtual_silicon_validati.Ctl.Text.{is_blank, break_at, trim_front, from_chars}
use virtual_silicon_validati.Ctl.Args.{starts_with}
use virtual_silicon_validati.Ctl.Decimal.{
  show, show-bytes, length-show, is_number_byte, from_chars-show,
}
use virtual_silicon_validati.Ctl.Format.{IsGap, trim_front-gap}
use virtual_silicon_validati.Ctl.Json.{
  find, key_of, find_field, ends_number, int_text, whole_int, parse_json_int, parse_body,
}
use virtual_silicon_validati.Ctl.JsonLaws.{
  Lacks, find_past, find_here, break_at_past, Gaps, IsGaps, array_then, field_then, from_timeout,
  render, find_past_array, find_name, array_read,
}

in_range : (x : ℤ) → pos 1 ≤ℤ x → x ≤ℤ pos (2 ^ 31 - 1) → IsI32 x
in_range (pos n) p q = omega arith
in_range (negsuc n) p q = omega arith

-- A number behind a gap, up to what ends it.
pub trim_front-show : (x : ℤ) (rest : List ℕ) → trim_front (show x ++ rest) ≡ show x ++ rest
trim_front-show x rest = front (show x) (length-show x) (show-bytes x)
  where
    front :
        (t : List ℕ)
        → 0 < length t
        → All (λ c. is_number_byte c ≡ true) t
        → trim_front (t ++ rest) ≡ t ++ rest
    front [] p h = absurd (omega arith)
    front (c ∷ cs) p h =
        unfold trim_front in (let e : is_blank c ≡ false = ground arith in rw e refl)

close_ends : (gap : List ℕ) → IsGap gap → (break_at ends_number (gap ++ (b'}' ∷ []))).0 ≡ []
unfolding break_at
close_ends [] h = refl
close_ends (c ∷ cs) h = let e : ends_number c ≡ true = ground arith in rw e refl

-- The text of a number whose colon stands where it should.
pub int_text_of :
    (at field behind begin number : List ℕ)
    → (break_at (λ c. c == b':') at).1 ≡ b':' ∷ behind
    → trim_front behind ≡ begin
    → 0 < length begin
    → (break_at ends_number begin).0 ≡ number
    → int_text at field ≡ ok number
unfolding int_text
int_text_of at field behind [] number e f p n = absurd (omega arith)
int_text_of at field behind (c ∷ cs) number e f p n = ground (arith, e, f, n)

module _ (g : Gaps) (ok_gaps : IsGaps g) where
  int_text-lem :
      (at field : List ℕ) (x : ℤ)
      → (break_at (λ c. c == b':') at).1 ≡ b':' ∷ from_timeout g x
      → int_text at field ≡ ok (show x)
  int_text-lem at field x e =
      let rest = g.close ++ (b'}' ∷ []) in
      let begin : trim_front (from_timeout g x) ≡ show x ++ rest =
        trim_front-gap g.colon (show x ++ rest) ok_gaps.colon_gap ∙ trim_front-show x rest in
      let plain : Lacks ends_number (show x) =
        All-mono (λ c. is_number_byte c ≡ true) (λ c. ends_number c ≡ false) (show x)
          (λ c h. ground arith) (show-bytes x) in
      let number : (break_at ends_number (show x ++ rest)).0 ≡ show x =
        (break_at_past ends_number (show x) rest plain).0
        ∙ ap (λ t. show x ++ t) (close_ends g.close ok_gaps.close_gap)
        ∙ append-nil (show x) in
      int_text_of at field (from_timeout g x) (show x ++ rest) (show x) e begin
        (omega (arith, length-append (show x) rest, length-show x)) number

  -- What stands behind each part of the file.
  module _ (a b : List ℤ) (t : ℤ) where
    abbrev after_b : List ℕ
    after_b = b',' ∷ field_then g (codes "timeout_ms") (from_timeout g t)

    abbrev after_a : List ℕ
    after_a = b',' ∷ field_then g (codes "input_b") (array_then g b after_b)

    -- Each name is found where it was written, behind the names that are passed over.
    find_a :
        find (key_of (codes "input_a")) (render g a b t)
        ≡ some (key_of (codes "input_a") ++ (b':' ∷ array_then g a after_a))
    find_a =
        let key = codes "input_a" ++ (b'"' ∷ []) in
        let at = key_of (codes "input_a") ++ (b':' ∷ array_then g a after_a) in
        find_past key (b'{' ∷ []) (g.name ++ at) (refl, tt)
        ∙ find_name g ok_gaps key at
        ∙ find_here key (b':' ∷ array_then g a after_a)

    a_not_b :
        (rest : List ℕ)
        → find (key_of (codes "input_b")) (key_of (codes "input_a") ++ (b':' ∷ rest))
          ≡ find (key_of (codes "input_b")) rest
    unfolding find starts_with codes
    a_not_b rest = refl

    a_not_t :
        (rest : List ℕ)
        → find (key_of (codes "timeout_ms")) (key_of (codes "input_a") ++ (b':' ∷ rest))
          ≡ find (key_of (codes "timeout_ms")) rest
    unfolding find starts_with codes
    a_not_t rest = refl

    b_not_t :
        (rest : List ℕ)
        → find (key_of (codes "timeout_ms")) (key_of (codes "input_b") ++ (b':' ∷ rest))
          ≡ find (key_of (codes "timeout_ms")) rest
    unfolding find starts_with codes
    b_not_t rest = refl

    -- A search goes past a field whose name it does not look for.
    past_field :
        (field key rest : List ℕ) (xs : List ℤ)
        → ((r : List ℕ) → find (b'"' ∷ key) (key_of field ++ (b':' ∷ r)) ≡ find (b'"' ∷ key) r)
        → find (b'"' ∷ key) (field_then g field (array_then g xs (b',' ∷ rest)))
          ≡ find (b'"' ∷ key) rest
    past_field field key rest xs other =
        find_name g ok_gaps key (key_of field ++ (b':' ∷ array_then g xs (b',' ∷ rest)))
        ∙ other (array_then g xs (b',' ∷ rest))
        ∙ find_past_array g ok_gaps key (b',' ∷ rest) xs
        ∙ find_past key (b',' ∷ []) rest (refl, tt)

    find_b :
        find (key_of (codes "input_b")) (render g a b t)
        ≡ some (key_of (codes "input_b") ++ (b':' ∷ array_then g b after_b))
    find_b =
        let key = codes "input_b" ++ (b'"' ∷ []) in
        let at = field_then g (codes "input_b") (array_then g b after_b) in
        find_past key (b'{' ∷ []) (field_then g (codes "input_a") (array_then g a after_a))
          (refl, tt)
        ∙ past_field (codes "input_a") key at a a_not_b
        ∙ find_name g ok_gaps key (key_of (codes "input_b") ++ (b':' ∷ array_then g b after_b))
        ∙ find_here key (b':' ∷ array_then g b after_b)

    find_t :
        find (key_of (codes "timeout_ms")) (render g a b t)
        ≡ some (key_of (codes "timeout_ms") ++ (b':' ∷ from_timeout g t))
    find_t =
        let key = codes "timeout_ms" ++ (b'"' ∷ []) in
        let in_b = field_then g (codes "input_b") (array_then g b after_b) in
        let in_t = field_then g (codes "timeout_ms") (from_timeout g t) in
        find_past key (b'{' ∷ []) (field_then g (codes "input_a") (array_then g a after_a))
          (refl, tt)
        ∙ past_field (codes "input_a") key in_b a a_not_t
        ∙ past_field (codes "input_b") key in_t b b_not_t
        ∙ find_name g ok_gaps key (key_of (codes "timeout_ms") ++ (b':' ∷ from_timeout g t))
        ∙ find_here key (b':' ∷ from_timeout g t)

    reads_timeout : IsI32 t → parse_json_int (render g a b t) (codes "timeout_ms") ≡ ok t
    unfolding parse_json_int find_field whole_int break_at codes
    reads_timeout i =
        let at = key_of (codes "timeout_ms") ++ (b':' ∷ from_timeout g t) in
        let text = int_text-lem at (codes "timeout_ms") t refl in
        let whole = ap from_chars (sym (append-nil (show t))) ∙ from_chars-show t [] i refl in
        ground (arith, find_t, text, whole)

    -- An input file in the documented form, with any blanks before its names, behind its colons and
    -- commas and before its closing brace, that holds two lists of eight signed bytes and a timeout
    -- from 1 to 2 ^ 31 - 1, is read as just these.
    pub parse_body-render :
        length a ≡ 8
        → length b ≡ 8
        → All IsI8 a
        → All IsI8 b
        → pos 1 ≤ℤ t
        → t ≤ℤ pos (2 ^ 31 - 1)
        → parse_body (render g a b t) ≡ ok (record { input_a = a; input_b = b; timeout = t })
    unfolding parse_body codes
    parse_body-render la lb ha hb positive small =
        let read_a =
          array_read g ok_gaps (render g a b t) (codes "input_a") after_a a find_a (ground arith) la
            ha in
        let read_b =
          array_read g ok_gaps (render g a b t) (codes "input_b") after_b b find_b (ground arith) lb
            hb in
        let read_t = reads_timeout (in_range t positive small) in
        ground (arith, read_a, read_b, read_t, la, lb)
