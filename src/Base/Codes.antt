-- ===== src/Base/Codes.antt =====
-- Texts as lists of bytes.
use Prim.Native.Char.{code}
use Prim.Native.String.{String}
use Prim.Native.Nat.{ℕ}
use mathlib.Core.Path.{◌≡◌, refl}
use mathlib.Core.Bool.{Bool, true, false, ◌&&◌}
use mathlib.Core.List.{List, [], ◌∷◌}
use native.Mathlib.Omega.{arith}
use virtual_silicon_validati.Base.Tests.{◌==◌}

-- The bytes of a text in ASCII.
unfoldable pub codes : String → List ℕ
codes String.[] = []
codes (String.◌∷◌ c s) = code c ∷ codes s

-- Equality of texts.
unfoldable pub same : List ℕ → List ℕ → Bool
same [] [] = true
same (c ∷ cs) (d ∷ ds) = c == d && same cs ds
same _ _ = false

pub same_refl : (t : List ℕ) → same t t ≡ true
unfolding same
same_refl [] = refl
same_refl (c ∷ cs) = ground (arith, same_refl cs)

pub same_eq : (s t : List ℕ) → same s t ≡ true → s ≡ t
unfolding same
same_eq [] [] h = refl
same_eq [] (d ∷ ds) h = cc
same_eq (c ∷ cs) [] h = cc
same_eq (c ∷ cs) (d ∷ ds) h =
    let first : c ≡ d = ground arith in
    let others = same_eq cs ds (ground arith) in λ i. first i ∷ others i
