-- ===== src/Ctl/ArgsLaws.antt =====
-- What `find_command_index` gives.
use virtual_silicon_validati.Base.{
  ℕ, suc, ◌+◌, ◌-◌, ◌≤◌, ◌<◌, ◌≡◌, inl, inr, Bool-cases, false, List, [], ◌∷◌, some, length, get_or,
  arith,
}
use virtual_silicon_validati.Base.Codes.{codes, same}
use virtual_silicon_validati.Ctl.Args.{starts_with, find_from, find_command_index}

-- `j` is `i` plus the place of an argument that is no option.
abbrev pub IsFound : ℕ → List (List ℕ) → ℕ → Type 0
IsFound i args j =
    (k : ℕ) × (j ≡ i + k)
    × (k < length args)
    × (starts_with (get_or args k []) (codes "--") ≡ false)

find_from-IsFound :
    (i : ℕ) (args : List (List ℕ)) (j : ℕ) → find_from i args ≡ some j → IsFound i args j
unfolding find_from
find_from-IsFound i [] j h = cc
find_from-IsFound i (arg ∷ []) j h = (0, ground arith, ground arith, ground arith)
find_from-IsFound i (arg ∷ next ∷ args) j h = elim (Bool-cases (same arg (codes "--device"))) [
  | inl e ↦
      let (k, p, q, r) = find_from-IsFound (i + 2) args j (ground arith) in
      (suc (suc k), omega arith, omega arith, r)
  | inr e ↦ elim (Bool-cases (starts_with arg (codes "--"))) [
    | inl f ↦
        let (k, p, q, r) = find_from-IsFound (i + 1) (next ∷ args) j (ground arith) in
        (suc k, omega arith, omega arith, r)
    | inr f ↦ (0, ground arith, ground arith, f)
  ]
]

-- An index that `find_command_index` gives is one of an argument, and the argument does not start
-- with "--".
pub find_command_index-IsFound :
    (args : List (List ℕ)) (j : ℕ)
    → find_command_index args ≡ some j
    → (1 ≤ j) × (j ≤ length args) × (starts_with (get_or args (j - 1) []) (codes "--") ≡ false)
unfolding find_command_index
find_command_index-IsFound args j h =
    let (k, p, q, r) = find_from-IsFound 1 args j h in
    let place : j - 1 ≡ k = omega arith in (omega arith, omega arith, rw place r)
