-- ===== src/Common/Strings.antt =====
-- `strncmp` and `strncpy` of C on arrays of characters; a string ends at its first NUL.
use Prim.Native.Nat.{ℕ, zero, suc, ◌<◌}
use mathlib.Core.Path.{◌≡◌, refl, ◌∙◌}
use mathlib.Core.Logic.{inl, inr}
use mathlib.Core.Bool.{Bool, true, false}
use native.Mathlib.Omega.{arith}
use hcmus_csc10007_operating.Common.Tests.{◌==◌, if◌then◌else◌, Bool-cases}

abbrev pub Chars : Type 0
Chars = ℕ → ℕ

-- A write to one place of an array.
abbrev pub update : (ℕ → ℕ) → ℕ → ℕ → ℕ → ℕ
update f p v q = if q == p then v else f q

-- Whether `strncmp` is zero, from place `i` with `n` characters left.
abbrev pub strncmp_eq : ℕ → ℕ → Chars → Chars → Bool
strncmp_eq zero i a b = true
strncmp_eq (suc n) i a b =
    let rest = strncmp_eq n (suc i) a b in
    if a i == b i then (if a i == 0 then true else rest) else false

abbrev pub pad : ℕ → ℕ → Chars → Chars
pad zero i dest = dest
pad (suc n) i dest = pad n (suc i) (update dest i 0)

-- `strncpy` from place `i` with `n` characters left: past the end of `src` it writes NULs.
abbrev pub strncpy : ℕ → ℕ → Chars → Chars → Chars
strncpy zero i dest src = dest
strncpy (suc n) i dest src =
    if src i == 0 then pad (suc n) i dest else strncpy n (suc i) (update dest i (src i)) src

pub strncmp_refl : (n i : ℕ) (a : Chars) → strncmp_eq n i a a ≡ true
strncmp_refl zero i a = refl
strncmp_refl (suc n) i a = ground (arith, strncmp_refl n (suc i) a)

pub strncmp_sym : (n i : ℕ) (a b : Chars) → strncmp_eq n i a b ≡ true → strncmp_eq n i b a ≡ true
strncmp_sym zero i a b h = refl
strncmp_sym (suc n) i a b h = ground (arith, strncmp_sym n (suc i) a b)

pub strncmp_trans :
    (n i : ℕ) (a b c : Chars)
    → strncmp_eq n i a b ≡ true
    → strncmp_eq n i b c ≡ true
    → strncmp_eq n i a c ≡ true
strncmp_trans zero i a b c h k = refl
strncmp_trans (suc n) i a b c h k = ground (arith, strncmp_trans n (suc i) a b c)

pad-below : (n i : ℕ) (dest : Chars) (j : ℕ) → j < i → pad n i dest j ≡ dest j
pad-below zero i dest j l = refl
pad-below (suc n) i dest j l = pad-below n (suc i) (update dest i 0) j (omega arith) ∙ ground arith

pad-here : (n i : ℕ) (dest : Chars) → pad (suc n) i dest i ≡ 0
pad-here n i dest = pad-below n (suc i) (update dest i 0) i (omega arith) ∙ ground arith

strncpy-below : (n i : ℕ) (dest src : Chars) (j : ℕ) → j < i → strncpy n i dest src j ≡ dest j
strncpy-below zero i dest src j l = refl
strncpy-below (suc n) i dest src j l = elim (Bool-cases (src i == 0)) [
  | inl e ↦ rw e (pad-below (suc n) i dest j l)
  | inr e ↦
      rw e (strncpy-below n (suc i) (update dest i (src i)) src j (omega arith) ∙ ground arith)
]

-- A copy of at most `n` characters compares equal to its source up to `n` characters.
pub strncmp-strncpy :
    (n i : ℕ) (dest src : Chars) → strncmp_eq n i (strncpy n i dest src) src ≡ true
strncmp-strncpy zero i dest src = refl
strncmp-strncpy (suc n) i dest src = elim (Bool-cases (src i == 0)) [
  | inl e ↦ let p : strncpy (suc n) i dest src i ≡ 0 = rw e (pad-here n i dest) in ground arith
  | inr e ↦
      let p : strncpy (suc n) i dest src i ≡ src i =
        rw e (strncpy-below n (suc i) (update dest i (src i)) src i (omega arith) ∙ ground arith) in
      let ih = strncmp-strncpy n (suc i) (update dest i (src i)) src in
      let q : strncmp_eq n (suc i) (strncpy (suc n) i dest src) src ≡ true = rw e ih in ground arith
]
