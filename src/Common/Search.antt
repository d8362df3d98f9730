-- ===== src/Common/Search.antt =====
-- The loop `for (i = lo; i < hi; i++) if (p(i)) return i; return -1;`.
use Prim.Native.Nat.{ℕ, zero, suc, ◌+◌, ◌≤◌, ◌<◌}
use mathlib.Core.Path.{◌≡◌, refl, sym}
use mathlib.Core.Logic.{inl, inr}
use mathlib.Core.Bool.{Bool, true, false}
use mathlib.Core.Option.{Option, none, some}
use native.Mathlib.Omega.{arith}
use native.Mathlib.Decide.{ℕ_discrete}
use hcmus_csc10007_operating.Common.Tests.{if◌then◌else◌, Bool-cases}

-- The loop from `i`, with `k` steps left.
abbrev pub first : (ℕ → Bool) → ℕ → ℕ → Option ℕ
first p zero i = none
first p (suc k) i = let rest = first p k (suc i) in if p i then some i else rest

pub data First (p : ℕ → Bool) (lo hi : ℕ) : Option ℕ → Type 0 where
  hit :
      (i : ℕ)
      → lo ≤ i
      → i < hi
      → p i ≡ true
      → ((j : ℕ) → lo ≤ j → j < i → p j ≡ false)
      → First p lo hi (some i)
  miss : ((j : ℕ) → lo ≤ j → j < hi → p j ≡ false) → First p lo hi none

before :
    {p : ℕ → Bool} {lo hi : ℕ} {o : Option ℕ}
    → p lo ≡ false
    → First p (suc lo) hi o
    → First p lo hi o
before {lo = lo} e (hit i l u h f) =
    hit i (omega arith) u h
      (λ j a b. elim (ℕ_discrete j lo) [ yes q ↦ rw q e | no n ↦ f j (omega arith) b ])
before {lo = lo} e (miss f) =
    miss (λ j a b. elim (ℕ_discrete j lo) [ yes q ↦ rw q e | no n ↦ f j (omega arith) b ])

pub first-First : (p : ℕ → Bool) (k i : ℕ) → First p i (i + k) (first p k i)
first-First p zero i = miss (λ j a b. absurd (omega arith))
first-First p (suc k) i =
    let g : i + suc k ≡ suc i + k = omega arith in
    elim (Bool-cases (p i)) [
      | inl e ↦ rw e (hit i (omega arith) (omega arith) e (λ j a b. absurd (omega arith)))
      | inr e ↦ rw (e, g) (before e (first-First p k (suc i)))
    ]

-- Where exactly one place fits, the loop finds it.
pub first_unique :
    (p : ℕ → Bool) (n i : ℕ)
    → i < n
    → p i ≡ true
    → ((j : ℕ) → j < n → p j ≡ true → j ≡ i)
    → first p n 0 ≡ some i
first_unique p n i l e u = go (first p n 0) (first-First p n 0)
  where
    go : (o : Option ℕ) → First p 0 (0 + n) o → o ≡ some i
    go _ (hit j a b h f) = let q : j ≡ i = u j (omega arith) h in rw q refl
    go _ (miss f) = let q = f i (omega arith) (omega arith) in ground arith

pub first-none : (p : ℕ → Bool) (n : ℕ) → ((j : ℕ) → j < n → p j ≡ false) → first p n 0 ≡ none
first-none p n h = go (first p n 0) (first-First p n 0)
  where
    go : (o : Option ℕ) → First p 0 (0 + n) o → o ≡ none
    go _ (hit j a b e f) = let q = h j (omega arith) in ground arith
    go _ (miss f) = refl

-- What a result of the loop tells.
pub first-some :
    (p : ℕ → Bool) (n i : ℕ)
    → first p n 0 ≡ some i
    → (i < n) × (p i ≡ true) × ((j : ℕ) → j < i → p j ≡ false)
first-some p n i e = go (first p n 0) e (first-First p n 0)
  where
    go :
        (o : Option ℕ)
        → o ≡ some i
        → First p 0 (0 + n) o
        → (i < n) × (p i ≡ true) × ((j : ℕ) → j < i → p j ≡ false)
    go _ q (hit j a b h f) =
        let r : j ≡ i = ground arith in
        (omega arith, rw (sym r) h, λ k l. f k (omega arith) (omega arith))
    go _ q (miss f) = ground arith

pub first-miss : (p : ℕ → Bool) (n : ℕ) → first p n 0 ≡ none → (j : ℕ) → j < n → p j ≡ false
first-miss p n e j l = go (first p n 0) e (first-First p n 0)
  where
    go : (o : Option ℕ) → o ≡ none → First p 0 (0 + n) o → p j ≡ false
    go _ q (hit i a b h f) = ground arith
    go _ q (miss f) = f j (omega arith) (omega arith)
