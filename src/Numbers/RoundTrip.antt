-- ===== src/Numbers/RoundTrip.antt =====
-- `SysReadNum` reads back what `SysPrintNum` has printed (NachOS-4.0/code/userprog/ksyscall.h).
use hcmus_csc10007_operating.Common.{
  ℕ, zero, suc, ◌+◌, ◌/◌, ◌%◌, ◌^◌, ◌<◌, ◌≡◌, ◌≢◌, refl, ap, sym, ◌∙◌, Bool, true, false, ◌&&◌,
  some, List, [], ◌∷◌, ◌++◌, ◌==◌, if◌then◌else◌, arith, and-left, and-right, Bool-cases,
  ℕ_discrete, dec_lt, inl, inr,
}
use native.Mathlib.Nat.{pow-suc}
use hcmus_csc10007_operating.Common.Word.{word_mod, sign_bit, sub32}
use hcmus_csc10007_operating.Machine.Memory.{char_value}
use hcmus_csc10007_operating.Machine.Mult.{is_negative}
use hcmus_csc10007_operating.Machine.Cpu.Alu.{div_signed, rem_signed}
use hcmus_csc10007_operating.Numbers.{
  is_digit, is_blank, next_num, read_digits, read_magnitude, after_minus, sys_read_num, collect,
  put_digits, put_magnitude, sys_print_num,
}

div_nonneg : (n : ℕ) → n < sign_bit → div_signed n 10 ≡ n / 10
unfolding div_signed
div_nonneg n h = ground arith

rem_nonneg : (n : ℕ) → n < sign_bit → rem_signed n 10 ≡ n % 10
unfolding rem_signed
rem_nonneg n h = ground arith

-- The decimal digits of `n`, the lowest first.
abbrev decimal : ℕ → ℕ → List ℕ
decimal zero n = []
decimal (suc k) n = let rest = decimal k (n / 10) in if n == 0 then [] else n % 10 ∷ rest

collect_lem : (k n : ℕ) → n < 10 ^ k → n < sign_bit → collect k n ≡ some (decimal k n)
unfolding collect
collect_lem zero n p h = ground arith
collect_lem (suc k) n p h =
    let small : n / 10 < 10 ^ k = omega (arith, pow-suc 10 k) in
    let ih = collect_lem k (n / 10) small (omega arith) in
    let r : rem_signed n 10 % 256 ≡ n % 10 = omega (arith, rem_nonneg n h) in
    let q : collect k (div_signed n 10) ≡ some (decimal k (n / 10)) = rw (div_nonneg n h) ih in
    elim (Bool-cases (n == 0)) [ inl e ↦ rw e refl | inr e ↦ rw (e, q, r) refl ]

-- The number that a string of digits adds up to.
abbrev feed : ℕ → List ℕ → ℕ
feed num [] = num
feed num (c ∷ cs) = feed (next_num num c) cs

abbrev digits : List ℕ → Bool
digits [] = true
digits (c ∷ cs) = is_digit c && digits cs

feed-append : (num : ℕ) (xs : List ℕ) (c : ℕ) → feed num (xs ++ (c ∷ [])) ≡ next_num (feed num xs) c
feed-append num [] c = refl
feed-append num (x ∷ xs) c = feed-append (next_num num x) xs c

digits-append :
    (xs : List ℕ) (c : ℕ) → digits xs ≡ true → is_digit c ≡ true → digits (xs ++ (c ∷ [])) ≡ true
digits-append [] c h k = rw k refl
digits-append (x ∷ xs) c h k =
    let e : is_digit x ≡ true = and-left (is_digit x) (digits xs) h in
    rw e (digits-append xs c (and-right (is_digit x) (digits xs) h) k)

digit_char : (n : ℕ) → is_digit ((48 + n % 10) % 256) ≡ true
digit_char n = ground arith

next_num_lem : (n : ℕ) → n < sign_bit → next_num (n / 10) ((48 + n % 10) % 256) ≡ n
unfolding char_value
next_num_lem n h = ground arith

put-digits : (k n : ℕ) → digits (put_digits (decimal k n)) ≡ true
put-digits zero n = refl
put-digits (suc k) n = elim (Bool-cases (n == 0)) [
  | inl e ↦ rw e refl
  | inr e ↦
      rw e
        (digits-append (put_digits (decimal k (n / 10))) _ (put-digits k (n / 10)) (digit_char n))
]

feed-put_digits : (k n : ℕ) → n < 10 ^ k → n < sign_bit → feed 0 (put_digits (decimal k n)) ≡ n
feed-put_digits zero n p h = ground arith
feed-put_digits (suc k) n p h = elim (Bool-cases (n == 0)) [
  | inl e ↦ rw e (ground arith)
  | inr e ↦
      let small : n / 10 < 10 ^ k = omega (arith, pow-suc 10 k) in
      rw e (
        feed-append 0 (put_digits (decimal k (n / 10))) ((48 + n % 10) % 256)
        ∙ ap (λ (t : ℕ). next_num t ((48 + n % 10) % 256))
            (feed-put_digits k (n / 10) small (omega arith))
        ∙ next_num_lem n h)
]

append-cons : (xs : List ℕ) (d : ℕ) → (c : ℕ) × (cs : List ℕ) × (xs ++ (d ∷ []) ≡ c ∷ cs)
append-cons [] d = (d, [], refl)
append-cons (x ∷ xs) d = (x, xs ++ (d ∷ []), refl)

put_digits-cons :
    (k n : ℕ) → 0 < n → (c : ℕ) × (cs : List ℕ) × (put_digits (decimal (suc k) n) ≡ c ∷ cs)
put_digits-cons k n h =
    let e : (n == 0) ≡ false = ground arith in
    rw e (append-cons (put_digits (decimal k (n / 10))) ((48 + n % 10) % 256))

read_digits-feed :
    (c num : ℕ) (cs rest : List ℕ)
    → digits cs ≡ true
    → read_digits c num true (cs ++ (10 ∷ rest)) ≡ some (feed (next_num num c) cs, true, rest)
unfolding read_digits
read_digits-feed c num [] rest h = refl
read_digits-feed c num (d ∷ cs) rest h =
    let e : is_digit d ≡ true = and-left (is_digit d) (digits cs) h in
    let b : is_blank d ≡ false = ground arith in
    rw (b, e) (read_digits-feed d (next_num num c) cs rest (and-right (is_digit d) (digits cs) h))

-- What is typed for a magnitude.
read_magnitude_lem :
    (sign : Bool) (n c : ℕ) (cs rest : List ℕ)
    → n < sign_bit
    → put_digits (decimal 10 n) ≡ c ∷ cs
    → (is_digit c ≡ true)
      × (read_magnitude sign c (cs ++ (10 ∷ rest)) ≡ some ((if sign then sub32 0 n else n), rest))
unfolding read_magnitude
read_magnitude_lem sign n c cs rest h e =
    let all : digits (c ∷ cs) ≡ true = ap digits (sym e) ∙ put-digits 10 n in
    let dc = and-left (is_digit c) (digits cs) all in
    let f : feed (next_num 0 c) cs ≡ n =
      ap (feed 0) (sym e) ∙ feed-put_digits 10 n (omega arith) h in
    let r = read_digits-feed c 0 cs rest (and-right (is_digit c) (digits cs) all) in
    let q : read_digits c 0 (is_digit c) (cs ++ (10 ∷ rest)) ≡ some (n, true, rest) =
      rw dc (r ∙ ap (λ (x : ℕ). some (x, true, rest)) f) in
    (dc, ground arith)

put_magnitude_lem :
    (sign : List ℕ) (n : ℕ)
    → n < sign_bit
    → put_magnitude sign n ≡ some (sign ++ put_digits (decimal 10 n))
put_magnitude_lem sign n h = let e = collect_lem 10 n (omega arith) h in ground arith

positive :
    (n : ℕ) (rest : List ℕ)
    → 0 < n
    → n < sign_bit
    → (out : List ℕ) × (sys_print_num n ≡ some out)
      × (sys_read_num (out ++ (10 ∷ rest)) ≡ some (n, rest))
unfolding sys_print_num sys_read_num
positive n rest p h =
    let (c, cs, e) = put_digits-cons 9 n p in
    let (dc, r) = read_magnitude_lem false n c cs rest h e in
    let z : (n == 0) ≡ false = ground arith in
    let s : is_negative n ≡ false = ground arith in
    let b : is_blank c ≡ false = ground arith in
    let m : (c == 45) ≡ false = ground arith in
    let q : sys_read_num (c ∷ cs ++ (10 ∷ rest)) ≡ read_magnitude false c (cs ++ (10 ∷ rest)) =
      ground arith in
    (c ∷ cs, rw (z, s) (put_magnitude_lem [] n h ∙ ap some e), q ∙ r)

negative :
    (n : ℕ) (rest : List ℕ)
    → sign_bit < n
    → n < word_mod
    → (out : List ℕ) × (sys_print_num n ≡ some out)
      × (sys_read_num (out ++ (10 ∷ rest)) ≡ some (n, rest))
unfolding sys_print_num sys_read_num after_minus
negative n rest p h =
    let small : sub32 0 n < sign_bit = omega arith in
    let (c, cs, e) = put_digits-cons 9 (sub32 0 n) (omega arith) in
    let (dc, r) = read_magnitude_lem true (sub32 0 n) c cs rest small e in
    let z : (n == 0) ≡ false = ground arith in
    let s : is_negative n ≡ true = ground arith in
    let b : is_blank c ≡ false = ground arith in
    let back : sub32 0 (sub32 0 n) ≡ n = omega arith in
    (
      45 ∷ c ∷ cs,
      rw (z, s)
          (put_magnitude_lem (45 ∷ []) (sub32 0 n) small ∙ ap (λ (x : List ℕ). some (45 ∷ x)) e),
      rw b (r ∙ ap (λ (x : ℕ). some (x, rest)) back),
    )

-- For every `int` but the least, what `SysPrintNum` prints fits its array of ten digits, and
-- `SysReadNum` reads the same number from it, followed by a newline, and leaves what follows.
pub read-print :
    (n : ℕ) (rest : List ℕ)
    → n < word_mod
    → n ≢ sign_bit
    → (out : List ℕ) × (sys_print_num n ≡ some out)
      × (sys_read_num (out ++ (10 ∷ rest)) ≡ some (n, rest))
unfolding sys_print_num sys_read_num read_magnitude read_digits char_value
read-print n rest h k = elim (ℕ_discrete n 0) [
  | yes e ↦ rw e (48 ∷ [], refl, refl)
  | no z ↦ elim (dec_lt n sign_bit) [
    | yes l ↦ positive n rest (omega arith) l
    | no g ↦ negative n rest (omega arith) h
  ]
]
