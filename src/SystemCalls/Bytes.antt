-- ===== src/SystemCalls/Bytes.antt =====
-- NachOS-4.0/code/userprog/exception.cc: single rounds of the loops of `User2System` and `System2User`.
use hcmus_csc10007_operating.Common.{
  ℕ, zero, suc, ◌+◌, ◌-◌, ◌%◌, ◌<◌, ◌≤◌, ◌==◌, ltb, leb, ◌&&◌, ◌≡◌, refl, ap, Bool, true, false,
  if◌then◌else◌, assign_at, arith, Bool-cases, inl, inr, ltb→lt, ℕ_discrete,
}
use hcmus_csc10007_operating.Common.Word.{add32}
use hcmus_csc10007_operating.Machine.State.{Machine, done, ◌>>=◌}
use hcmus_csc10007_operating.Machine.Memory.{char_value, read_mem, write_mem}
use hcmus_csc10007_operating.SystemCalls.State.{Buffer}
use hcmus_csc10007_operating.SystemCalls.Copying.{copy_from_user, copy_to_user}
use hcmus_csc10007_operating.SystemCalls.Space.{place}

abbrev pub IsBytes : (ℕ → ℕ) → Type 0
IsBytes f = (i : ℕ) → f i < 256

-- How many places of a buffer from `i` on are copied, of `k`: those up to the first NUL and it.
abbrev pub string_size : ℕ → ℕ → Buffer → ℕ
string_size zero i b = 0
string_size (suc k) i b = let rest = string_size k (suc i) b in if b i == 0 then 1 else suc rest

pub string_size-le : (k i : ℕ) (b : Buffer) → string_size k i b ≤ k
string_size-le zero i b = omega arith
string_size-le (suc k) i b = ground (arith, string_size-le k (suc i) b)

-- It depends on the places that are copied only.
pub string_size-same :
    (k i : ℕ) (b c : Buffer)
    → ((j : ℕ) → i ≤ j → j < i + string_size k i b → c j ≡ b j)
    → string_size k i c ≡ string_size k i b
string_size-same zero i b c h = refl
string_size-same (suc k) i b c h = elim (Bool-cases (b i == 0)) [
  | inl e ↦ let s : c i ≡ b i = h i (omega arith) (rw e (omega arith)) in ground arith
  | inr e ↦
      let s : c i ≡ b i = h i (omega arith) (rw e (omega arith)) in
      let r = string_size-same k (suc i) b c (λ j p q. h j (omega arith) (rw e (omega arith))) in
      ground arith
]

pub char_value_byte : (b : ℕ) → b < 256 → char_value b % 256 ≡ b
unfolding char_value
char_value_byte b h = ground arith

pub char_value_zero : (b : ℕ) → b < 256 → (char_value b == 0) ≡ (b == 0)
unfolding char_value
char_value_zero b h = ground arith

pub one_byte :
    (buffer : Buffer) (v i a x size : ℕ)
    → size ≡ 1
    → (if a == v + i then buffer i else x)
      ≡ (if leb (v + i) a && ltb a (v + (i + size)) then buffer (a - v) else x)
one_byte buffer v i a x size e = elim (ℕ_discrete a (v + i)) [
  | yes p ↦ let q : a - v ≡ i = omega arith in let r = ap buffer q in ground arith
  | no p ↦ ground arith
]

pub more_bytes :
    (buffer : Buffer) (v i a x y rest size : ℕ)
    → size ≡ suc rest
    → y ≡ (if a == v + i then buffer i else x)
    → (if leb (v + suc i) a && ltb a (v + (suc i + rest)) then buffer (a - v) else y)
      ≡ (if leb (v + i) a && ltb a (v + (i + size)) then buffer (a - v) else x)
more_bytes buffer v i a x y rest size e h = elim (ℕ_discrete a (v + i)) [
  | yes p ↦ let q : a - v ≡ i = omega arith in let r = ap buffer q in ground arith
  | no p ↦ ground arith
]

pub first_byte :
    (buf g : Buffer) (i j x size : ℕ)
    → size ≡ 1
    → x ≡ g i
    → assign_at buf i x j ≡ (if leb i j && ltb j (i + size) then g j else buf j)
first_byte buf g i j x size e h = elim (ℕ_discrete j i) [
  | yes p ↦ let r = ap g p in ground arith
  | no p ↦ ground arith
]

pub next_byte :
    (buf g : Buffer) (i j x rest size : ℕ)
    → size ≡ suc rest
    → x ≡ g i
    → (if leb (suc i) j && ltb j (suc i + rest) then g j else assign_at buf i x j)
      ≡ (if leb i j && ltb j (i + size) then g j else buf j)
next_byte buf g i j x rest size e h = elim (ℕ_discrete j i) [
  | yes p ↦ let r = ap g p in ground arith
  | no p ↦ ground arith
]

pub inside_lem :
    (buffer : Buffer) (v j x size : ℕ)
    → j < size
    → (if leb (v + 0) (v + j) && ltb (v + j) (v + (0 + size)) then buffer (v + j - v) else x)
      ≡ buffer j
inside_lem buffer v j x size l =
    let e : v + j - v ≡ j = omega arith in
    let test : (leb (v + 0) (v + j) && ltb (v + j) (v + (0 + size))) ≡ true = ground arith in
    rw test (ap buffer e)

pub if_byte : (t : Bool) (x y : ℕ) → x < 256 → y < 256 → (if t then x else y) < 256
if_byte true x y h k = h
if_byte false x y h k = k

pub cut_lem :
    (j s t x y : ℕ)
    → s ≡ t
    → (j < t → x ≡ y)
    → (if leb 0 j && ltb j (0 + s) then x else 0) ≡ (if ltb j t then y else 0)
cut_lem j s t x y e h = elim (Bool-cases (ltb j t)) [
  | inl c ↦ let g = h (ltb→lt j t c) in ground arith
  | inr c ↦ ground arith
]

-- One round of each loop, as the last one or with more to come.
module _ (k i v : ℕ) (buffer : Buffer) (m m' : Machine) where
  pub copy_to_user_last :
      write_mem (add32 v i) 1 (char_value (buffer i)) m ≡ done tt m'
      → (buffer i == 0) ≡ true
      → copy_to_user (suc k) i v buffer m ≡ done (suc i) m'
  unfolding copy_to_user
  copy_to_user_last w z = rw (◌>>=◌, w, z) refl

  pub copy_to_user_next :
      write_mem (add32 v i) 1 (char_value (buffer i)) m ≡ done tt m'
      → (buffer i == 0) ≡ false
      → copy_to_user (suc k) i v buffer m ≡ copy_to_user k (suc i) v buffer m'
  unfolding copy_to_user
  copy_to_user_next w z = rw (◌>>=◌, w, z) refl

  pub copy_from_user_last :
      (c : ℕ)
      → read_mem (add32 v i) 1 m ≡ done c m'
      → (c == 0) ≡ true
      → copy_from_user (suc k) i v buffer m ≡ done (assign_at buffer i (c % 256)) m'
  unfolding copy_from_user
  copy_from_user_last c w z = rw (◌>>=◌, w, z) refl

  pub copy_from_user_next :
      (c : ℕ)
      → read_mem (add32 v i) 1 m ≡ done c m'
      → (c == 0) ≡ false
      → copy_from_user (suc k) i v buffer m
        ≡ copy_from_user k (suc i) v (assign_at buffer i (c % 256)) m'
  unfolding copy_from_user
  copy_from_user_next c w z = rw (◌>>=◌, w, z) refl

-- The bytes of the program.
abbrev pub seen : (ℕ → ℕ) → Machine → ℕ → ℕ
seen frames m a = m.main_memory (place frames a)
