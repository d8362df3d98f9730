-- ===== src/SystemCalls/Transfer.antt =====
-- NachOS-4.0/code/userprog/exception.cc: what `User2System` and `System2User` copy.
use hcmus_csc10007_operating.Common.{
  ℕ, zero, suc, ◌+◌, ◌-◌, ◌*◌, ◌%◌, ◌<◌, ◌≤◌, ◌==◌, ltb, leb, ◌&&◌, ◌≡◌, refl, sym, ap, ◌∙◌, false,
  if◌then◌else◌, assign_at, arith, Bool-cases, inl, inr, ℕ_discrete,
}
use mathlib.Core.Path.{fun_ext, subst}
use hcmus_csc10007_operating.Common.Word.{word_mod, sign_bit, add32}
use hcmus_csc10007_operating.Machine.State.{Machine, done, page_size, num_phys_pages, update}
use hcmus_csc10007_operating.Machine.Memory.{char_value, read_mem, write_mem}
use hcmus_csc10007_operating.SystemCalls.State.{Buffer}
use hcmus_csc10007_operating.SystemCalls.Copying.{
  copy_from_user, user2system, copy_to_user, system2user,
}
use hcmus_csc10007_operating.SystemCalls.Space.{
  AreFrames, UserSpace, place, place_apart, read_byte, write_byte,
}
use hcmus_csc10007_operating.SystemCalls.Bytes.{
  string_size-same, char_value_byte, char_value_zero, one_byte, more_bytes, first_byte, next_byte,
  inside_lem, if_byte, cut_lem, copy_to_user_last, copy_to_user_next, copy_from_user_last,
  copy_from_user_next, IsBytes, string_size, string_size-le, seen,
}

-- The buffer that System2User copied and User2System copied back.
abbrev pub cut : ℕ → Buffer → Buffer
cut len buffer j = if ltb j (string_size len 0 buffer) then buffer j else 0

module _ (frames : ℕ → ℕ) (n : ℕ) (few : n ≤ num_phys_pages) (f : AreFrames frames n) where
  add32_lem : (v i : ℕ) → v + i < n * page_size → add32 v i ≡ v + i
  add32_lem v i h = omega (arith, few)

  update_seen :
      (memory : ℕ → ℕ) (a b value : ℕ)
      → a < n * page_size
      → b < n * page_size
      → update memory (place frames a) value (place frames b)
        ≡ (if b == a then value else memory (place frames b))
  update_seen memory a b value p q = elim (ℕ_discrete b a) [
    | yes e ↦ let z = ap (place frames) e in ground arith
    | no e ↦ let z = place_apart frames n b a f q p e in ground arith
  ]

  copy_to_user_lem :
      (k i v : ℕ) (buffer : Buffer) (m : Machine)
      → UserSpace frames n m
      → IsBytes buffer
      → v + (i + k) ≤ n * page_size
      → (m' : Machine) × (copy_to_user k i v buffer m ≡ done (i + string_size k i buffer) m')
        × UserSpace frames n m'
        × ((a : ℕ)
            → a < n * page_size
            → seen frames m' a ≡ (
                if leb (v + i) a && ltb a (v + (i + string_size k i buffer))
                then buffer (a - v)
                else seen frames m a))
  unfolding copy_to_user
  copy_to_user_lem zero i v buffer m u b h =
      (m, ap (λ (c : ℕ). done c m) (omega arith), u, λ a l. ground arith)
  copy_to_user_lem (suc k) i v buffer m u b h =
      let e = add32_lem v i (omega arith) in
      let w = write_byte frames n m (v + i) (char_value (buffer i)) u f (omega arith) in
      let stored = ap (λ a. write_mem a 1 (char_value (buffer i)) m) e ∙ w.1 in
      let now : (a : ℕ)
          → a < n * page_size
          → seen frames w.0 a ≡ (if a == v + i then buffer i else seen frames m a) =
        λ a l.
          ap (λ (g : ℕ → ℕ). g (place frames a)) w.3
          ∙ update_seen m.main_memory (v + i) a (char_value (buffer i) % 256) (omega arith) l
          ∙ ap (λ x. if a == v + i then x else seen frames m a)
              (char_value_byte (buffer i) (b i)) in
      elim (Bool-cases (buffer i == 0)) [
        | inl z ↦ (
          w.0,
          copy_to_user_last k i v buffer m w.0 stored z
              ∙ ap (λ (c : ℕ). done c w.0) (rw z (omega arith)),
          w.2,
          λ a l.
              now a l
              ∙ one_byte buffer v i a (seen frames m a) (string_size (suc k) i buffer) (rw z refl),
        )
        | inr z ↦
            let r = copy_to_user_lem k (suc i) v buffer w.0 w.2 b (omega arith) in
            (
              r.0,
              copy_to_user_next k i v buffer m w.0 stored z
                  ∙ r.1
                  ∙ ap (λ (c : ℕ). done c r.0) (rw z (omega arith)),
              r.2,
              λ a l.
                  r.3 a l
                  ∙ more_bytes buffer v i a (seen frames m a) (seen frames w.0 a)
                      (string_size k (suc i) buffer) (string_size (suc k) i buffer) (rw z refl)
                      (now a l),
            )
      ]

  -- The program's memory holds bytes.
  abbrev pub AreBytes : (ℕ → ℕ) → Type 0
  AreBytes memory = (a : ℕ) → a < n * page_size → memory (place frames a) < 256

  copy_from_user_lem :
      (k i v : ℕ) (buf : Buffer) (m : Machine)
      → UserSpace frames n m
      → AreBytes m.main_memory
      → v + (i + k) ≤ n * page_size
      → (buf' : Buffer) × (m' : Machine) × (copy_from_user k i v buf m ≡ done buf' m')
        × UserSpace frames n m'
        × (m'.main_memory ≡ m.main_memory)
        × ((j : ℕ)
            → buf' j ≡ (
                if leb i j && ltb j (i + string_size k i (λ j. seen frames m (v + j)))
                then seen frames m (v + j)
                else buf j))
  unfolding copy_from_user
  copy_from_user_lem zero i v buf m u b h = (buf, m, refl, u, refl, λ j. ground arith)
  copy_from_user_lem (suc k) i v buf m u b h =
      let w = read_byte frames n m (v + i) u f (omega arith) in
      let c = char_value (seen frames m (v + i)) in
      let got = ap (λ a. read_mem a 1 m) (add32_lem v i (omega arith)) ∙ w.1 in
      let byte : c % 256 ≡ seen frames m (v + i) = char_value_byte _ (b (v + i) (omega arith)) in
      let zero_test : (c == 0) ≡ (seen frames m (v + i) == 0) =
        char_value_zero _ (b (v + i) (omega arith)) in
      elim (Bool-cases (seen frames m (v + i) == 0)) [
        | inl z ↦ (
          assign_at buf i (c % 256),
          w.0,
          copy_from_user_last k i v buf m w.0 c got (zero_test ∙ z),
          w.2,
          w.3,
          λ j.
              first_byte buf (λ j. seen frames m (v + j)) i j (c % 256)
                (string_size (suc k) i (λ j. seen frames m (v + j))) (rw z refl) byte,
        )
        | inr z ↦
            let buf1 : Buffer = assign_at buf i (c % 256) in
            let r =
              copy_from_user_lem k (suc i) v buf1 w.0 w.2 (subst AreBytes (sym w.3) b)
                (omega arith) in
            let same : (λ j. seen frames w.0 (v + j)) ≡ (λ j. seen frames m (v + j)) =
              ap (λ (g : ℕ → ℕ). λ j. g (place frames (v + j))) w.3 in
            (
              r.0,
              r.1,
              copy_from_user_next k i v buf m w.0 c got (zero_test ∙ z) ∙ r.2,
              r.3,
              r.4 ∙ w.3,
              λ j.
                  r.5 j
                  ∙ ap
                      (λ (g : Buffer).
                        if leb (suc i) j && ltb j (suc i + string_size k (suc i) g)
                        then g j
                        else buf1 j)
                      same
                  ∙ next_byte buf (λ j. seen frames m (v + j)) i j (c % 256)
                      (string_size k (suc i) (λ j. seen frames m (v + j)))
                      (string_size (suc k) i (λ j. seen frames m (v + j))) (rw z refl) byte,
            )
      ]

  -- For bytes of a buffer and an address range inside the program's pages, whose frames are all different:
  -- System2User writes the places up to the first NUL and it, or all of them, and says how many; and
  -- User2System of as many places at the same address gives these bytes and then only NULs.
  pub system2user-user2system :
      (v len : ℕ) (buffer : Buffer) (m : Machine)
      → UserSpace frames n m
      → IsBytes buffer
      → AreBytes m.main_memory
      → v + len ≤ n * page_size
      → (m1 : Machine) × (m2 : Machine) × (system2user v len buffer m
          ≡ done (string_size len 0 buffer) m1)
        × (user2system v len m1 ≡ done (cut len buffer) m2)
  unfolding system2user user2system
  system2user-user2system v len buffer m u b mb h =
      let short : leb sign_bit len ≡ false = ground (arith, few) in
      let not_most : leb (sign_bit - 1) len ≡ false = ground (arith, few) in
      let some_room : (len == word_mod - 1) ≡ false = ground (arith, few) in
      let fits : v + (0 + len) ≤ n * page_size = omega arith in
      let w = copy_to_user_lem len 0 v buffer m u b fits in
      let there : (j : ℕ) → j < string_size len 0 buffer → seen frames w.0 (v + j) ≡ buffer j =
        λ j p.
          let l = string_size-le len 0 buffer in
          w.3 (v + j) (omega arith) ∙ inside_lem buffer v j _ (string_size len 0 buffer) p in
      let bytes : AreBytes w.0.main_memory =
        λ a l. rw (w.3 a l) (if_byte _ (buffer (a - v)) (seen frames m a) (b (a - v)) (mb a l)) in
      let r = copy_from_user_lem len 0 v (λ _. 0) w.0 w.2 bytes fits in
      let size : string_size len 0 (λ j. seen frames w.0 (v + j)) ≡ string_size len 0 buffer =
        string_size-same len 0 buffer (λ j. seen frames w.0 (v + j))
          (λ j p q. there j (omega arith)) in
      (
        w.0,
        r.1,
        rw short (w.1 ∙ ap (λ (c : ℕ). done c w.0) (omega arith)),
        rw (some_room, not_most)
            (r.2
              ∙ ap (λ (g : Buffer). done g r.1)
                  (fun_ext λ j.
                    r.5 j
                    ∙ cut_lem j (string_size len 0 (λ j. seen frames w.0 (v + j)))
                        (string_size len 0 buffer) (seen frames w.0 (v + j)) (buffer j) size
                        (there j))),
      )
