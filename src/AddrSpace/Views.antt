-- ===== src/AddrSpace/Views.antt =====
-- NachOS-4.0/code/userprog/addrspace.cc: the memory as the program sees it through its page table, while
-- `AddrSpace::Load` copies the program into it.
use hcmus_csc10007_operating.Common.{
  ℕ, zero, suc, ◌+◌, ◌-◌, ◌*◌, ◌/◌, ◌%◌, ◌<◌, ◌≤◌, ◌≡◌, ◌≢◌, ◌⊎◌, refl, ap, ◌∙◌, true, false, List,
  [], ◌∷◌, ◌==◌, assign_at, arith, inl, inr, ℕ_discrete, dec_lt,
}
use hcmus_csc10007_operating.Machine.State.{TranslationEntry, page_size}
use hcmus_csc10007_operating.AddrSpace.{copy_in, read_page}
use hcmus_csc10007_operating.AddrSpace.Frames.{frame_of}

-- `n` bytes of a file from a place in it.
abbrev pub file_bytes : (ℕ → ℕ) → ℕ → ℕ → List ℕ
file_bytes file position zero = []
file_bytes file position (suc n) = file position ∷ file_bytes file (suc position) n

-- `ReadAt` inside the file returns all the bytes that it is asked for.
abbrev pub ReadsFile : (ℕ → ℕ → List ℕ) → (ℕ → ℕ) → ℕ → Type 0
ReadsFile exec file size =
    (n position : ℕ) → position + n ≤ size → exec n position ≡ file_bytes file position n

-- `v'` is `v` with `n` bytes of the file from `position` at the addresses from `start`; only
-- addresses below `limit` count.
pub record Filled (file : ℕ → ℕ) (limit start n position : ℕ) (v v' : ℕ → ℕ) : Type 0 where
  pub inside :
      (a : ℕ) → start ≤ a → a < start + n → a < limit → v' a ≡ file (position + (a - start))
  pub outside : (a : ℕ) → (a < start) ⊎ (start + n ≤ a) → a < limit → v' a ≡ v a

pub Filled-none :
    (file : ℕ → ℕ) (limit start position : ℕ) (v : ℕ → ℕ) → Filled file limit start 0 position v v
Filled-none file limit start position v = record {
  inside = λ a p q l. absurd (omega arith);
  outside = λ a p l. refl;
}

pub Filled-join :
    (file : ℕ → ℕ) (limit start n k position : ℕ) (v w x : ℕ → ℕ)
    → Filled file limit start n position v w
    → Filled file limit (start + n) k (position + n) w x
    → Filled file limit start (n + k) position v x
Filled-join file limit start n k position v w x f g = record {
  inside = λ a p q l. elim (dec_lt a (start + n)) [
    | yes c ↦ g.outside a (inl c) l ∙ f.inside a p c l
    | no c ↦
        let e : position + n + (a - (start + n)) ≡ position + (a - start) = omega arith in
        g.inside a (omega arith) (omega arith) l ∙ ap file e
  ];
  outside = λ a p l.
      let c = f.outside a in
      let d = g.outside a in
      elim p [
        | inl b ↦ d (inl (omega arith)) l ∙ c (inl b) l
        | inr b ↦ d (inr (omega arith)) l ∙ c (inr (omega arith)) l
      ];
}

pub copied_outside :
    (file : ℕ → ℕ) (n position place p : ℕ) (bytes : ℕ → ℕ)
    → (p < place) ⊎ (place + n ≤ p)
    → copy_in (file_bytes file position n) place bytes p ≡ bytes p
unfolding copy_in
copied_outside file zero position place p bytes h = refl
copied_outside file (suc n) position place p bytes h =
    let e : (p == place) ≡ false = ground arith in
    copied_outside file n (suc position) (suc place) p (assign_at bytes place (file position))
      (ground arith)
    ∙ ground arith

copied_inside :
    (file : ℕ → ℕ) (n position place p : ℕ) (bytes : ℕ → ℕ)
    → place ≤ p
    → p < place + n
    → copy_in (file_bytes file position n) place bytes p ≡ file (position + (p - place))
unfolding copy_in
copied_inside file zero position place p bytes l h = absurd (omega arith)
copied_inside file (suc n) position place p bytes l h = elim (ℕ_discrete p place) [
  | yes e ↦
      let z : position ≡ position + (p - place) = omega arith in
      copied_outside file n (suc position) (suc place) p (assign_at bytes place (file position))
        (inl (omega arith))
      ∙ (let t : (p == place) ≡ true = ground arith in rw t (ap file z))
  | no e ↦
      let z : suc position + (p - suc place) ≡ position + (p - place) = omega arith in
      copied_inside file n (suc position) (suc place) p (assign_at bytes place (file position))
        (omega arith) (omega arith)
      ∙ ap file z
]

-- The byte at an address of the program.
abbrev pub view : (ℕ → TranslationEntry) → (ℕ → ℕ) → ℕ → ℕ
view table bytes a = bytes (frame_of table (a / page_size) * page_size + a % page_size)

module _ (exec : ℕ → ℕ → List ℕ) (file : ℕ → ℕ) (size : ℕ) (reads : ReadsFile exec file size)
    (table : ℕ → TranslationEntry) (pages : ℕ)
    (apart : (x y : ℕ) → x < pages → y < pages → x ≢ y → frame_of table x ≢ frame_of table y) where
  -- A read into one page.
  pub read_page-Filled :
      (i offset n position : ℕ) (bytes : ℕ → ℕ)
      → i < pages
      → offset + n ≤ page_size
      → position + n ≤ size
      → Filled file
          (pages * page_size)
          (i * page_size + offset)
          n
          position
          (view table bytes)
          (view table (read_page exec 0 table i offset n position bytes))
  unfolding read_page
  read_page-Filled i offset n position bytes l fits enough = record {
    inside = λ a p q b.
        let e : a / page_size ≡ i = omega arith in
        let z : frame_of table (a / page_size) ≡ frame_of table i = ap (frame_of table) e in
        ap
          (λ (cs : List ℕ).
            copy_in cs (0 + frame_of table i * page_size + offset) bytes
              (frame_of table (a / page_size) * page_size + a % page_size))
          (reads n position enough)
        ∙ copied_inside file n position _ _ bytes (omega arith) (omega arith)
        ∙ ap (λ (t : ℕ). file (position + t)) (omega arith);
    outside = λ a p b.
        ap
          (λ (cs : List ℕ).
            copy_in cs (0 + frame_of table i * page_size + offset) bytes
              (frame_of table (a / page_size) * page_size + a % page_size))
          (reads n position enough)
        ∙ copied_outside file n position _ _ bytes (elim (ℕ_discrete (a / page_size) i) [
          | yes e ↦
              let z : frame_of table (a / page_size) ≡ frame_of table i = ap (frame_of table) e in
              ground arith
          | no e ↦ let z = apart (a / page_size) i (omega arith) l e in ground arith
        ]);
  }
