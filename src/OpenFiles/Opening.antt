-- ===== src/OpenFiles/Opening.antt =====
-- NachOS-4.0/code/threads/pcb.cc: `PCB::Open` and `PCB::Close` on the table of open files.
use hcmus_csc10007_operating.Common.{
  ℕ, ◌<◌, ◌≤◌, ◌≡◌, ◌≢◌, ◌⊎◌, refl, sym, ap, ◌∙◌, true, false, ◌||◌, Option, none, some, List, [],
  ◌∷◌, ◌++◌, ◌==◌, assign_at, arith, Option-cases, inl, inr, ℕ_discrete,
}
use hcmus_csc10007_operating.Common.Int.{ℤ, pos, negsuc}
use hcmus_csc10007_operating.Common.Search.{
  first, first-First, First, hit, miss, first-some, first-miss,
}
use hcmus_csc10007_operating.SemTable.Names.{strcmp_path}
use hcmus_csc10007_operating.OpenFiles.{Host, fs_open, open_for_read_write, new_open_file}
use hcmus_csc10007_operating.OpenFiles.Table.{
  FileTable, is_null, opened_as, find_free_slot, is_id, open_in, pcb_open,
}

-- No two files are open under one name.
pub record Distinct (table : FileTable) : Type 0 where
  pub unique :
      (i j : ℕ) (name : List ℕ)
      → i < 10
      → j < 10
      → opened_as name (table i) ≡ true
      → opened_as name (table j) ≡ true
      → i ≡ j

-- What `Open` is to do with a file, of the type 0 or 1, where the host answers `answer` to the call of
-- `open` for it: a file descriptor, or a negative number.
pub data Opens (name : List ℕ) (type : ℤ) (tail : List ℕ) (table : FileTable) (answer : ℤ)
    : ℤ → FileTable → Type 0 where
  already :
      (i : ℕ)
      → i < 10
      → opened_as name (table i) ≡ true
      → Opens name type tail table answer (negsuc 0) table
  no_slot :
      ((i : ℕ) → 2 ≤ i → i < 10 → is_null (table i) ≡ false)
      → Opens name type tail table answer (negsuc 0) table
  no_file :
      (table' : FileTable) (slot n : ℕ)
      → answer ≡ negsuc n
      → 2 ≤ slot
      → slot < 10
      → is_null (table slot) ≡ true
      → ((i : ℕ) → i < 10 → opened_as name (table i) ≡ false)
      → ((i : ℕ) → table' i ≡ table i)
      → Opens name type tail table answer (negsuc 0) table'
  opened :
      (slot fd : ℕ)
      → answer ≡ pos fd
      → 2 ≤ slot
      → slot < 10
      → is_null (table slot) ≡ true
      → ((i : ℕ) → 2 ≤ i → i < slot → is_null (table i) ≡ false)
      → ((i : ℕ) → i < 10 → opened_as name (table i) ≡ false)
      → Opens name type tail table answer
          (pos slot)
          (assign_at table slot (some (new_open_file fd type name tail)))

module _ {W : Type 0} (host : Host W) (name : List ℕ) (type : ℤ) (tail : List ℕ) (table : FileTable)
    (w : W) (file_type : (is_id type 0 || is_id type 1) ≡ true) where
  fs_open_cases :
      ((n : ℕ) × ((open_for_read_write host name w).0 ≡ negsuc n)
        × ((fs_open host name type tail w).0 ≡ none))
      ⊎ ((fd : ℕ) × ((open_for_read_write host name w).0 ≡ pos fd)
          × ((fs_open host name type tail w).0 ≡ some (new_open_file fd type name tail)))
  unfolding fs_open
  fs_open_cases = go (open_for_read_write host name w).0 refl
    where
      go :
          (fd : ℤ)
          → (open_for_read_write host name w).0 ≡ fd
          → ((n : ℕ) × ((open_for_read_write host name w).0 ≡ negsuc n)
              × ((fs_open host name type tail w).0 ≡ none))
            ⊎ ((fd : ℕ) × ((open_for_read_write host name w).0 ≡ pos fd)
                × ((fs_open host name type tail w).0 ≡ some (new_open_file fd type name tail)))
      go (pos n) e = inr (n, e, ground arith)
      go (negsuc n) e = inl (n, e, ground arith)

  -- For a type 0 or 1, `Open` returns -1 and leaves every slot where the name is open, where no slot
  -- from 2 on is free, and, with the name not open and a slot free, where the host answers with a
  -- negative number; where the host answers with a descriptor it returns the first free slot, which
  -- then holds the file of this descriptor, and leaves the others.
  pub pcb_open-Opens :
      Opens name type tail table
        (open_for_read_write host name w).0
        (pcb_open host name type tail table w).0
        (pcb_open host name type tail table w).1.0
  unfolding pcb_open find_free_slot open_in
  pcb_open-Opens = elim (Option-cases (first (λ i. opened_as name (table i)) 10 0)) [
    | inr (i, z) ↦
        let (l, h, _) = first-some (λ i. opened_as name (table i)) 10 i z in
        let q : pcb_open host name type tail table w ≡ (negsuc 0, (table, w)) = ground arith in
        rw q (already i l h)
    | inl z ↦
        free z (first (λ i. is_null (table i)) 8 2) refl (first-First (λ i. is_null (table i)) 8 2)
  ]
    where
      free :
          first (λ i. opened_as name (table i)) 10 0 ≡ none
          → (o : Option ℕ) → first (λ i. is_null (table i)) 8 2 ≡ o
          → First (λ i. is_null (table i)) 2 10 o
          → Opens name type tail table
              (open_for_read_write host name w).0
              (pcb_open host name type tail table w).0
              (pcb_open host name type tail table w).1.0
      free z _ e (miss h) =
          let q : pcb_open host name type tail table w ≡ (negsuc 0, (table, w)) = ground arith in
          rw q (no_slot (λ i a b. h i a b))
      free z _ e (hit i l u h before) = elim fs_open_cases [
        | inl (n, a, f) ↦
            let q : (pcb_open host name type tail table w).0 ≡ negsuc 0 = ground arith in
            let r : (pcb_open host name type tail table w).1.0 ≡ assign_at table i none =
              ground arith in
            rw (q, r)
              (no_file (assign_at table i none) i n a l u h
                (first-miss (λ j. opened_as name (table j)) 10 z) (λ j. ground arith))
        | inr (fd, a, f) ↦
            let g = new_open_file fd type name tail in
            let q : (pcb_open host name type tail table w).0 ≡ pos i = ground arith in
            let r : (pcb_open host name type tail table w).1.0 ≡ assign_at table i (some g) =
              ground arith in
            rw (q, r) (opened i fd a l u h before (first-miss (λ j. opened_as name (table j)) 10 z))
      ]

append_nil : (xs : List ℕ) → xs ++ [] ≡ xs
append_nil [] = refl
append_nil (x ∷ xs) = ap (λ (ys : List ℕ). x ∷ ys) (append_nil xs)

opened_self :
    (name other : List ℕ) (fd : ℕ) (type : ℤ)
    → opened_as other (some (new_open_file fd type name [])) ≡ true
    → name ≡ other
unfolding new_open_file
opened_self name other fd type h = sym (append_nil name) ∙ strcmp_path (name ++ []) other h

Opens-Distinct :
    (name : List ℕ) (type : ℤ) (table table' : FileTable) (answer r : ℤ)
    → Distinct table
    → Opens name type [] table answer r table'
    → Distinct table'
Opens-Distinct name type table _ _ _ d (already i l h) = d
Opens-Distinct name type table _ _ _ d (no_slot h) = d
Opens-Distinct name type table table' _ _ d (no_file _ _ _ _ _ _ _ _ h) = record {
  unique = λ i j other p q a b.
      d.unique i j other p q (ap (opened_as other) (sym (h i)) ∙ a)
        (ap (opened_as other) (sym (h j)) ∙ b);
}
Opens-Distinct name type table _ _ _ d (opened slot fd _ l u free before new) = record {
  unique = λ i j other p q a b. elim (ℕ_discrete i slot) [
    | yes e ↦ elim (ℕ_discrete j slot) [
      | yes f ↦ e ∙ sym f
      | no f ↦ absurd (clash j i other q e f b a)
    ]
    | no e ↦ elim (ℕ_discrete j slot) [
      | yes f ↦ absurd (clash i j other p f e a b)
      | no f ↦ d.unique i j other p q (old i other e a) (old j other f b)
    ]
  ];
}
  where
    table' : FileTable
    table' = assign_at table slot (some (new_open_file fd type name []))

    old :
        (i : ℕ) (other : List ℕ)
        → i ≢ slot
        → opened_as other (table' i) ≡ true
        → opened_as other (table i) ≡ true
    old i other e a = let g : (i == slot) ≡ false = ground arith in ground arith

    here : (j : ℕ) (other : List ℕ) → j ≡ slot → opened_as other (table' j) ≡ true → name ≡ other
    here j other f a =
        let g : (j == slot) ≡ true = ground arith in
        let h : opened_as other (some (new_open_file fd type name [])) ≡ true = ground arith in
        opened_self name other fd type h

    clash :
        (i j : ℕ) (other : List ℕ)
        → i < 10
        → j ≡ slot
        → i ≢ slot
        → opened_as other (table' i) ≡ true
        → opened_as other (table' j) ≡ true
        → ⊥
    clash i j other p f e a b =
        let m = here j other f b in
        let n = old i other e a in
        let c : opened_as name (table i) ≡ true =
          ap (λ (x : List ℕ). opened_as x (table i)) m ∙ n in
        let z = new i p in ground arith

-- `Open` of a file keeps the names of the open files different, provided that the heap has a NUL
-- where the constructor of `OpenFile` writes none.
pub pcb_open-Distinct :
    {W : Type 0} (host : Host W) (name : List ℕ) (type : ℤ) (table : FileTable) (w : W)
    → (is_id type 0 || is_id type 1) ≡ true
    → Distinct table
    → Distinct (pcb_open host name type [] table w).1.0
pcb_open-Distinct host name type table w f d =
    Opens-Distinct name type table _ _ _ d (pcb_open-Opens host name type [] table w f)
