-- ===== src/SemTable/Names.antt =====
-- NachOS-4.0/code/threads/stable.cc: the names in the table are different, and its bitmap says which slots are
-- in use.
use hcmus_csc10007_operating.Common.{
  ℕ, zero, suc, ◌+◌, ◌<◌, ◌≡◌, ◌≢◌, refl, sym, ap, ◌∙◌, Bool, true, false, Option, none, some, [],
  ◌∷◌, ◌==◌, assign_at, arith, ℕ_discrete, and-left, and-right,
}
use hcmus_csc10007_operating.Common.Search.{first}
use hcmus_csc10007_operating.Bitmap.{Bitmap, is_set}
use hcmus_csc10007_operating.Bitmap.Bits
use hcmus_csc10007_operating.Bitmap.Bits.{Writes, Writes-here}
use hcmus_csc10007_operating.Bitmap.Allocation.{test_lem, Writes-other}
use hcmus_csc10007_operating.Bitmap.Construction.{new_bitmap_lem}
use hcmus_csc10007_operating.Threads.{SemaphoreId, Kernel, set_semaphore}
use hcmus_csc10007_operating.Threads.Synch.{new_semaphore}
use hcmus_csc10007_operating.SemTable.{
  Name, strcmp_eq, max_semaphore, Sem, SemTable, new_table, find_name_from, find_name,
}

==_lem : (x y : ℕ) → (x == y) ≡ true → x ≡ y
==_lem x y h = ground arith

pub strcmp_refl : (a : Name) → strcmp_eq a a ≡ true
strcmp_refl [] = refl
strcmp_refl (x ∷ xs) = ground (arith, strcmp_refl xs)

pub strcmp_path : (a b : Name) → strcmp_eq a b ≡ true → a ≡ b
strcmp_path [] [] h = refl
strcmp_path [] (y ∷ ys) h = ground arith
strcmp_path (x ∷ xs) [] h = ground arith
strcmp_path (x ∷ xs) (y ∷ ys) h =
    let r : xs ≡ ys = strcmp_path xs ys (and-right _ _ h) in
    let e : x ≡ y = ==_lem x y (and-left _ _ h) in rw (e, r) refl

abbrev pub is_some {ℓ} : {A : Type ℓ} → Option A → Bool
is_some none = false
is_some (some _) = true

abbrev pub has_name : Name → Option Sem → Bool
has_name name none = false
has_name name (some s) = strcmp_eq name s.name

-- The bits are those of the slots in use, whose names are all different.
pub record Consistent (t : SemTable) : Type 0 where
  pub size : t.bitmap.num_bits ≡ max_semaphore
  pub valid : Bits.IsValid t.bitmap
  pub filled : (i : ℕ) → i < max_semaphore → is_some (t.slots i) ≡ is_set t.bitmap i
  pub different :
      (i j : ℕ) (name : Name)
      → i < max_semaphore
      → j < max_semaphore
      → has_name name (t.slots i) ≡ true
      → has_name name (t.slots j) ≡ true
      → i ≡ j

find_name_from_lem :
    (t : SemTable) (name : Name) (k i : ℕ)
    → Consistent t
    → i + k ≡ max_semaphore
    → find_name_from k i name t ≡ some (first (λ j. has_name name (t.slots j)) k i)
unfolding find_name_from
find_name_from_lem t name zero i c e = refl
find_name_from_lem t name (suc k) i c e =
    let s = c.size in
    let q = test_lem t.bitmap i (omega arith) in
    let f = c.filled i (omega arith) in
    let r = find_name_from_lem t name k (suc i) c (omega arith) in ground arith

pub find_name_lem :
    (t : SemTable) (name : Name)
    → Consistent t
    → find_name name t ≡ some (first (λ j. has_name name (t.slots j)) max_semaphore 0)
unfolding find_name
find_name_lem t name c = find_name_from_lem t name max_semaphore 0 c refl

-- The constructor makes an empty table.
pub new_table_lem :
    (t : SemTable) × (new_table ≡ some t) × Consistent t × ((i : ℕ) → t.slots i ≡ none)
unfolding new_table
new_table_lem =
    let (b, e, n, v, f) = new_bitmap_lem max_semaphore (omega arith) in
    (
      record { bitmap = b; slots = λ i. none },
      rw e refl,
      record {
        size = n;
        valid = v;
        filled = λ i l. sym (f i);
        different = λ i j name p q a b. ground arith;
      },
      λ i. refl,
    )

-- What `Create` is to do: nothing where the name is there or every slot is in use; otherwise it
-- fills the first free slot.
pub data Creates (name : Name) (value : ℕ) (address : SemaphoreId) (t : SemTable) (k : Kernel)
    : Option (Option ℕ × (SemTable × Kernel)) → Type 0 where
  exists :
      (i : ℕ)
      → i < max_semaphore
      → has_name name (t.slots i) ≡ true
      → Creates name value address t k (some (none, (t, k)))
  no_slot :
      ((i : ℕ) → i < max_semaphore → is_some (t.slots i) ≡ true)
      → Creates name value address t k (some (none, (t, k)))
  created :
      (i : ℕ) (t' : SemTable)
      → i < max_semaphore
      → is_some (t.slots i) ≡ false
      → ((j : ℕ) → j < i → is_some (t.slots j) ≡ true)
      → ((j : ℕ) → j < max_semaphore → has_name name (t.slots j) ≡ false)
      → t'.slots ≡ assign_at t.slots i (some (record { name = name; sem = address }))
      → Consistent t'
      → Creates name value address t k
          (some (some i, (t', set_semaphore k address (new_semaphore value))))

-- A name that was not there, in a free slot.
module _ (t : SemTable) (c : Consistent t) (name : Name) (address : SemaphoreId) (i : ℕ)
    (b : Bitmap) (l : i < t.bitmap.num_bits) (w : Writes t.bitmap i true b)
    (new : (j : ℕ) → j < max_semaphore → has_name name (t.slots j) ≡ false) where
  unfoldable pub with_name : SemTable
  with_name = record {
    bitmap = b;
    slots = assign_at t.slots i (some (record { name = name; sem = address }));
  }

  slot_other : (j : ℕ) → j ≢ i → with_name.slots j ≡ t.slots j
  unfolding with_name
  slot_other j n = let e : (j == i) ≡ false = ground arith in rw e refl

  slot_self : (j : ℕ) → j ≡ i → with_name.slots j ≡ some (record { name = name; sem = address })
  unfolding with_name
  slot_self j n = let e : (j == i) ≡ true = ground arith in rw e refl

  not_new :
      (j : ℕ) (other : Name)
      → j < max_semaphore
      → j ≢ i
      → has_name other (with_name.slots j) ≡ true
      → has_name other (with_name.slots i) ≡ true
      → ⊥
  not_new j other p n a q =
      let a' : has_name other (t.slots j) ≡ true = ap (has_name other) (sym (slot_other j n)) ∙ a in
      let q' : strcmp_eq other name ≡ true = ap (has_name other) (sym (slot_self i refl)) ∙ q in
      let e : other ≡ name = strcmp_path other name q' in
      let f : has_name name (t.slots j) ≡ true =
        ap (λ (x : Name). has_name x (t.slots j)) (sym e) ∙ a' in
      let z = new j p in ground arith

  pub with_name-Consistent : Consistent with_name
  unfolding with_name
  with_name-Consistent = record {
    size = w.same_size ∙ c.size;
    valid = w.valid;
    filled = λ j p. elim (ℕ_discrete j i) [
      | yes e ↦ ap is_some (slot_self j e) ∙ sym (ap (is_set b) e ∙ Writes-here _ _ i true w)
      | no n ↦ ap is_some (slot_other j n) ∙ c.filled j p ∙ sym (Writes-other _ _ i j true w n)
    ];
    different = λ x y other p q a d. elim (ℕ_discrete x i) [
      | yes e ↦ elim (ℕ_discrete y i) [
        | yes f ↦ e ∙ sym f
        | no n ↦
            absurd (
              not_new y other q n d
                (ap (λ (z : ℕ). has_name other (with_name.slots z)) (sym e) ∙ a))
      ]
      | no n ↦ elim (ℕ_discrete y i) [
        | yes f ↦
            absurd (
              not_new x other p n a
                (ap (λ (z : ℕ). has_name other (with_name.slots z)) (sym f) ∙ d))
        | no m ↦
            c.different x y other p q (ap (has_name other) (sym (slot_other x n)) ∙ a)
              (ap (has_name other) (sym (slot_other y m)) ∙ d)
      ]
    ];
  }
