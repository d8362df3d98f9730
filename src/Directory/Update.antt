-- ===== src/Directory/Update.antt =====
-- A write of one entry of a valid directory (NachOS-4.0/code/filesys/directory.cc).
use hcmus_csc10007_operating.Common.{
  ℕ, ◌<◌, ◌≡◌, ◌≢◌, refl, ap, sym, ◌∙◌, Bool, true, false, not, Option, if◌then◌else◌, arith,
  ℕ_discrete,
}
use hcmus_csc10007_operating.Common.Strings.{Chars, strncmp_sym}
use hcmus_csc10007_operating.Directory.{DirectoryEntry, Directory, set_entry, matches}
use hcmus_csc10007_operating.Directory.Lookup.{same_name, IsValid, entry_self, entry-ne}

pub if-true : (c : Bool) (x y : Option ℕ) → c ≡ true → (if c then x else y) ≡ x
if-true c x y e = rw e refl

pub if-false : (c : Bool) (x y : Option ℕ) → c ≡ false → (if c then x else y) ≡ y
if-false c x y e = rw e refl

pub not-true : {b : Bool} → not b ≡ true → b ≡ false
not-true {b = true} h = ground arith
not-true {b = false} h = refl

pub not-false : {b : Bool} → not b ≡ false → b ≡ true
not-false {b = true} h = refl
not-false {b = false} h = ground arith

pub unused_off : (e : DirectoryEntry) (other : Chars) → e.in_use ≡ false → matches other e ≡ false
unused_off e other u = rw u refl

-- A write of the entry `e` at `i` that clashes with no other entry.
module _ (d : Directory) (i : ℕ) (e : DirectoryEntry) (v : IsValid d)
    (no_clash : (j : ℕ)
      → j < d.table_size
      → j ≢ i
      → (d.table j).in_use ≡ true
      → e.in_use ≡ true
      → same_name (d.table j).name e.name ≢ true) where
  at_self : (j : ℕ) → j ≡ i → (set_entry d i e).table j ≡ e
  at_self j p = ap (set_entry d i e).table p ∙ entry_self d i e

  clash :
      (j k : ℕ)
      → j < d.table_size
      → j ≢ i
      → k ≡ i
      → ((set_entry d i e).table j).in_use ≡ true
      → ((set_entry d i e).table k).in_use ≡ true
      → same_name ((set_entry d i e).table j).name ((set_entry d i e).table k).name ≢ true
  clash j k l n p a b = λ c.
      let sj = entry-ne d i j e n in
      let sk = at_self k p in
      no_clash j l n (ap (λ (z : DirectoryEntry). z.in_use) (sym sj) ∙ a)
        (ap (λ (z : DirectoryEntry). z.in_use) (sym sk) ∙ b)
        (ap (λ (z : DirectoryEntry). same_name z.name e.name) (sym sj)
          ∙ ap (λ (z : DirectoryEntry). same_name ((set_entry d i e).table j).name z.name) (sym sk)
          ∙ c)

  set_entry_unique :
      (j k : ℕ)
      → j < d.table_size
      → k < d.table_size
      → ((set_entry d i e).table j).in_use ≡ true
      → ((set_entry d i e).table k).in_use ≡ true
      → same_name ((set_entry d i e).table j).name ((set_entry d i e).table k).name ≡ true
      → j ≡ k
  set_entry_unique j k p q a b c = elim (ℕ_discrete j i) [
    | yes x ↦ elim (ℕ_discrete k i) [
      | yes y ↦ x ∙ sym y
      | no y ↦ absurd (
          clash k j q y x b a
            (strncmp_sym 9 0 ((set_entry d i e).table j).name ((set_entry d i e).table k).name c))
    ]
    | no x ↦ elim (ℕ_discrete k i) [
      | yes y ↦ absurd (clash j k p x y a b c)
      | no y ↦
          let sj = entry-ne d i j e x in
          let sk = entry-ne d i k e y in
          v.unique j k p q (ap (λ (z : DirectoryEntry). z.in_use) (sym sj) ∙ a)
            (ap (λ (z : DirectoryEntry). z.in_use) (sym sk) ∙ b)
            (ap (λ (z : DirectoryEntry). same_name z.name (d.table k).name) (sym sj)
              ∙ ap (λ (z : DirectoryEntry). same_name ((set_entry d i e).table j).name z.name)
                  (sym sk)
              ∙ c)
    ]
  ]

  pub set_entry-IsValid : IsValid (set_entry d i e)
  set_entry-IsValid = record { unique = set_entry_unique }
