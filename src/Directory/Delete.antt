-- ===== src/Directory/Delete.antt =====
-- `Directory::Remove` as a deletion from the map that `Find` reads (NachOS-4.0/code/filesys/directory.cc).
use hcmus_csc10007_operating.Common.{
  ℕ, ◌<◌, ◌≡◌, refl, ap, sym, ◌∙◌, Bool, true, false, none, some, if◌then◌else◌, arith, and-left,
  and-right, Bool-cases, Option-cases, ℕ_discrete, inl, inr,
}
use hcmus_csc10007_operating.Common.Strings.{Chars, strncmp_sym, strncmp_trans}
use hcmus_csc10007_operating.Directory.{
  DirectoryEntry, Directory, set_entry, matches, find_index, find, remove,
}
use hcmus_csc10007_operating.Directory.Lookup.{
  same_name, IsValid, true≢false, matches_unique, find-no_match, find_index-some, entry_self,
  entry-ne, find-other,
}
use hcmus_csc10007_operating.Directory.Update.{if-true, if-false, set_entry-IsValid}

-- What `Remove` is to do with the map that `Find` reads.
pub data Removes (name : Chars) (d : Directory) : Bool × Directory → Type 0 where
  removed :
      (s : ℕ) (d' : Directory)
      → IsValid d'
      → find name d ≡ some s
      → ((other : Chars) → find other d' ≡ (if same_name other name then none else find other d))
      → Removes name d (true, d')
  absent : find name d ≡ none → Removes name d (false, d)

pub renamed :
    (e : DirectoryEntry) (other name : Chars)
    → matches other e ≡ true
    → same_name other name ≡ true
    → matches name e ≡ true
renamed e other name m t =
    let u : e.in_use ≡ true = and-left e.in_use (same_name e.name other) m in
    rw u (strncmp_trans 9 0 e.name other name (and-right e.in_use (same_name e.name other) m) t)

module _ (d : Directory) (name : Chars) (i : ℕ) (v : IsValid d) (l : i < d.table_size)
    (here : matches name (d.table i) ≡ true) where
  abbrev freed : DirectoryEntry
  freed = record (d.table i) { in_use = false }

  freed-IsValid : IsValid (set_entry d i freed)
  freed-IsValid = set_entry-IsValid d i freed v (λ j k n a b c. true≢false (sym b))

  no_other :
      (other : Chars)
      → same_name other name ≡ true
      → (j : ℕ) → j < d.table_size
      → matches other ((set_entry d i freed).table j) ≡ false
  no_other other t j p = elim (ℕ_discrete j i) [
    | yes x ↦
        ap (λ (k : ℕ). matches other ((set_entry d i freed).table k)) x
        ∙ ap (matches other) (entry_self d i freed)
    | no n ↦
        ap (matches other) (entry-ne d i j freed n)
        ∙ (elim (Bool-cases (matches other (d.table j))) [
          | inl m ↦
              absurd (n (matches_unique d name j i v p l (renamed (d.table j) other name m t) here))
          | inr g ↦ g
        ])
  ]

  off_here : (other : Chars) → same_name other name ≡ false → matches other (d.table i) ≡ false
  off_here other f = elim (Bool-cases (matches other (d.table i))) [
    | inl m ↦ absurd (
        true≢false (
          sym (
            strncmp_trans 9 0 other (d.table i).name name
              (strncmp_sym 9 0 (d.table i).name other (and-right _ _ m)) (and-right _ _ here))
          ∙ f))
    | inr g ↦ g
  ]

  freed-find :
      (other : Chars)
      → find other (set_entry d i freed) ≡ (if same_name other name then none else find other d)
  freed-find other = elim (Bool-cases (same_name other name)) [
    | inl t ↦
        find-no_match (set_entry d i freed) other (no_other other t)
        ∙ sym (if-true (same_name other name) none (find other d) t)
    | inr f ↦
        find-other d other i freed freed-IsValid (off_here other f) refl
        ∙ sym (if-false (same_name other name) none (find other d) f)
  ]

-- On a valid directory `Remove` of a name it has makes `Find` miss that name and return what it
-- returned before for every other, and keeps the directory valid; where the name is absent it
-- returns FALSE and changes nothing.
pub remove-Removes : (d : Directory) (name : Chars) → IsValid d → Removes name d (remove name d)
unfolding remove find
remove-Removes d name v = elim (Option-cases (find_index name d)) [
  | inl e ↦
      let r : remove name d ≡ (false, d) = ground arith in
      let q : find name d ≡ none = ground arith in rw r (absent q)
  | inr (i, e) ↦
      let (l, m) = find_index-some d name i e in
      let r : remove name d ≡ (true, set_entry d i (record (d.table i) { in_use = false })) =
        ground arith in
      let q : find name d ≡ some (d.table i).sector = ground arith in
      rw r
        (removed (d.table i).sector _ (freed-IsValid d name i v l m) q (freed-find d name i v l m))
]
