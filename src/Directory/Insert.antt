-- ===== src/Directory/Insert.antt =====
-- `Directory::Add` as an insertion into the map that `Find` reads (NachOS-4.0/code/filesys/directory.cc).
use hcmus_csc10007_operating.Common.{
  ℕ, ◌<◌, ◌≡◌, ap, sym, ◌∙◌, Bool, true, false, not, none, some, if◌then◌else◌, arith, Bool-cases,
  Option-cases, inl, inr,
}
use hcmus_csc10007_operating.Common.Search.{first, first-some, first-miss}
use hcmus_csc10007_operating.Common.Strings.{Chars, strncmp_sym, strncmp_trans, strncmp-strncpy}
use hcmus_csc10007_operating.Directory.{
  DirectoryEntry, Directory, set_entry, matches, find_index, find, new_entry, add,
}
use hcmus_csc10007_operating.Directory.Lookup.{
  same_name, IsValid, true≢false, find-match, find_index-none, entry_self, find-other,
}
use hcmus_csc10007_operating.Directory.Update.{
  if-true, if-false, not-true, not-false, unused_off, set_entry-IsValid,
}

-- What `Add` is to do with the map that `Find` reads.
pub data Adds (name : Chars) (s : ℕ) (d : Directory) : Bool × Directory → Type 0 where
  added :
      (d' : Directory)
      → IsValid d'
      → find name d ≡ none
      → ((other : Chars) → find other d' ≡ (if same_name other name then some s else find other d))
      → Adds name s d (true, d')
  present : (t : ℕ) → find name d ≡ some t → Adds name s d (false, d)
  full :
      find name d ≡ none
      → ((i : ℕ) → i < d.table_size → (d.table i).in_use ≡ true)
      → Adds name s d (false, d)

module _ (d : Directory) (name : Chars) (i s : ℕ) (v : IsValid d) (l : i < d.table_size)
    (absent : find_index name d ≡ none) (unused : (d.table i).in_use ≡ false) where
  abbrev entry : DirectoryEntry
  entry = new_entry name s (d.table i)

  copied : same_name entry.name name ≡ true
  copied = strncmp-strncpy 9 0 (d.table i).name name

  written-IsValid : IsValid (set_entry d i entry)
  written-IsValid = set_entry-IsValid d i entry v (λ j k n a b c. true≢false (
      sym (rw a (strncmp_trans 9 0 (d.table j).name entry.name name c copied))
      ∙ find_index-none d name absent j k))

  hit_entry : (other : Chars) → same_name other name ≡ true → matches other entry ≡ true
  hit_entry other t = strncmp_trans 9 0 entry.name name other copied (strncmp_sym 9 0 other name t)

  off_entry : (other : Chars) → same_name other name ≡ false → matches other entry ≡ false
  off_entry other f = elim (Bool-cases (matches other entry)) [
    | inl t ↦ absurd (
        true≢false (
          sym (strncmp_trans 9 0 other entry.name name (strncmp_sym 9 0 entry.name other t) copied)
          ∙ f))
    | inr g ↦ g
  ]

  written-find :
      (other : Chars)
      → find other (set_entry d i entry) ≡ (if same_name other name then some s else find other d)
  written-find other = elim (Bool-cases (same_name other name)) [
    | inl t ↦
        let e = entry_self d i entry in
        find-match (set_entry d i entry) other i written-IsValid l
          (ap (matches other) e ∙ hit_entry other t)
        ∙ ap (λ (z : DirectoryEntry). some z.sector) e
        ∙ sym (if-true (same_name other name) (some s) (find other d) t)
    | inr f ↦
        find-other d other i entry written-IsValid (unused_off (d.table i) other unused)
          (off_entry other f)
        ∙ sym (if-false (same_name other name) (some s) (find other d) f)
  ]

-- On a valid directory `Add` of a name it does not have makes `Find` return the new sector for that
-- name and what it returned before for every other, and keeps the directory valid; it returns FALSE
-- and changes nothing where the name is present or no entry is unused.
pub add-Adds : (d : Directory) (name : Chars) (s : ℕ) → IsValid d → Adds name s d (add name s d)
unfolding add find
add-Adds d name s v = elim (Option-cases (find_index name d)) [
  | inr (i, e) ↦
      let r : add name s d ≡ (false, d) = ground arith in
      let q : find name d ≡ some (d.table i).sector = ground arith in rw r (present _ q)
  | inl e ↦
      let q : find name d ≡ none = ground arith in
      elim (Option-cases (first (λ j. not (d.table j).in_use) d.table_size 0)) [
        | inl z ↦
            let r : add name s d ≡ (false, d) = ground arith in
            rw r (
              full q
                (λ j l. not-false (first-miss (λ k. not (d.table k).in_use) d.table_size z j l)))
        | inr (i, z) ↦
            let (l, u, w) = first-some (λ k. not (d.table k).in_use) d.table_size i z in
            let unused : (d.table i).in_use ≡ false = not-true u in
            let r : add name s d ≡ (true, set_entry d i (new_entry name s (d.table i))) =
              ground arith in
            rw r (
              added _ (written-IsValid d name i s v l e unused) q
                (written-find d name i s v l e unused))
      ]
]
