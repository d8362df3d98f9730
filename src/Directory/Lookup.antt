-- ===== src/Directory/Lookup.antt =====
-- `Find` after `Add` and `Remove` (NachOS-4.0/code/filesys/directory.cc): the directory is a map from file
-- names, compared up to `FileNameMaxLen` characters, to sectors.
use hcmus_csc10007_operating.Common.{
  ℕ, ◌<◌, ◌≡◌, ◌≢◌, refl, ap, sym, ◌∙◌, Bool, true, false, none, some, ◌==◌, arith, and-left,
  and-right, Option-cases, ℕ_discrete, inl, inr,
}
use hcmus_csc10007_operating.Common.Search.{first_unique, first-none, first-some, first-miss}
use hcmus_csc10007_operating.Common.Strings.{Chars, strncmp_eq, strncmp_sym, strncmp_trans}
use hcmus_csc10007_operating.Directory.{
  file_name_max_len, DirectoryEntry, Directory, set_entry, matches, find_index, find,
}

-- The names that the directory does not tell apart.
abbrev pub same_name : Chars → Chars → Bool
same_name a b = strncmp_eq file_name_max_len 0 a b

-- No two entries in use have the same name.
pub record IsValid (d : Directory) : Type 0 where
  pub unique :
      (i j : ℕ)
      → i < d.table_size
      → j < d.table_size
      → (d.table i).in_use ≡ true
      → (d.table j).in_use ≡ true
      → same_name (d.table i).name (d.table j).name ≡ true
      → i ≡ j

pub true≢false : true ≢ false
true≢false = λ e. ground arith

pub matches_unique :
    (d : Directory) (name : Chars) (i j : ℕ)
    → IsValid d
    → i < d.table_size
    → j < d.table_size
    → matches name (d.table i) ≡ true
    → matches name (d.table j) ≡ true
    → i ≡ j
matches_unique d name i j v p q a b = v.unique i j p q (and-left _ _ a) (and-left _ _ b) (
    strncmp_trans 9 0 (d.table i).name name (d.table j).name (and-right _ _ a)
      (strncmp_sym 9 0 (d.table j).name name (and-right _ _ b)))

-- In a valid directory an entry that matches is the one that is found.
pub find-match :
    (d : Directory) (name : Chars) (i : ℕ)
    → IsValid d
    → i < d.table_size
    → matches name (d.table i) ≡ true
    → find name d ≡ some (d.table i).sector
unfolding find find_index
find-match d name i v p a =
    let e : find_index name d ≡ some i =
      first_unique (λ k. matches name (d.table k)) d.table_size i p a
        (λ j q b. matches_unique d name j i v q p b a) in
    ground arith

pub find-no_match :
    (d : Directory) (name : Chars)
    → ((j : ℕ) → j < d.table_size → matches name (d.table j) ≡ false)
    → find name d ≡ none
unfolding find find_index
find-no_match d name h =
    let e : find_index name d ≡ none = first-none (λ k. matches name (d.table k)) d.table_size h in
    ground arith

-- Whatever entry `find_index` meets.
pub find_index-some :
    (d : Directory) (name : Chars) (i : ℕ)
    → find_index name d ≡ some i
    → (i < d.table_size) × (matches name (d.table i) ≡ true)
unfolding find_index
find_index-some d name i e =
    let (l, m, f) = first-some (λ k. matches name (d.table k)) d.table_size i e in (l, m)

pub find_index-none :
    (d : Directory) (name : Chars)
    → find_index name d ≡ none
    → (j : ℕ) → j < d.table_size
    → matches name (d.table j) ≡ false
unfolding find_index
find_index-none d name e = first-miss (λ k. matches name (d.table k)) d.table_size e

pub entry_self : (d : Directory) (i : ℕ) (e : DirectoryEntry) → (set_entry d i e).table i ≡ e
entry_self d i e = let f : (i == i) ≡ true = ground arith in rw f refl

pub entry-ne :
    (d : Directory) (i j : ℕ) (e : DirectoryEntry) → j ≢ i → (set_entry d i e).table j ≡ d.table j
entry-ne d i j e n = let f : (j == i) ≡ false = ground arith in rw f refl

-- The result of one write to the table, where every name but `name` keeps its entry.
module _ (d : Directory) (other : Chars) (i : ℕ) (e : DirectoryEntry)
    (v : IsValid (set_entry d i e)) (off : matches other (d.table i) ≡ false)
    (off' : matches other e ≡ false) where
  pub find-other : find other (set_entry d i e) ≡ find other d
  unfolding find
  find-other = elim (Option-cases (find_index other d)) [
    | inl z ↦
        find-no_match (set_entry d i e) other (λ j l. elim (ℕ_discrete j i) [
          | yes p ↦
              ap (λ (k : ℕ). matches other ((set_entry d i e).table k)) p
              ∙ ap (matches other) (entry_self d i e)
              ∙ off'
          | no n ↦ ap (matches other) (entry-ne d i j e n) ∙ find_index-none d other z j l
        ])
        ∙ ground arith
    | inr (k, z) ↦
        let (l, m) = find_index-some d other k z in
        let n : k ≢ i =
          λ p. true≢false (sym m ∙ ap (λ (x : ℕ). matches other (d.table x)) p ∙ off) in
        let s = entry-ne d i k e n in
        find-match (set_entry d i e) other k v l (ap (matches other) s ∙ m)
        ∙ ap (λ (x : DirectoryEntry). some x.sector) s
        ∙ ground arith
  ]
