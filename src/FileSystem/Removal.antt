-- ===== src/FileSystem/Removal.antt =====
-- `FileSystem::Create` undone by `FileSystem::Remove` (NachOS-4.0/code/filesys/filesys.cc).
use hcmus_csc10007_operating.Common.{
  ℕ, ◌*◌, ◌<◌, ◌≤◌, ◌≡◌, ◌≢◌, ap, sym, ◌∙◌, Bool, true, false, Option, none, some, if◌then◌else◌,
  arith, Bool-cases, Option-cases, ℕ_discrete, inl, inr,
}
use hcmus_csc10007_operating.Common.Strings.{Chars, strncmp_refl}
use hcmus_csc10007_operating.Bitmap.{Bitmap, is_set, clear, find_and_set}
use hcmus_csc10007_operating.Bitmap.Bits
use hcmus_csc10007_operating.Bitmap.Bits.{Writes, Writes-here, clear-Writes}
use hcmus_csc10007_operating.Bitmap.Allocation.{Finds, find_and_set-Finds, Writes-other}
use hcmus_csc10007_operating.Bitmap.Allocation
use hcmus_csc10007_operating.FileHeader.{FileHeader, sector_size, num_direct, deallocate}
use hcmus_csc10007_operating.FileHeader.Release.{allocate-deallocate}
use hcmus_csc10007_operating.Directory.{Directory, find, find_index, add, remove}
use hcmus_csc10007_operating.Directory.Lookup
use hcmus_csc10007_operating.Directory.Lookup.{same_name}
use hcmus_csc10007_operating.Directory.Insert.{Adds, added, add-Adds}
use hcmus_csc10007_operating.Directory.Update
use hcmus_csc10007_operating.Directory.Delete.{Removes, removed, remove-Removes}
use hcmus_csc10007_operating.Directory.Delete
use hcmus_csc10007_operating.FileSystem.{Disk, ok, flush, create, remove_file}
use hcmus_csc10007_operating.FileSystem.Lifetime.{create-Created}

some≢none : {s : ℕ} → some s ≢ none
some≢none = λ e. ground arith

-- What the directory's `Add` and `Remove` of an absent name leave of `Find`.
module _ (name : Chars) (s : ℕ) (d dir : Directory) where
  added_find :
      Adds name s d (true, dir)
      → Lookup.IsValid dir
        × ((other : Chars)
            → find other dir ≡ (if same_name other name then some s else find other d))
  added_find (added _ v n f) = (v, f)

  same_absent :
      Lookup.IsValid d
      → find name d ≡ none
      → (other : Chars) → same_name other name ≡ true
      → find other d ≡ none
  same_absent v n other t = elim (Option-cases (find_index other d)) [
    | inl z ↦ Lookup.find-no_match d other (Lookup.find_index-none d other z)
    | inr (k, z) ↦
        let (l, m) = Lookup.find_index-some d other k z in
        let f : find name d ≡ some (d.table k).sector =
          Lookup.find-match d name k v l (Delete.renamed (d.table k) other name m t) in
        absurd (some≢none (sym f ∙ n))
  ]

-- The first clear bit, as `FindAndSet` takes it.
module _ (b b1 : Bitmap) (i : ℕ) where
  found_Writes :
      (o : Option (Option ℕ × Bitmap))
      → o ≡ some (some i, b1)
      → Finds b o
      → (i < b.num_bits) × (is_set b i ≡ false) × Writes b i true b1
  found_Writes _ e (Allocation.found j b2 l c f u) =
      let p : j ≡ i = ground arith in let q : b2 ≡ b1 = ground arith in rw (sym p, sym q) (l, c, u)
  found_Writes _ e (Allocation.full f) = absurd (ground arith)

  freed_bits :
      (b2 b3 : Bitmap)
      → is_set b i ≡ false
      → Writes b i true b1
      → ((j : ℕ) → is_set b2 j ≡ is_set b1 j)
      → Writes b2 i false b3
      → (j : ℕ) → is_set b3 j ≡ is_set b j
  freed_bits b2 b3 c u same w j = elim (ℕ_discrete j i) [
    | yes e ↦ ap (is_set b3) e ∙ Writes-here b2 b3 i false w ∙ sym c ∙ ap (is_set b) (sym e)
    | no n ↦ Writes-other b2 b3 i j false w n ∙ same j ∙ Writes-other b b1 i j true u n
  ]

-- Deleting what `Add` has entered.
module _ (name : Chars) (s : ℕ) (d dir : Directory) (v : Lookup.IsValid d)
    (absent : find name d ≡ none) (entered : add name s d ≡ (true, dir)) where
  entry :
      Lookup.IsValid dir
      × ((other : Chars) → find other dir ≡ (if same_name other name then some s else find other d))
  entry = added_find name s d dir (rw (sym entered) (add-Adds d name s v))

  entry_here : find name dir ≡ some s
  entry_here =
      entry.1 name
      ∙ Update.if-true (same_name name name) (some s) (find name d) (strncmp_refl 9 0 name)

  removed_find :
      (r : Bool × Directory) → Removes name dir r → (other : Chars) → find other r.1 ≡ find other d
  removed_find _ (Delete.absent n) other = absurd (some≢none (sym entry_here ∙ n))
  removed_find _ (removed t d2 w f g) other = elim (Bool-cases (same_name other name)) [
    | inl e ↦
        g other
        ∙ Update.if-true (same_name other name) none (find other dir) e
        ∙ sym (same_absent name s d dir v absent other e)
    | inr e ↦
        g other
        ∙ Update.if-false (same_name other name) none (find other dir) e
        ∙ entry.1 other
        ∙ Update.if-false (same_name other name) (some s) (find other d) e
  ]

-- A `Remove` whose steps succeed.
remove_done :
    (name : Chars) (d : Disk) (s : ℕ) (b2 b3 : Bitmap)
    → find name d.directory ≡ some s
    → deallocate (d.headers s) d.free_map ≡ some b2
    → clear s b2 ≡ some b3
    → remove_file name d
      ≡ ok true (record d { free_map = b3; directory = (remove name d.directory).1 })
unfolding remove_file
remove_done name d s b2 b3 f q z = ground arith

-- On a disk with a valid bitmap and a valid directory, for a size of at most `MaxFileSize`: after a
-- `Create` that returned TRUE, `Remove` of the same name returns TRUE, no ASSERT failing, and
-- every bit of the bitmap and what `Find` returns for every name are as before the `Create`.
pub create-remove_file :
    (name : Chars) (size : ℕ) (hdr : FileHeader) (d d' : Disk)
    → Bits.IsValid d.free_map
    → Lookup.IsValid d.directory
    → size ≤ num_direct * sector_size
    → create name size hdr d ≡ ok true d'
    → (d2 : Disk) × (remove_file name d' ≡ ok true d2)
      × ((j : ℕ) → is_set d2.free_map j ≡ is_set d.free_map j)
      × ((other : Chars) → find other d2.directory ≡ find other d.directory)
unfolding remove_file
create-remove_file name size hdr d d' vm vd l e =
    let c = create-Created name size hdr d d' e in
    let (r, f, u) =
      found_Writes d.free_map c.map1 c.sector (find_and_set d.free_map) c.taken
        (find_and_set-Finds d.free_map vm) in
    let (b2, q, n, w, same) =
      allocate-deallocate size hdr c.hdr' c.map1 c.map2 u.valid l c.allocated in
    let (b3, z, x) = clear-Writes b2 c.sector w (omega (arith, n, u.same_size)) in
    let here = entry_here name c.sector d.directory c.dir vd c.absent c.entered in
    let h : (flush d c.sector c.hdr' c.dir c.map2).headers c.sector ≡ c.hdr' = ground arith in
    let d2 : Disk = record (flush d c.sector c.hdr' c.dir c.map2) {
      free_map = b3;
      directory = (remove name c.dir).1;
    } in
    let out : remove_file name (flush d c.sector c.hdr' c.dir c.map2) ≡ ok true d2 =
      remove_done name (flush d c.sector c.hdr' c.dir c.map2) c.sector b2 b3 here
        (ap (λ (t : FileHeader). deallocate t c.map2) h ∙ q) z in
    (
      d2,
      ap (remove_file name) c.result ∙ out,
      freed_bits d.free_map c.map1 c.sector b2 b3 f u same x,
      removed_find name c.sector d.directory c.dir vd c.absent c.entered (remove name c.dir) (
          remove-Removes c.dir name
            (entry name c.sector d.directory c.dir vd c.absent c.entered).0),
    )
