-- ===== src/FileSystem/Lifetime.antt =====
-- The steps of a successful `FileSystem::Create` (NachOS-4.0/code/filesys/filesys.cc).
use hcmus_csc10007_operating.Common.{
  ℕ, ◌≡◌, refl, ap, sym, ◌∙◌, Bool, true, false, Option, none, some, if◌then◌else◌, arith,
}
use hcmus_csc10007_operating.Common.Strings.{Chars}
use hcmus_csc10007_operating.Bitmap.{Bitmap, find_and_set}
use hcmus_csc10007_operating.FileHeader.{FileHeader, sector_size, num_direct, allocate, deallocate}
use hcmus_csc10007_operating.FileHeader
use hcmus_csc10007_operating.Directory.{Directory, find, add}
use hcmus_csc10007_operating.FileSystem.{
  Disk, Result, ok, flush, create_header, create_entry, create,
}

-- The steps of a successful `Create`.
pub record Created (name : Chars) (size : ℕ) (hdr : FileHeader) (d d' : Disk) : Type 0 where
  pub sector : ℕ
  pub map1 : Bitmap
  pub map2 : Bitmap
  pub dir : Directory
  pub hdr' : FileHeader
  pub absent : find name d.directory ≡ none
  pub taken : find_and_set d.free_map ≡ some (some sector, map1)
  pub entered : add name sector d.directory ≡ (true, dir)
  pub allocated : allocate size hdr map1 ≡ FileHeader.ok true hdr' map2
  pub result : d' ≡ flush d sector hdr' dir map2

header_done :
    (name : Chars) (size : ℕ) (hdr : FileHeader) (sector : ℕ) (dir : Directory) (map1 : Bitmap)
    (d d' : Disk)
    → create_header name size hdr sector dir map1 d ≡ ok true d'
    → (hdr' : FileHeader) × (map2 : Bitmap) × (allocate size hdr map1
        ≡ FileHeader.ok true hdr' map2)
      × (d' ≡ flush d sector hdr' dir map2)
unfolding create_header
header_done name size hdr sector dir map1 d d' e = go (allocate size hdr map1) refl
  where
    go :
        (r : FileHeader.Result)
        → allocate size hdr map1 ≡ r
        → (hdr' : FileHeader) × (map2 : Bitmap) × (allocate size hdr map1
            ≡ FileHeader.ok true hdr' map2)
          × (d' ≡ flush d sector hdr' dir map2)
    go (FileHeader.ok true hdr' map2) a = (hdr', map2, a, ground arith)
    go (FileHeader.ok false hdr' map2) a = absurd (ground arith)
    go FileHeader.fault a = absurd (ground arith)
    go FileHeader.overrun a = absurd (ground arith)

entry_done :
    (name : Chars) (size : ℕ) (hdr : FileHeader) (sector : ℕ) (map1 : Bitmap) (d d' : Disk)
    → create_entry name size hdr sector map1 d ≡ ok true d'
    → (dir : Directory) × (add name sector d.directory ≡ (true, dir))
      × (create_header name size hdr sector dir map1 d ≡ ok true d')
unfolding create_entry
entry_done name size hdr sector map1 d d' e = go (add name sector d.directory) refl
  where
    enter : Bool × Directory → Result
    enter r = if r.0 then create_header name size hdr sector r.1 map1 d else ok false d

    go :
        (r : Bool × Directory)
        → add name sector d.directory ≡ r
        → (dir : Directory) × (add name sector d.directory ≡ (true, dir))
          × (create_header name size hdr sector dir map1 d ≡ ok true d')
    go (true, dir) a = (dir, a, sym (ap enter a) ∙ e)
    go (false, dir) a =
        let q : ok false d ≡ ok true d' = sym (ap enter a) ∙ e in absurd (ground arith)

pub create-Created :
    (name : Chars) (size : ℕ) (hdr : FileHeader) (d d' : Disk)
    → create name size hdr d ≡ ok true d'
    → Created name size hdr d d'
unfolding create
create-Created name size hdr d d' e = go (find name d.directory) refl (find_and_set d.free_map) refl
  where
    go :
        (f : Option ℕ)
        → find name d.directory ≡ f
        → (r : Option (Option ℕ × Bitmap)) → find_and_set d.free_map ≡ r
        → Created name size hdr d d'
    go (some s) f r t = absurd (ground arith)
    go none f none t = absurd (ground arith)
    go none f (some (none, map1)) t = absurd (ground arith)
    go none f (some (some sector, map1)) t =
        let q : create name size hdr d ≡ create_entry name size hdr sector map1 d = ground arith in
        let (dir, a, h) = entry_done name size hdr sector map1 d d' (sym q ∙ e) in
        let (hdr', map2, c, r) = header_done name size hdr sector dir map1 d d' h in
        record {
          sector = sector;
          map1 = map1;
          map2 = map2;
          dir = dir;
          hdr' = hdr';
          absent = f;
          taken = t;
          entered = a;
          allocated = c;
          result = r;
        }
