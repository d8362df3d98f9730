-- ===== src/SectorFile/Sectors.antt =====
-- NachOS-4.0/code/filesys/openfile.cc: the loop of `WriteAt` over the sectors.
use hcmus_csc10007_operating.Common.{
  ℕ, zero, suc, ◌+◌, ◌-◌, ◌*◌, ◌/◌, ◌≤◌, ◌<◌, ◌==◌, ltb, ◌≡◌, ◌≢◌, refl, sym, ap, ◌∙◌, Bool, true,
  false, if◌then◌else◌, some, arith, ℕ_discrete,
}
use hcmus_csc10007_operating.Common.Word.{sign_bit}
use hcmus_csc10007_operating.FileHeader.{FileHeader, sector_size, byte_to_sector}
use hcmus_csc10007_operating.SectorFile.{
  num_sectors, Bytes, Disk, bcopy, write_sector, transferred, write_sectors, read_if,
}
use hcmus_csc10007_operating.SectorFile.Reading.{contents, Mapped, block_of_start, read_at-contents}

-- The blocks lo to hi - 1 have their bytes from the buffer, and no other sector is changed.
pub record Stored (h : FileHeader) (first lo hi : ℕ) (buf : Bytes) (before d : Disk) : Type 0 where
  pub inside :
      (b : ℕ)
      → lo ≤ b
      → b < hi
      → (o : ℕ) → o < sector_size
      → d (h.data_sectors b) o ≡ buf ((b - first) * sector_size + o)
  pub others : (s : ℕ) → ((b : ℕ) → lo ≤ b → b < hi → h.data_sectors b ≢ s) → d s ≡ before s

pub block_apart :
    (h : FileHeader) (b c : ℕ)
    → Mapped h
    → b * sector_size < h.num_bytes
    → c * sector_size < h.num_bytes
    → b ≢ c
    → h.data_sectors b ≢ h.data_sectors c
block_apart h b c m p q ne = λ e. ne (
    sym (block_of_start b)
    ∙ m.apart (b * sector_size) (c * sector_size) p q
        (ap h.data_sectors (block_of_start b) ∙ e ∙ sym (ap h.data_sectors (block_of_start c)))
    ∙ block_of_start c)

pub write_sectors_lem :
    (k i first : ℕ) (h : FileHeader) (buf : Bytes) (d : Disk)
    → Mapped h
    → first ≤ i
    → ((r : ℕ) → r < i + k → r * sector_size < h.num_bytes)
    → (d' : Disk) × (write_sectors k i first h buf d ≡ some d') × Stored h first i (i + k) buf d d'
unfolding write_sectors write_sector byte_to_sector
write_sectors_lem zero i first h buf d m l short =
    (d, refl, record { inside = λ b p q o r. absurd (omega arith); others = λ s p. refl })
write_sectors_lem (suc k) i first h buf d m l short =
    let s = h.data_sectors (i * sector_size / sector_size) in
    let at_i : s ≡ h.data_sectors i = ap h.data_sectors (block_of_start i) in
    let next : Disk =
      λ t. if t == s then bcopy buf ((i - first) * sector_size) (d t) 0 sector_size else d t in
    let on = m.on_disk (i * sector_size) (short i (omega arith)) in
    let there : ltb s num_sectors ≡ true = ground arith in
    let r =
      write_sectors_lem k (suc i) first h buf next m (omega arith) (λ t p. short t (omega arith)) in
    let v = r.2 in
    (
      r.0,
      rw there r.1,
      record {
        inside = λ b p q o u. elim (ℕ_discrete b i) [
          | yes e ↦
              let kept = v.others (h.data_sectors b) (λ c p' q'.
                block_apart h c b m (short c (omega arith)) (short b (omega arith))
                  (λ z. omega arith)) in
              ap (λ (f : Bytes). f o) kept ∙ ground (arith, at_i, ap h.data_sectors e)
          | no e ↦ v.inside b (omega arith) (omega arith) o u
        ];
        others = λ t p.
            v.others t (λ b p' q'. p b (omega arith) (omega arith))
            ∙ (let ne = p i (omega arith) (omega arith) in ground (arith, at_i));
      },
    )

pub read_if_lem :
    (test : Bool) (h : FileHeader) (d : Disk) (made buf : Bytes) (at position : ℕ)
    → Mapped h
    → position + sector_size < sign_bit
    → read_if test h d made buf at position
      ≡ some (
          if test
          then bcopy (contents h d) position buf at (transferred h sector_size position)
          else buf)
read_if_lem true h d made buf at position m l =
    rw (read_at-contents h d made buf at sector_size position m l) refl
read_if_lem false h d made buf at position m l = refl
