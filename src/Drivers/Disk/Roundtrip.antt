-- ===== src/Drivers/Disk/Roundtrip.antt =====
-- A sector that is written and read back.
use munux.Common.{
  ℕ, ◌+◌, ◌-◌, ◌*◌, ◌/◌, ◌%◌, ◌^◌, ◌<◌, ◌≡◌, ◌≢◌, ap, ◌∙◌, inl, inr, true, false, ◌&&◌, ◌==◌, ltb,
  leb, if◌then◌else◌, arith, Bool-cases,
}
use munux.Common.Masks.{or-high_bits}
use munux.Common.Memory.{Memory}
use munux.Drivers.Ports.{Bus}
use munux.Drivers.Disk.{word_at, disk_read_sector, disk_write_sector}
use munux.Drivers.Disk.Ata.{idle, Ata}
use munux.Drivers.Disk.Transfer.{disk_read_sector_lem, disk_write_sector_lem}

-- The two bytes of a word of the buffer.
word_at_bytes :
    (buffer j : ℕ) (m : Memory)
    → ((q : ℕ) → m q < 256)
    → word_at buffer j m ≡ m (buffer + (j * 2 + 1)) * 256 + m (buffer + j * 2)
unfolding word_at
word_at_bytes buffer j m bytes = omega (
  arith,
  or-high_bits 8 (m (buffer + (j * 2 + 1))) (m (buffer + j * 2)) (bytes (buffer + j * 2)),
  bytes (buffer + j * 2),
  bytes (buffer + (j * 2 + 1)),
)

-- The byte that is read for a word that was written.
byte_of_word :
    (buffer k word : ℕ) (m : Memory)
    → ((q : ℕ) → m q < 256)
    → word ≡ word_at buffer (k / 2) m
    → (if k % 2 == 0 then word % 2 ^ 8 else word / 2 ^ 8 % 2 ^ 8) ≡ m (buffer + k)
byte_of_word buffer k word m bytes e = elim (Bool-cases (k % 2 == 0)) [
  | inl even ↦
      let place : buffer + k / 2 * 2 ≡ buffer + k = ground arith in
      rw even (
        omega
          (arith, e, word_at_bytes buffer (k / 2) m bytes, bytes (buffer + k / 2 * 2), ap m place))
  | inr odd ↦
      let place : buffer + (k / 2 * 2 + 1) ≡ buffer + k = ground arith in
      rw odd (
        omega (
          arith,
          e,
          word_at_bytes buffer (k / 2) m bytes,
          bytes (buffer + k / 2 * 2),
          bytes (buffer + (k / 2 * 2 + 1)),
          ap m place,
        ))
]

-- On an ATA device in mode idle, with a buffer of bytes and a sector number below 2^28, a sector that
-- `disk_write_sector` writes is read back: `disk_read_sector` returns 0, the 512 bytes of the target
-- are those of the source, no other byte of the memory it works on changes, and on the device no
-- other sector differs from before.
pub disk_read_sector-write_sector :
    {D : Type 0} (bus : Bus D) (ata : Ata bus) (lba source target : ℕ) (m n : Memory) (d : D)
    → lba < 2 ^ 28
    → ata.In idle d
    → ((q : ℕ) → m q < 256)
    → let d' = (disk_write_sector bus lba source m d).1 in
      ((disk_read_sector bus lba target n d').0 ≡ 0)
      × ((k : ℕ) → k < 512 → (disk_read_sector bus lba target n d').1 (target + k) ≡ m (source + k))
      × ((q : ℕ)
          → (leb target q && ltb q (target + 512)) ≡ false
          → (disk_read_sector bus lba target n d').1 q ≡ n q)
      × ((b j : ℕ)
          → b ≢ lba
          → ata.sector (disk_read_sector bus lba target n d').2 b j ≡ ata.sector d b j)
disk_read_sector-write_sector bus ata lba source target m n d small mode bytes =
    let (mode', written) = disk_write_sector_lem bus ata lba source m d small mode in
    let d' = (disk_write_sector bus lba source m d).1 in
    let (code, stored, end, same) = disk_read_sector_lem bus ata lba target n d' small mode' in
    (
      code,
      λ k h.
          let here : target + k - target ≡ k = omega arith in
          let inside : (leb target (target + k) && ltb (target + k) (target + 512)) ≡ true =
            ground arith in
          let word : ata.sector d' lba (k / 2) ≡ word_at source (k / 2) m =
            ground (arith, written lba (k / 2)) in
          stored (target + k) ∙ rw (inside, here) (byte_of_word source k _ m bytes word),
      λ q out. ground (arith, stored q),
      λ b j ne. ground (arith, same b j, written b j),
    )
