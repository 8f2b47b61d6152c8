-- ===== src/Drivers/Disk/Transfer.antt =====
-- A sector that is written and read back, on an ATA device.
use munux.Common.{
  ℕ, ◌+◌, ◌-◌, ◌/◌, ◌%◌, ◌^◌, ◌<◌, ◌≡◌, ◌≢◌, refl, ◌∙◌, bit_and, bit_or, ◌&&◌, ◌==◌, ltb, leb,
  if◌then◌else◌, arith,
}
use mathlib.Core.Path.{subst}
use munux.Common.Bits.{and_ones}
use munux.Common.Masks.{or-low_bits}
use munux.Common.Memory.{Memory}
use munux.Drivers.Ports.{Bus}
use munux.Drivers.Disk.{
  ata_status, sr_drq, cmd_read_sectors, cmd_write_sectors, word_at, ata_wait_bsy, ata_wait_drq,
  select_sector, receive, disk_read_sector, write_words, disk_write_sector,
}
use munux.Drivers.Disk.Ata.{Mode, idle, reading, writing, address, Ata}
use munux.Drivers.Disk.Words.{
  SameSectors, sector_byte, ata_wait_bsy_lem, ata_wait_drq_lem, write_words_lem, sector_byte_same,
  read_words_lem,
}

module _ {D : Type 0} (bus : Bus D) (ata : Ata bus) where
  open ata use {
    In, sector, delay, delay_lt, poll_mode, poll_sector, poll_delay, poll_busy, poll_no_error,
    poll_read, poll_write, start_read, start_write, start_sector, word_read, word_read_next,
    word_read_sector, word_read_delay, word_write_sector, word_write_next, word_write_delay,
  }

  address_lem :
      (lba : ℕ)
      → lba < 2 ^ 28
      → address
          (bit_or 0xe0 (bit_and (lba / 2 ^ 24) 0x0f))
          (lba % 2 ^ 8)
          (lba / 2 ^ 8 % 2 ^ 8)
          (lba / 2 ^ 16 % 2 ^ 8)
        ≡ lba
  address_lem lba h =
      let nibble : bit_and (lba / 2 ^ 24) 0x0f ≡ lba / 2 ^ 24 =
        and_ones 4 (lba / 2 ^ 24) (omega arith) in
      rw nibble (omega (arith, or-low_bits 4 14 (lba / 2 ^ 24)))

  start_reading :
      (lba : ℕ)
      → lba < 2 ^ 28
      → (d : D) → In idle d
      → delay d ≡ 0
      → In (reading lba 0) (select_sector bus lba cmd_read_sectors d)
  unfolding select_sector
  start_reading lba small d mode free =
      subst (λ a. In (reading a 0) (select_sector bus lba cmd_read_sectors d))
        (address_lem lba small) (start_read _ _ _ _ d mode free)

  start_writing :
      (lba : ℕ)
      → lba < 2 ^ 28
      → (d : D) → In idle d
      → delay d ≡ 0
      → In (writing lba 0) (select_sector bus lba cmd_write_sectors d)
  unfolding select_sector
  start_writing lba small d mode free =
      subst (λ a. In (writing a 0) (select_sector bus lba cmd_write_sectors d))
        (address_lem lba small) (start_write _ _ _ _ d mode free)

  -- The device as it stands when the first word is moved.
  abbrev waited : (lba command : ℕ) → D → D
  waited lba command d = (ata_wait_bsy bus (select_sector bus lba command (ata_wait_bsy bus d).1)).1

  ready_lem :
      (lba command : ℕ) (k : Mode) (d : D)
      → In idle d
      → ((d : D) → In idle d → delay d ≡ 0 → In k (select_sector bus lba command d))
      → ((d : D) → In k d → delay d ≡ 0 → bit_and (bus.inb ata_status d).0 sr_drq ≢ 0)
      → ((ata_wait_bsy bus d).0 ≡ 0)
        × ((ata_wait_bsy bus (select_sector bus lba command (ata_wait_bsy bus d).1)).0 ≡ 0)
        × ((ata_wait_drq bus (waited lba command d)).0 ≡ 0)
        × In k (ata_wait_drq bus (waited lba command d)).1
        × (delay (ata_wait_drq bus (waited lba command d)).1 ≡ 0)
        × SameSectors bus ata d (ata_wait_drq bus (waited lba command d)).1
  unfolding select_sector
  ready_lem lba command k d mode start drq =
      let (code1, mode1, free1, same1) = ata_wait_bsy_lem bus ata idle d mode in
      let d1 = (ata_wait_bsy bus d).1 in
      let d2 = select_sector bus lba command d1 in
      let (code3, mode3, free3, same3) = ata_wait_bsy_lem bus ata k d2 (start d1 mode1 free1) in
      let d3 = (ata_wait_bsy bus d2).1 in
      let (code4, mode4, free4, same4) =
        ata_wait_drq_lem bus ata k d3 mode3 free3 (drq d3 mode3 free3) in
      (
        code1,
        code3,
        code4,
        mode4,
        free4,
        λ b j. same4 b j ∙ same3 b j ∙ start_sector _ _ _ _ command d1 b j ∙ same1 b j,
      )

  pub disk_write_sector_lem :
      (lba buffer : ℕ) (m : Memory) (d : D)
      → lba < 2 ^ 28
      → In idle d
      → In idle (disk_write_sector bus lba buffer m d).1
        × ((b j : ℕ)
            → sector (disk_write_sector bus lba buffer m d).1 b j
              ≡ (if b == lba && ltb j 256 then word_at buffer j m else sector d b j))
  unfolding disk_write_sector
  disk_write_sector_lem lba buffer m d small mode =
      let (code1, code2, code3, writes, free, same) =
        ready_lem lba cmd_write_sectors (writing lba 0) d mode (start_writing lba small)
          (poll_write lba 0) in
      let ready = (ata_wait_drq bus (waited lba cmd_write_sectors d)).1 in
      let (mode5, words) =
        write_words_lem bus ata 256 0 lba buffer m ready refl (omega arith) writes free in
      let (code6, mode6, free6, same6) =
        ata_wait_bsy_lem bus ata idle (write_words bus 256 0 buffer m ready) mode5 in
      (mode6, λ b j. ground (arith, same6 b j, words b j, same b j))

  pub disk_read_sector_lem :
      (lba buffer : ℕ) (m : Memory) (d : D)
      → lba < 2 ^ 28
      → In idle d
      → ((disk_read_sector bus lba buffer m d).0 ≡ 0)
        × ((q : ℕ)
            → (disk_read_sector bus lba buffer m d).1 q ≡ (
                if leb buffer q && ltb q (buffer + 512)
                then sector_byte bus ata d lba (q - buffer)
                else m q))
        × In idle (disk_read_sector bus lba buffer m d).2
        × SameSectors bus ata d (disk_read_sector bus lba buffer m d).2
  unfolding disk_read_sector receive
  disk_read_sector_lem lba buffer m d small mode =
      let (code1, code2, code3, reads, free, same) =
        ready_lem lba cmd_read_sectors (reading lba 0) d mode (start_reading lba small)
          (poll_read lba 0) in
      let ready = (ata_wait_drq bus (waited lba cmd_read_sectors d)).1 in
      let (mode5, same5, stored) =
        read_words_lem bus ata 256 0 lba buffer m ready refl reads free in
      rw (code1, code2, code3)
        (
          refl,
          λ q.
              stored q ∙ rw (sector_byte_same bus ata d ready lba (q - buffer) same) (ground arith),
          mode5,
          λ b j. same5 b j ∙ same b j,
        )
